-- ===== src/Client/Program/Listing/RoundTrip.antt =====
-- load_list reads back the list of files that is written a line an item.
use dog_server.Base.{
  ℕ, zero, suc, ◌+◌, ◌-◌, ◌≡◌, ◌≢◌, ◌≤◌, ◌<◌, refl, ap, ap₂, ◌∙◌, true, false, some, List, [], ◌∷◌,
  ◌++◌, append_assoc, arith, length, length-append, All, All-append, c_str, c_str_lem, IsWord, ◌==◌,
}
use dog_server.Client.Http.{is_space, skip_spaces, scan}
use dog_server.Client.Http.Search.{scan-append_space}
use dog_server.Client.Program.Listing.{
  FileItem, id_size, path_size, line_size, fgets, behind_word, sscanf_item, add_item, load_loop,
  make_list, load_list,
}

-- Words that the arrays hold.
pub record IsListed (i : FileItem) : Type 0 where
  pub id_word : IsWord i.id
  pub path_word : IsWord i.path
  pub id_room : (1 ≤ length i.id) × (length i.id < id_size)
  pub path_room : (1 ≤ length i.path) × (length i.path < path_size)

abbrev pub item_text : FileItem → List ℕ
item_text i = i.id ++ (9 ∷ i.path)

pub list_text : List FileItem → List ℕ
list_text [] = []
list_text (i ∷ is) = item_text i ++ (10 ∷ list_text is)

fgets-line :
    (n : ℕ) (line rest : List ℕ)
    → length line < n
    → All (λ (c : ℕ). c ≢ 10) line
    → fgets n (line ++ (10 ∷ rest)) ≡ (line ++ (10 ∷ []), rest)
unfolding fgets
fgets-line zero line rest l h = absurd (omega arith)
fgets-line (suc n) [] rest l h = refl
fgets-line (suc n) (c ∷ line) rest l h =
    let other : (c == 10) ≡ false = ground (arith, h.0) in
    rw (other, fgets-line n line rest (omega arith) h.1) refl

behind_word-append :
    (word : List ℕ) (b : ℕ) (rest : List ℕ)
    → is_space b ≡ true
    → IsWord word
    → behind_word (word ++ (b ∷ rest)) ≡ b ∷ rest
unfolding behind_word
behind_word-append [] b rest sp h = rw sp refl
behind_word-append (c ∷ word) b rest sp h = ground (arith, behind_word-append word b rest sp h.1)

skip_spaces-word :
    (word rest : List ℕ) → IsWord word → 1 ≤ length word → skip_spaces (word ++ rest) ≡ word ++ rest
unfolding skip_spaces
skip_spaces-word [] rest h n = absurd (omega arith)
skip_spaces-word (c ∷ word) rest h n =
    let other : is_space c ≡ false = ground arith in rw other refl

scan_tab : (text : List ℕ) → scan (9 ∷ text) ≡ scan text
unfolding skip_spaces
scan_tab text = refl

sscanf_item-text : (i : FileItem) → IsListed i → sscanf_item (item_text i ++ (10 ∷ [])) ≡ i
unfolding sscanf_item
sscanf_item-text i h =
    let rest : List ℕ = i.path ++ (10 ∷ []) in
    let path : scan (9 ∷ rest) ≡ i.path =
      scan_tab rest ∙ scan-append_space i.path 10 [] refl h.path_word h.path_room.0 in
    let behind : behind_word (skip_spaces (i.id ++ (9 ∷ rest))) ≡ 9 ∷ rest =
      ap behind_word (skip_spaces-word i.id (9 ∷ rest) h.id_word h.id_room.0)
      ∙ behind_word-append i.id 9 rest refl h.id_word in
    ap sscanf_item (append_assoc i.id (9 ∷ i.path) (10 ∷ []))
    ∙ ap₂ (λ a b. record { id = a; path = b })
        (scan-append_space i.id 9 rest refl h.id_word h.id_room.0) (ap scan behind ∙ path)

is_not : (b : ℕ) (word : List ℕ) → b < 33 → IsWord word → All (λ (c : ℕ). c ≢ b) word
is_not b [] l h = tt
is_not b (c ∷ word) l h = (ground (arith, h.0), is_not b word l h.1)

item_text-All :
    (b : ℕ) (i : FileItem) → b < 33 → b ≢ 9 → IsListed i → All (λ (c : ℕ). c ≢ b) (item_text i)
item_text-All b i l o h =
    All-append (λ (c : ℕ). c ≢ b) i.id (9 ∷ i.path) (is_not b i.id l h.id_word)
      (omega (arith, o), is_not b i.path l h.path_word)

line-c_str :
    (i : FileItem) → IsListed i → c_str (item_text i ++ (10 ∷ [])) ≡ item_text i ++ (10 ∷ [])
line-c_str i h = c_str_lem (item_text i ++ (10 ∷ [])) (
    All-append (λ (c : ℕ). c ≢ 0) (item_text i) (10 ∷ [])
      (item_text-All 0 i (omega arith) (omega arith) h) (omega arith, tt))

load_loop-next :
    (fuel : ℕ) (file line rest : List ℕ)
    → 1 ≤ length file
    → fgets (line_size - 2) file ≡ (line, rest)
    → load_loop (suc fuel) file ≡ add_item (sscanf_item (c_str line)) (load_loop fuel rest)
unfolding load_loop
load_loop-next fuel [] line rest n q = absurd (omega arith)
load_loop-next fuel (c ∷ file) line rest n q =
    ap (λ (p : List ℕ × List ℕ). add_item (sscanf_item (c_str p.0)) (load_loop fuel p.1)) q

item_text-length : (i : FileItem) → length (item_text i) ≡ length i.id + suc (length i.path)
item_text-length i = length-append i.id (9 ∷ i.path)

fits : (i : FileItem) (is : List FileItem) → IsListed i → add_item i (some is) ≡ some (i ∷ is)
fits i is h = ground (arith, h.id_room, h.path_room)

load_loop-list_text :
    (is : List FileItem) (fuel : ℕ)
    → All IsListed is
    → length (list_text is) ≤ fuel
    → load_loop fuel (list_text is) ≡ some is
unfolding list_text load_loop
load_loop-list_text [] zero h n = refl
load_loop-list_text [] (suc fuel) h n = refl
load_loop-list_text (i ∷ is) zero h n =
    absurd (omega (arith, n, length-append (item_text i) (10 ∷ list_text is)))
load_loop-list_text (i ∷ is) (suc fuel) h n =
    let size = length-append (item_text i) (10 ∷ list_text is) in
    let line =
      fgets-line (line_size - 2) (item_text i) (list_text is)
        (omega (arith, item_text-length i, h.0.id_room, h.0.path_room))
        (item_text-All 10 i (omega arith) (omega arith) h.0) in
    load_loop-next fuel (item_text i ++ (10 ∷ list_text is)) _ _ (omega (arith, size)) line
    ∙ rw
        (
          line-c_str i h.0,
          sscanf_item-text i h.0,
          load_loop-list_text is fuel h.1 (omega (arith, n, size)),
        )
        (fits i is h.0)

-- A list of words that fit their arrays, written a line an item with a tab between: load_list gives
-- exactly these items in order, with their number, starting at the first.
pub load_list-list_text :
    (is : List FileItem)
    → All IsListed is
    → load_list (list_text is) ≡ some record { list = is; cur_pos = 0; list_num = length is }
unfolding load_list
load_list-list_text is h = ap make_list (load_loop-list_text is _ h (omega arith))
