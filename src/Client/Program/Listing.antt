-- ===== src/Client/Program/Listing.antt =====
-- load_list of bin/dog-client.cc: the list of files, one item a line, with fgets and sscanf as it
-- uses them.
pub mod RoundTrip
use dog_server.Base.{
  ℕ, zero, suc, ◌+◌, ◌-◌, Bool, true, false, ◌||◌, Option, none, some, List, [], ◌∷◌, ◌++◌, leb,
  ◌==◌, if◌then◌else◌, length, c_str,
}
use dog_server.Client.Http.{is_space, skip_spaces, scan}

-- FileItem, its arrays as the texts in them, and FileList.
pub record FileItem : Type 0 where
  pub id : List ℕ
  pub path : List ℕ

pub record FileList : Type 0 where
  pub list : List FileItem
  pub cur_pos : ℕ
  pub list_num : ℕ

abbrev pub id_size : ℕ
id_size = 256

abbrev pub path_size : ℕ
path_size = 1024

abbrev pub line_size : ℕ
line_size = 2014

abbrev put_first : ℕ → List ℕ × List ℕ → List ℕ × List ℕ
put_first c (line, rest) = (c ∷ line, rest)

-- The text that fgets reads, `n` bytes at most, and what is left of the file.
unfoldable pub fgets : ℕ → List ℕ → List ℕ × List ℕ
fgets zero file = ([], file)
fgets (suc n) [] = ([], [])
fgets (suc n) (c ∷ file) =
    let more = fgets n file in if c == 10 then (c ∷ [], file) else put_first c more

-- What sscanf leaves behind the first word.
unfoldable pub behind_word : List ℕ → List ℕ
behind_word [] = []
behind_word (c ∷ text) = let rest = behind_word text in if is_space c then c ∷ text else rest

-- sscanf with "%s\t%s\n" on the text of a line, into two empty arrays.
unfoldable pub sscanf_item : List ℕ → FileItem
sscanf_item line = record { id = scan line; path = scan (behind_word (skip_spaces line)) }

-- An array that its word and the closing '\0' do not fit.
abbrev pub overflows : FileItem → Bool
overflows i = leb id_size (length i.id) || leb path_size (length i.path)

abbrev pub add_item : FileItem → Option (List FileItem) → Option (List FileItem)
add_item i none = none
add_item i (some is) = if overflows i then none else some (i ∷ is)

-- The loop of load_list, which ends where fgets reads nothing; `none` where an array overflows.
unfoldable pub load_loop : ℕ → List ℕ → Option (List FileItem)
load_loop zero file = some []
load_loop (suc fuel) [] = some []
load_loop (suc fuel) (c ∷ file) =
    let (line, rest) = fgets (line_size - 2) (c ∷ file) in
    add_item (sscanf_item (c_str line)) (load_loop fuel rest)

abbrev pub make_list : Option (List FileItem) → Option FileList
make_list none = none
make_list (some is) = some record { list = is; cur_pos = 0; list_num = length is }

unfoldable pub load_list : List ℕ → Option FileList
load_list file = make_list (load_loop (length file) file)
