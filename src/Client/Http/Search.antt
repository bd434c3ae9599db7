-- ===== src/Client/Http/Search.antt =====
-- Finding a word in a text of lines, and taking the word behind it.
use dog_server.Base.{
  ℕ, ◌≤◌, ◌≡◌, ◌≢◌, refl, Bool, true, false, ◌||◌, some, List, [], ◌∷◌, ◌++◌, ◌==◌, length, All,
  IsWord, arith,
}
use dog_server.Client.Http.{starts_with, strstr, is_space, skip_spaces, word_of, scan}

abbrev lf : ℕ
lf = 10

unfoldable pub has : ℕ → List ℕ → Bool
has b [] = false
has b (c ∷ cs) = c == b || has b cs

starts_with-line :
    (b : ℕ) (word line rest : List ℕ)
    → has b word ≡ true
    → has lf word ≡ false
    → All (λ (c : ℕ). c ≢ b) line
    → starts_with word (line ++ (lf ∷ rest)) ≡ false
unfolding starts_with has
starts_with-line b [] line rest h k l = absurd (ground arith)
starts_with-line b (w ∷ word) [] rest h k l = ground arith
starts_with-line b (w ∷ word) (c ∷ line) rest h k l =
    ground (arith, starts_with-line b word line rest)

-- A line that lacks a byte of the word does not hold it.
pub strstr-line :
    (b : ℕ) (word line rest : List ℕ)
    → has b word ≡ true
    → has lf word ≡ false
    → All (λ (c : ℕ). c ≢ b) line
    → strstr (line ++ (lf ∷ rest)) word ≡ strstr rest word
unfolding strstr
strstr-line b word [] rest h k l = rw (starts_with-line b word [] rest h k tt)
strstr-line b word (c ∷ line) rest h k l =
    rw (starts_with-line b word (c ∷ line) rest h k l) (strstr-line b word line rest h k l.1)

starts_with-append : (word rest : List ℕ) → starts_with word (word ++ rest) ≡ true
unfolding starts_with
starts_with-append [] rest = refl
starts_with-append (c ∷ word) rest = ground (arith, starts_with-append word rest)

strstr-found : (text word : List ℕ) → starts_with word text ≡ true → strstr text word ≡ some text
unfolding strstr
strstr-found [] word h = rw h refl
strstr-found (c ∷ text) word h = rw h refl

pub strstr-append : (word rest : List ℕ) → strstr (word ++ rest) word ≡ some (word ++ rest)
strstr-append word rest = strstr-found (word ++ rest) word (starts_with-append word rest)

pub word_of-append :
    (word : List ℕ) (b : ℕ) (rest : List ℕ)
    → is_space b ≡ true
    → IsWord word
    → word_of (word ++ (b ∷ rest)) ≡ word
unfolding word_of
word_of-append [] b rest sp h = rw sp refl
word_of-append (c ∷ word) b rest sp h = ground (arith, word_of-append word b rest sp h.1)

-- A word is read up to the space behind it.
pub scan-append_space :
    (word : List ℕ) (b : ℕ) (rest : List ℕ)
    → is_space b ≡ true
    → IsWord word
    → 1 ≤ length word
    → scan (word ++ (b ∷ rest)) ≡ word
unfolding skip_spaces
scan-append_space [] b rest sp h n = absurd (omega arith)
scan-append_space (c ∷ word) b rest sp h n =
    let no_space : is_space c ≡ false = ground arith in
    rw no_space (word_of-append (c ∷ word) b rest sp h)

pub scan-append :
    (word rest : List ℕ) → IsWord word → 1 ≤ length word → scan (word ++ (13 ∷ rest)) ≡ word
scan-append word rest h n = scan-append_space word 13 rest refl h n
