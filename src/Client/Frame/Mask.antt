-- ===== src/Client/Frame/Mask.antt =====
-- The masking loop of the client's frames.
use dog_server.Base.{
  ℕ, zero, suc, ◌+◌, ◌<◌, ◌≡◌, refl, ap, ap₂, bit_xor, Bool, List, [], ◌∷◌, ◌==◌, length, get_or,
  get_or-lt, IsBytes, table, table_entry, bit_xor_undo, bit_xor-lt, arith,
}
use dog_server.Client.Frame.{random_byte, get_random_string, exclusive_or, next_count, mask_loop}

abbrev same_as_xor : ℕ → ℕ → Bool
same_as_xor k x = exclusive_or k x == bit_xor x k

xor_table : table (λ k. table (same_as_xor k) 256) 256 ≡ Bool.true
unfolding table exclusive_or
xor_table = refl

-- The and-or formula of the code is the exclusive or.
pub exclusive_or-bit_xor : (k x : ℕ) → k < 256 → x < 256 → exclusive_or k x ≡ bit_xor x k
exclusive_or-bit_xor k x hk hx = ground (
  arith,
  table_entry (same_as_xor k) 256 x hx
      (table_entry (λ k. table (same_as_xor k) 256) 256 k hk xor_table),
)

exclusive_or_undo : (k x : ℕ) → k < 256 → x < 256 → exclusive_or k (exclusive_or k x) ≡ x
exclusive_or_undo k x hk hx = ground (
  arith,
  exclusive_or-bit_xor k x hk hx,
  exclusive_or-bit_xor k (bit_xor x k) hk,
  bit_xor-lt x k hx hk,
  bit_xor_undo x k hx hk,
)

pub length-mask_loop :
    (key : List ℕ) (count : ℕ) (xs : List ℕ) → length (mask_loop key count xs) ≡ length xs
unfolding mask_loop
length-mask_loop key count [] = refl
length-mask_loop key count (x ∷ xs) = ap suc (length-mask_loop key (next_count count) xs)

-- Masking twice from the same place of the same key gives the bytes back.
pub mask_loop_undo :
    (key : List ℕ) (count : ℕ) (xs : List ℕ)
    → IsBytes key
    → IsBytes xs
    → mask_loop key count (mask_loop key count xs) ≡ xs
unfolding mask_loop
mask_loop_undo key count [] hk hx = refl
mask_loop_undo key count (x ∷ xs) hk hx =
    ap₂ ◌∷◌ (exclusive_or_undo (get_or key count 0) x (get_or-lt key count hk) hx.0)
      (mask_loop_undo key (next_count count) xs hk hx.1)

-- A byte of the key is never 0.
pub random_byte_bounds : (r : ℕ) → (0 < random_byte r) × (random_byte r < 256)
unfolding random_byte
random_byte_bounds r = ground arith

pub get_random_string-IsBytes : (rand : ℕ → ℕ) (i n : ℕ) → IsBytes (get_random_string rand i n)
unfolding get_random_string
get_random_string-IsBytes rand i zero = tt
get_random_string-IsBytes rand i (suc n) =
    ((random_byte_bounds (rand i)).1, get_random_string-IsBytes rand (i + 1) n)

pub length-get_random_string : (rand : ℕ → ℕ) (i n : ℕ) → length (get_random_string rand i n) ≡ n
unfolding get_random_string
length-get_random_string rand i zero = refl
length-get_random_string rand i (suc n) = ap suc (length-get_random_string rand (i + 1) n)
