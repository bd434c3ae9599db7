-- ===== src/Base/Bytes.antt =====
-- Bytes and machine words as numbers: casts, shifts, and the exclusive or of two bytes.
use Prim.Native.Nat.{ℕ, zero, suc, ◌*◌, ◌/◌, ◌%◌, ◌^◌, ◌<◌, bit_xor}
use mathlib.Core.Path.{◌≡◌, refl}
use mathlib.Core.Bool.{Bool, true, ◌&&◌}
use mathlib.Core.List.{List, [], ◌∷◌}
use native.Mathlib.Omega.{arith}
use dog_server.Base.Tests.{◌==◌, ltb}
use dog_server.Base.Lists.{All, get_or}

abbrev pub u8 : ℕ → ℕ
u8 n = n % 2 ^ 8

abbrev pub u32 : ℕ → ℕ
u32 n = n % 2 ^ 32

infixl 75 ◌<<<◌ ◌>>>◌
abbrev pub ◌<<<◌ : ℕ → ℕ → ℕ
x <<< k = x * 2 ^ k

abbrev pub ◌>>>◌ : ℕ → ℕ → ℕ
x >>> k = x / 2 ^ k

abbrev pub IsByte : ℕ → Type 0
IsByte b = b < 256

abbrev pub IsBytes : List ℕ → Type 0
IsBytes bs = All IsByte bs

-- A table: a test at each number below a bound, evaluated.
unfoldable pub table : (ℕ → Bool) → ℕ → Bool
table test zero = true
table test (suc k) = table test k && test k

pub table_entry : (test : ℕ → Bool) (k i : ℕ) → i < k → table test k ≡ true → test i ≡ true
unfolding table
table_entry test (suc k) i below whole = ground (arith, table_entry test k i)
table_entry test zero i below whole = absurd (omega arith)

abbrev xor_check : ℕ → ℕ → Bool
xor_check k x = bit_xor (bit_xor x k) k == x && ltb (bit_xor x k) 256

xor_table : table (λ k. table (xor_check k) 256) 256 ≡ true
unfolding table
xor_table = refl

xor_checked : (k x : ℕ) → k < 256 → x < 256 → xor_check k x ≡ true
xor_checked k x hk hx =
    table_entry (xor_check k) 256 x hx
      (table_entry (λ k. table (xor_check k) 256) 256 k hk xor_table)

pub bit_xor_undo : (x k : ℕ) → x < 256 → k < 256 → bit_xor (bit_xor x k) k ≡ x
bit_xor_undo x k hx hk = ground (arith, xor_checked k x hk hx)

pub bit_xor-lt : (x k : ℕ) → x < 256 → k < 256 → bit_xor x k < 256
bit_xor-lt x k hx hk = ground (arith, xor_checked k x hk hx)

-- x & (2 ^ k - 1).
abbrev pub low_bits : ℕ → ℕ → ℕ
low_bits x k = x % 2 ^ k

pub get_or-lt : (key : List ℕ) (i : ℕ) → IsBytes key → get_or key i 0 < 256
get_or-lt [] i h = omega arith
get_or-lt (k ∷ key) zero h = h.0
get_or-lt (k ∷ key) (suc i) h = get_or-lt key i h.1
