-- ===== src/Logging/Stream/Numbers.antt =====
-- convert prints the decimal digits, and they fit.
use dog_server.Base.{
  ℕ, zero, suc, ◌+◌, ◌*◌, ◌/◌, ◌%◌, ◌^◌, ◌≤◌, ◌<◌, ◌≡◌, refl, ap, ◌∙◌, Bool, Bool-cases, inl, inr,
  true, false, List, [], ◌∷◌, ltb, ◌==◌, ◌&&◌, if◌then◌else◌, length, decimal_loop, decimal,
  decimal-IsDigit, value_from, value-decimal, table, table_entry, All, arith,
}
use dog_server.Logging.Stream.{
  ℤ, pos, negsuc, minus, quot, rem, zero_at, is_zero, convert_loop, magnitude, convert,
}

-- The characters of both halves of the table.
abbrev digit_check : ℕ → Bool
digit_check n = zero_at (pos n) == b'0' + n && zero_at (minus n) == b'0' + n

digit_table : table digit_check 10 ≡ true
unfolding table zero_at
digit_table = refl

digit_lem : (n : ℕ) → n < 10 → (zero_at (pos n) ≡ b'0' + n) × (zero_at (minus n) ≡ b'0' + n)
digit_lem n h = ground (arith, table_entry digit_check 10 n h digit_table)

quot-minus : (n : ℕ) → quot (minus n) ≡ minus (n / 10)
quot-minus zero = refl
quot-minus (suc n) = refl

rem-minus : (n : ℕ) → rem (minus n) ≡ minus (n % 10)
rem-minus zero = refl
rem-minus (suc n) = refl

is_zero-minus : (n : ℕ) → is_zero (minus n) ≡ (n == 0)
is_zero-minus zero = refl
is_zero-minus (suc n) = ground arith

convert_loop-pos :
    (fuel n : ℕ) (buf : List ℕ) → convert_loop fuel (pos n) buf ≡ decimal_loop fuel n buf
unfolding convert_loop decimal_loop
convert_loop-pos zero n buf = refl
convert_loop-pos (suc fuel) n buf = elim (Bool-cases (ltb n 10)) [
  | inl small ↦
      let last : (n / 10 == 0) ≡ true = ground arith in
      let same : n % 10 ≡ n = ground arith in
      let digit = digit_lem (n % 10) (omega arith) in
      rw (small, last, digit.0) (ap (λ (c : ℕ). (b'0' + c) ∷ buf) same)
  | inr large ↦
      let more : (n / 10 == 0) ≡ false = ground arith in
      let digit = digit_lem (n % 10) (omega arith) in
      rw (large, more, digit.0) (convert_loop-pos fuel (n / 10) ((b'0' + n % 10) ∷ buf))
]

convert_loop-minus :
    (fuel n : ℕ) (buf : List ℕ) → convert_loop fuel (minus n) buf ≡ decimal_loop fuel n buf
unfolding convert_loop decimal_loop
convert_loop-minus zero n buf = refl
convert_loop-minus (suc fuel) n buf = elim (Bool-cases (ltb n 10)) [
  | inl small ↦
      let last : (n / 10 == 0) ≡ true = ground arith in
      let same : n % 10 ≡ n = ground arith in
      let digit = digit_lem (n % 10) (omega arith) in
      rw (small, quot-minus n, is_zero-minus (n / 10), last, rem-minus n, digit.1)
        (ap (λ (c : ℕ). (b'0' + c) ∷ buf) same)
  | inr large ↦
      let more : (n / 10 == 0) ≡ false = ground arith in
      let digit = digit_lem (n % 10) (omega arith) in
      rw (large, quot-minus n, is_zero-minus (n / 10), more, rem-minus n, digit.1)
        (convert_loop-minus fuel (n / 10) ((b'0' + n % 10) ∷ buf))
]

-- What a number looks like in the log.
pub convert-pos : (n : ℕ) → convert (pos n) ≡ decimal n
unfolding convert decimal
convert-pos n = convert_loop-pos (suc n) n []

pub convert-negsuc : (n : ℕ) → convert (negsuc n) ≡ b'-' ∷ decimal (suc n)
unfolding convert decimal
convert-negsuc n = ap (λ (t : List ℕ). b'-' ∷ t) (convert_loop-minus (suc (suc n)) (suc n) [])

-- Reading a text of digits, with or without a sign.
abbrev pub read_number : List ℕ → ℤ
read_number [] = pos 0
read_number (c ∷ cs) = if c == b'-' then minus (value_from 0 cs) else pos (value_from 0 (c ∷ cs))

read_number-digits :
    (cs : List ℕ) → All (λ (c : ℕ). (48 ≤ c) × (c ≤ 57)) cs → read_number cs ≡ pos (value_from 0 cs)
read_number-digits [] h = refl
read_number-digits (c ∷ cs) h = let digit : (c == b'-') ≡ false = ground arith in rw digit refl

-- Every number, negative ones included, is read back from what convert prints.
pub read_number-convert : (v : ℤ) → read_number (convert v) ≡ v
read_number-convert (pos n) =
    ap read_number (convert-pos n)
    ∙ read_number-digits (decimal n) (decimal-IsDigit n)
    ∙ ap pos (value-decimal n)
read_number-convert (negsuc n) =
    ap read_number (convert-negsuc n) ∙ ap minus (value-decimal (suc n))

-- A number below 10 ^ k has at most k digits.
abbrev ten_to : ℕ → ℕ
ten_to zero = 1
ten_to (suc k) = 10 * ten_to k

length-decimal_loop :
    (k fuel n : ℕ) (acc : List ℕ)
    → n < 10 * ten_to k
    → length (decimal_loop fuel n acc) ≤ length acc + suc k
unfolding decimal_loop
length-decimal_loop k zero n acc h = omega arith
length-decimal_loop zero (suc fuel) n acc h =
    let small : ltb n 10 ≡ true = ground arith in rw small (omega arith)
length-decimal_loop (suc k) (suc fuel) n acc h =
    let rest = length-decimal_loop k fuel (n / 10) ((b'0' + n % 10) ∷ acc) (omega arith) in
    elim (Bool-cases (ltb n 10)) [
      | inl small ↦ rw small (omega arith)
      | inr large ↦ rw large (omega (arith, rest))
    ]

length-decimal : (n : ℕ) → n < 2 ^ 64 → length (decimal n) ≤ 20
unfolding decimal
length-decimal n h = length-decimal_loop 19 (suc n) n [] (omega arith)

pub length-convert : (v : ℤ) → magnitude v < 2 ^ 64 → length (convert v) ≤ 21
length-convert (pos n) h = let e = ap length (convert-pos n) in omega (arith, e, length-decimal n h)
length-convert (negsuc n) h =
    let e = ap length (convert-negsuc n) in omega (arith, e, length-decimal (suc n) h)
