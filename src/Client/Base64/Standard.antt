-- ===== src/Client/Base64/Standard.antt =====
-- The base64 text of RFC 4648, apart from the code, and websocket_base64_encode of
-- src/websocket-client.cc against it.
use dog_server.Base.{
  ℕ, ◌+◌, ◌-◌, ◌*◌, ◌/◌, ◌%◌, ◌^◌, ◌≡◌, refl, ap₂, Bool, true, List, [], ◌∷◌, ltb, ◌==◌,
  if◌then◌else◌, table, table_entry, IsBytes, arith,
}
use dog_server.Client.Base64.{
  char_at, first, second_part, second, third_part, third, fourth, base64_encode,
}
use dog_server.Client.Base64.RoundTrip.{
  first-eq, second_part-eq, third_part-eq, fourth-eq, second-eq, third-eq,
}

-- Table 1.
unfoldable pub letter : ℕ → ℕ
letter k =
    if ltb k 26
    then b'A' + k
    else if ltb k 52
    then b'a' + (k - 26)
    else if ltb k 62
    then b'0' + (k - 52)
    else if k == 62
    then b'+'
    else b'/'

-- The 6 bits of a group of 24 that stand behind `k` others from its end.
abbrev pub sixth : ℕ → ℕ → ℕ
sixth k n = letter (n / 2 ^ k % 64)

abbrev pub group : ℕ → ℕ → ℕ → ℕ
group a b c = a * 2 ^ 16 + b * 2 ^ 8 + c

unfoldable pub standard_base64 : List ℕ → List ℕ
standard_base64 [] = []
standard_base64 (a ∷ []) = let n = group a 0 0 in sixth 18 n ∷ sixth 12 n ∷ b'=' ∷ b'=' ∷ []
standard_base64 (a ∷ b ∷ []) =
    let n = group a b 0 in sixth 18 n ∷ sixth 12 n ∷ sixth 6 n ∷ b'=' ∷ []
standard_base64 (a ∷ b ∷ c ∷ rest) =
    let n = group a b c in sixth 18 n ∷ sixth 12 n ∷ sixth 6 n ∷ sixth 0 n ∷ standard_base64 rest

abbrev letter_check : ℕ → Bool
letter_check k = char_at k == letter k

letter_table : table letter_check 64 ≡ true
unfolding table char_at letter
letter_table = refl

char_at-letter : (k n : ℕ) → k ≡ n % 64 → char_at k ≡ letter (n % 64)
char_at-letter k n e =
    ground (arith, e, table_entry letter_check 64 k (omega (arith, e)) letter_table)

pub base64_encode-standard_base64 :
    (bytes : List ℕ) → IsBytes bytes → base64_encode bytes ≡ standard_base64 bytes
unfolding base64_encode standard_base64
base64_encode-standard_base64 [] h = refl
base64_encode-standard_base64 (a ∷ []) h =
    let n = group a 0 0 in
    ap₂ (λ (s t : ℕ). s ∷ t ∷ b'=' ∷ b'=' ∷ [])
      (char_at-letter (first a) (n / 2 ^ 18) (omega (arith, first-eq a h.0)))
      (char_at-letter (second_part a) (n / 2 ^ 12) (omega (arith, h.0, second_part-eq a h.0)))
base64_encode-standard_base64 (a ∷ b ∷ []) h =
    let n = group a b 0 in
    ap₂ ◌∷◌ (char_at-letter (first a) (n / 2 ^ 18) (omega (arith, h, first-eq a h.0))) (
      ap₂ (λ (s t : ℕ). s ∷ t ∷ b'=' ∷ [])
        (char_at-letter (second a b) (n / 2 ^ 12) (omega (arith, h, second-eq a b h.0 h.1.0)))
        (char_at-letter (third_part b) (n / 2 ^ 6) (omega (arith, h, third_part-eq b h.1.0))))
base64_encode-standard_base64 (a ∷ b ∷ c ∷ rest) h =
    let n = group a b c in
    ap₂ ◌∷◌
      (char_at-letter (first a) (n / 2 ^ 18) (omega (arith, h.0, h.1.0, h.1.1.0, first-eq a h.0)))
      (ap₂ ◌∷◌
        (char_at-letter (second a b) (n / 2 ^ 12)
          (omega (arith, h.0, h.1.0, h.1.1.0, second-eq a b h.0 h.1.0)))
        (ap₂ ◌∷◌
          (char_at-letter (third b c) (n / 2 ^ 6)
            (omega (arith, h.0, h.1.0, h.1.1.0, third-eq b c h.1.0 h.1.1.0)))
          (ap₂ ◌∷◌
            (char_at-letter (fourth c) (n / 2 ^ 0)
              (omega (arith, h.0, h.1.0, h.1.1.0, fourth-eq c h.1.1.0)))
            (base64_encode-standard_base64 rest h.1.1.1))))
