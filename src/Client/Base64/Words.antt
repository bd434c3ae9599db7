-- ===== src/Client/Base64/Words.antt =====
-- A base64 text is one word: printed bytes without a space.
use dog_server.Base.{
  ℕ, ◌+◌, ◌*◌, ◌/◌, ◌≤◌, ◌<◌, ◌≡◌, refl, Bool, true, ◌&&◌, List, [], ◌∷◌, leb, length, IsWord,
  table, table_entry, IsBytes, arith,
}
use dog_server.Client.Base64.{
  pad, char_at, first, second_part, second, third_part, third, fourth, base64_encode,
}
use dog_server.Client.Base64.RoundTrip.{
  first-eq, second_part-eq, third_part-eq, fourth-eq, second-eq, third-eq,
}

abbrev word_check : ℕ → Bool
word_check k = leb 33 (char_at k) && leb (char_at k) 126

word_table : table word_check 64 ≡ true
unfolding table char_at
word_table = refl

char_at-word : (k : ℕ) → k < 64 → (33 ≤ char_at k) × (char_at k ≤ 126)
char_at-word k h = ground (arith, table_entry word_check 64 k h word_table)

pub base64_encode-IsWord : (bytes : List ℕ) → IsBytes bytes → IsWord (base64_encode bytes)
unfolding base64_encode
base64_encode-IsWord [] h = tt
base64_encode-IsWord (a ∷ []) h =
    let first_word = char_at-word (first a) (omega (arith, first-eq a h.0)) in
    (first_word, (char_at-word (second_part a) (omega (arith, second_part-eq a h.0)), pads))
  where
    pads : IsWord (pad ∷ pad ∷ [])
    pads = ((omega arith, omega arith), ((omega arith, omega arith), tt))
base64_encode-IsWord (a ∷ b ∷ []) h =
    let first_word = char_at-word (first a) (omega (arith, first-eq a h.0)) in
    let second_word = char_at-word (second a b) (omega (arith, second-eq a b h.0 h.1.0)) in
    let third_word = char_at-word (third_part b) (omega (arith, third_part-eq b h.1.0)) in
    (first_word, (second_word, (third_word, ((omega arith, omega arith), tt))))
base64_encode-IsWord (a ∷ b ∷ c ∷ rest) h =
    let first_word = char_at-word (first a) (omega (arith, first-eq a h.0)) in
    let second_word = char_at-word (second a b) (omega (arith, second-eq a b h.0 h.1.0)) in
    let third_word = char_at-word (third b c) (omega (arith, third-eq b c h.1.0 h.1.1.0)) in
    let fourth_word = char_at-word (fourth c) (omega (arith, fourth-eq c h.1.1.0)) in
    (first_word, (second_word, (third_word, (fourth_word, base64_encode-IsWord rest h.1.1.1))))

pub length-base64_encode :
    (bytes : List ℕ) → length (base64_encode bytes) ≡ (length bytes + 2) / 3 * 4
unfolding base64_encode
length-base64_encode [] = refl
length-base64_encode (a ∷ []) = refl
length-base64_encode (a ∷ b ∷ []) = refl
length-base64_encode (a ∷ b ∷ c ∷ rest) = omega (arith, length-base64_encode rest)
