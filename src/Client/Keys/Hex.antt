-- ===== src/Client/Keys/Hex.antt =====
-- The hexadecimal text of a digest is read back byte by byte.
use dog_server.Base.{
  ℕ, ◌+◌, ◌*◌, ◌/◌, ◌%◌, ◌<◌, ◌≡◌, refl, sym, ap, ap₂, ◌∙◌, Bool, true, false, not, ◌&&◌, List, [],
  ◌∷◌, ◌==◌, length, drop, drop-drop, table, table_entry, IsBytes, u8, arith,
}
use dog_server.Client.Keys.{
  is_hex, digit_value, htoi_loop, hex_start, htoi, hex_digit, hex_text, bytes_of_text,
}

abbrev digit_check : ℕ → Bool
digit_check x =
    let c = hex_digit x in is_hex c && digit_value c == x && not (c == b'x') && not (c == b'X')

digit_table : table digit_check 16 ≡ true
unfolding table hex_digit digit_value
digit_table = refl

digit_lem :
    (x : ℕ)
    → x < 16
    → (is_hex (hex_digit x) ≡ true)
      × (digit_value (hex_digit x) ≡ x)
      × ((hex_digit x == b'x') ≡ false)
      × ((hex_digit x == b'X') ≡ false)
digit_lem x h = ground (arith, table_entry digit_check 16 x h digit_table)

hex_start-hex_text : (bs : List ℕ) → IsBytes bs → hex_start (hex_text bs) ≡ 0
unfolding hex_start hex_text
hex_start-hex_text [] h = refl
hex_start-hex_text (b ∷ bs) h = ground (arith, digit_lem (b % 16) (omega arith))

htoi_loop-pair :
    (b : ℕ) (s : List ℕ) → b < 256 → htoi_loop 2 (hex_digit (b / 16) ∷ hex_digit (b % 16) ∷ s) 0 ≡ b
unfolding htoi_loop
htoi_loop-pair b s h =
    ground (arith, digit_lem (b / 16) (omega arith), digit_lem (b % 16) (omega arith))

bytes_of_text-from :
    (text : List ℕ) (i : ℕ) (bs : List ℕ)
    → hex_start text ≡ 0
    → IsBytes bs
    → drop i text ≡ hex_text bs
    → bytes_of_text text i (length bs) ≡ bs
unfolding bytes_of_text htoi hex_text
bytes_of_text-from text i [] e h d = refl
bytes_of_text-from text i (b ∷ bs) e h d =
    let here : drop (i + hex_start text) text ≡ hex_text (b ∷ bs) =
      let same : i + hex_start text ≡ i = omega (arith, e) in
      ap (λ (k : ℕ). drop k text) same ∙ d in
    let byte : u8 (htoi_loop 2 (drop (i + hex_start text) text) 0) ≡ b =
      ap (λ (t : List ℕ). u8 (htoi_loop 2 t 0)) here
      ∙ ap u8 (htoi_loop-pair b (hex_text bs) h.0)
      ∙ omega (arith, h.0) in
    ap₂ ◌∷◌ byte
      (bytes_of_text-from text (i + 2) bs e h.1 (sym (drop-drop i 2 text) ∙ ap (drop 2) d))

pub length-hex_text : (bs : List ℕ) → length (hex_text bs) ≡ length bs * 2
unfolding hex_text
length-hex_text [] = refl
length-hex_text (b ∷ bs) = omega (arith, length-hex_text bs)

-- htoi on every two digits gives back the bytes that were printed.
pub bytes_of_text-hex_text :
    (bs : List ℕ) → IsBytes bs → bytes_of_text (hex_text bs) 0 (length (hex_text bs) / 2) ≡ bs
bytes_of_text-hex_text bs h =
    let half : length (hex_text bs) / 2 ≡ length bs = omega (arith, length-hex_text bs) in
    ap (bytes_of_text (hex_text bs) 0) half
    ∙ bytes_of_text-from (hex_text bs) 0 bs (hex_start-hex_text bs h) h refl
