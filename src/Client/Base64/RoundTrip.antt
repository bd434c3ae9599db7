-- ===== src/Client/Base64/RoundTrip.antt =====
-- Decoding what was encoded.
use dog_server.Base.{
  ℕ, ◌+◌, ◌*◌, ◌/◌, ◌%◌, ◌<◌, ◌≡◌, refl, Bool, true, false, not, ◌&&◌, bit_and, bit_or, List, [],
  ◌∷◌, ◌==◌, table, table_entry, IsBytes, arith,
}
use dog_server.Client.Base64.{
  pad, char_at, first, second_part, second, third_part, third, fourth, base64_encode, index_of,
  byte1, byte2, byte3, base64_decode, search_char,
}

-- A character is found at its place, and is not the padding.
abbrev char_check : ℕ → Bool
char_check k = index_of (char_at k) == k && not (char_at k == pad)

char_table : table char_check 64 ≡ true
unfolding table index_of char_at search_char
char_table = refl

char_lem : (k : ℕ) → k < 64 → (index_of (char_at k) ≡ k) × ((char_at k == pad) ≡ false)
char_lem k h = ground (arith, table_entry char_check 64 k h char_table)

-- The indices, as arithmetic.
abbrev byte_check : ℕ → Bool
byte_check a =
    first a == a / 4
    && second_part a == a % 4 * 16
    && third_part a == a % 16 * 4
    && fourth a == a % 64
    && bit_and (a / 16) 0x0F == a / 16
    && bit_and (a / 64) 0x03 == a / 64

byte_table : table byte_check 256 ≡ true
unfolding table first second_part third_part fourth
byte_table = refl

-- The two halves of a byte or index, joined.
abbrev joins : ℕ → ℕ → ℕ → Bool
joins width x y = bit_or (x * width) y == x * width + y

join16 : table (λ x. table (joins 16 x) 16) 16 ≡ true
unfolding table
join16 = refl

join4 : table (λ x. table (joins 4 x) 4) 64 ≡ true
unfolding table
join4 = refl

join64 : table (λ x. table (joins 64 x) 64) 4 ≡ true
unfolding table
join64 = refl

-- The bytes that two indices give, as arithmetic.
abbrev byte_from : ℕ → ℕ → Bool
byte_from s t =
    byte1 s t == s * 4 + t / 16 && byte2 s t == s % 16 * 16 + t / 4 && byte3 s t == s % 4 * 64 + t

from_table : table (λ s. table (byte_from s) 64) 64 ≡ true
unfolding table byte1 byte2 byte3
from_table = refl

from_lem : (s t : ℕ) → s < 64 → t < 64 → byte_from s t ≡ true
from_lem s t hs ht =
    table_entry (byte_from s) 64 t ht (table_entry (λ s. table (byte_from s) 64) 64 s hs from_table)

byte1-eq : (s t : ℕ) → s < 64 → t < 64 → byte1 s t ≡ s * 4 + t / 16
byte1-eq s t hs ht = ground (arith, from_lem s t hs ht)

byte2-eq : (s t : ℕ) → s < 64 → t < 64 → byte2 s t ≡ s % 16 * 16 + t / 4
byte2-eq s t hs ht = ground (arith, from_lem s t hs ht)

byte3-eq : (s t : ℕ) → s < 64 → t < 64 → byte3 s t ≡ s % 4 * 64 + t
byte3-eq s t hs ht = ground (arith, from_lem s t hs ht)

pub first-eq : (a : ℕ) → a < 256 → first a ≡ a / 4
first-eq a h = ground (arith, table_entry byte_check 256 a h byte_table)

pub second_part-eq : (a : ℕ) → a < 256 → second_part a ≡ a % 4 * 16
second_part-eq a h = ground (arith, table_entry byte_check 256 a h byte_table)

pub third_part-eq : (a : ℕ) → a < 256 → third_part a ≡ a % 16 * 4
third_part-eq a h = ground (arith, table_entry byte_check 256 a h byte_table)

pub fourth-eq : (a : ℕ) → a < 256 → fourth a ≡ a % 64
fourth-eq a h = ground (arith, table_entry byte_check 256 a h byte_table)

high4-eq : (a : ℕ) → a < 256 → bit_and (a / 16) 0x0F ≡ a / 16
high4-eq a h = ground (arith, table_entry byte_check 256 a h byte_table)

high2-eq : (a : ℕ) → a < 256 → bit_and (a / 64) 0x03 ≡ a / 64
high2-eq a h = ground (arith, table_entry byte_check 256 a h byte_table)

joined16 : (x y : ℕ) → x < 16 → y < 16 → bit_or (x * 16) y ≡ x * 16 + y
joined16 x y hx hy = ground (
  arith,
  table_entry (joins 16 x) 16 y hy (table_entry (λ x. table (joins 16 x) 16) 16 x hx join16),
)

joined4 : (x y : ℕ) → x < 64 → y < 4 → bit_or (x * 4) y ≡ x * 4 + y
joined4 x y hx hy =
    ground
      (arith, table_entry (joins 4 x) 4 y hy (table_entry (λ x. table (joins 4 x) 4) 64 x hx join4))

pub second-eq : (a b : ℕ) → a < 256 → b < 256 → second a b ≡ a % 4 * 16 + b / 16
unfolding second
second-eq a b ha hb =
    rw (second_part-eq a ha, high4-eq b hb) (joined16 (a % 4) (b / 16) (omega arith) (omega arith))

pub third-eq : (b c : ℕ) → b < 256 → c < 256 → third b c ≡ b % 16 * 4 + c / 64
unfolding third
third-eq b c hb hc =
    rw (third_part-eq b hb, high2-eq c hc) (joined4 (b % 16) (c / 64) (omega arith) (omega arith))

-- What decoding makes of the three parts of a group.
group1 : (a t : ℕ) → a < 256 → t < 64 → t / 16 ≡ a % 4 → byte1 (first a) t ≡ a
group1 a t h ht e =
    let f = first-eq a h in omega (arith, f, byte1-eq (first a) t (omega (arith, f)) ht)

group2 : (a b u : ℕ) → a < 256 → b < 256 → u < 64 → u / 4 ≡ b % 16 → byte2 (second a b) u ≡ b
group2 a b u ha hb hu e =
    let f = second-eq a b ha hb in omega (arith, f, byte2-eq (second a b) u (omega (arith, f)) hu)

group3 : (b c : ℕ) → b < 256 → c < 256 → byte3 (third b c) (fourth c) ≡ c
group3 b c hb hc =
    let f = third-eq b c hb hc in
    let g = fourth-eq c hc in
    omega (arith, f, g, byte3-eq (third b c) (fourth c) (omega (arith, f)) (omega (arith, g)))

-- Decoding what was encoded gives back the bytes, for every list of bytes.
pub base64_decode-base64_encode : (xs : List ℕ) → IsBytes xs → base64_decode (base64_encode xs) ≡ xs
unfolding base64_decode base64_encode
base64_decode-base64_encode [] h = refl
base64_decode-base64_encode (a ∷ []) h =
    let s1 = first-eq a h.0 in
    let s2 = second_part-eq a h.0 in
    let c1 = char_lem (first a) (omega (arith, s1)) in
    let c2 = char_lem (second_part a) (omega (arith, s2)) in
    rw (c1.0, c2.0, group1 a (second_part a) h.0 (omega (arith, s2)) (omega (arith, s2))) refl
base64_decode-base64_encode (a ∷ b ∷ []) h =
    let s1 = first-eq a h.0 in
    let s2 = second-eq a b h.0 h.1.0 in
    let s3 = third_part-eq b h.1.0 in
    let c1 = char_lem (first a) (omega (arith, s1)) in
    let c2 = char_lem (second a b) (omega (arith, s2, h.1.0)) in
    let c3 = char_lem (third_part b) (omega (arith, s3)) in
    rw
      (
        c1.0,
        c2.0,
        c3.0,
        c3.1,
        group1 a (second a b) h.0 (omega (arith, s2, h.1.0)) (omega (arith, s2, h.1.0)),
        group2 a b (third_part b) h.0 h.1.0 (omega (arith, s3)) (omega (arith, s3)),
      )
      refl
base64_decode-base64_encode (a ∷ b ∷ c ∷ rest) h =
    let s1 = first-eq a h.0 in
    let s2 = second-eq a b h.0 h.1.0 in
    let s3 = third-eq b c h.1.0 h.1.1.0 in
    let s4 = fourth-eq c h.1.1.0 in
    let c1 = char_lem (first a) (omega (arith, s1)) in
    let c2 = char_lem (second a b) (omega (arith, s2, h.1.0)) in
    let c3 = char_lem (third b c) (omega (arith, s3, h.1.1.0)) in
    let c4 = char_lem (fourth c) (omega (arith, s4)) in
    rw
      (
        c1.0,
        c2.0,
        c3.0,
        c3.1,
        c4.0,
        c4.1,
        group1 a (second a b) h.0 (omega (arith, s2, h.1.0)) (omega (arith, s2, h.1.0)),
        group2 a b (third b c) h.0 h.1.0 (omega (arith, s3, h.1.1.0)) (omega (arith, s3, h.1.1.0)),
        group3 b c h.1.0 h.1.1.0,
        base64_decode-base64_encode rest h.1.1.1,
      )
      refl
