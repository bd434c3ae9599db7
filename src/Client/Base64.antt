-- ===== src/Client/Base64.antt =====
-- websocket_base64_encode and websocket_base64_decode of src/websocket-client.cc.
pub mod RoundTrip
pub mod Words
pub mod Standard
use dog_server.Base.{
  ℕ, zero, suc, ◌+◌, bit_and, bit_or, List, [], ◌∷◌, ◌==◌, if◌then◌else◌, ◌<<<◌, ◌>>>◌, u8, get_or,
  codes,
}

-- websocket_base64char.
abbrev pub alphabet : List ℕ
alphabet = codes "ABCDEFGHIJKLMNOPQRSTUVWXYZabcdefghijklmnopqrstuvwxyz0123456789+/"

abbrev pub pad : ℕ
pad = 61

unfoldable pub char_at : ℕ → ℕ
char_at k = get_or alphabet k 0

-- The values of `current`, in the order in which the loop stores them.
unfoldable pub first : ℕ → ℕ
first a = bit_and (a >>> 2) 0x3F

unfoldable pub second_part : ℕ → ℕ
second_part a = bit_and (u8 (a <<< 4)) 0x30

unfoldable pub second : ℕ → ℕ → ℕ
second a b = bit_or (second_part a) (bit_and (b >>> 4) 0x0F)

unfoldable pub third_part : ℕ → ℕ
third_part b = bit_and (u8 (b <<< 2)) 0x3C

unfoldable pub third : ℕ → ℕ → ℕ
third b c = bit_or (third_part b) (bit_and (c >>> 6) 0x03)

unfoldable pub fourth : ℕ → ℕ
fourth c = bit_and c 0x3F

-- The text, without the '\0' behind it.
unfoldable pub base64_encode : List ℕ → List ℕ
base64_encode [] = []
base64_encode (a ∷ []) = char_at (first a) ∷ char_at (second_part a) ∷ pad ∷ pad ∷ []
base64_encode (a ∷ b ∷ []) =
    char_at (first a) ∷ char_at (second a b) ∷ char_at (third_part b) ∷ pad ∷ []
base64_encode (a ∷ b ∷ c ∷ rest) =
    char_at (first a)
    ∷ char_at (second a b)
    ∷ char_at (third b c)
    ∷ char_at (fourth c)
    ∷ base64_encode rest

-- The loop over `k`, which keeps the last match; 0xFF where there is none.
unfoldable pub search_char : ℕ → List ℕ → ℕ → ℕ → ℕ
search_char k [] temp c = temp
search_char k (x ∷ xs) temp c = search_char (suc k) xs (if x == c then k else temp) c

unfoldable pub index_of : ℕ → ℕ
unfolding search_char
index_of c = search_char 0 alphabet 0xFF c

unfoldable pub byte1 : ℕ → ℕ → ℕ
byte1 s t = bit_or (bit_and (u8 (s <<< 2)) 0xFC) (bit_and (t >>> 4) 0x03)

unfoldable pub byte2 : ℕ → ℕ → ℕ
byte2 t u = bit_or (bit_and (u8 (t <<< 4)) 0xF0) (bit_and (u >>> 2) 0x0F)

unfoldable pub byte3 : ℕ → ℕ → ℕ
byte3 u v = bit_or (bit_and (u8 (u <<< 6)) 0xF0) (bit_and v 0x3F)

-- The text is read four characters at a time; one whose length is no multiple of four is read past
-- its end, where this stops.
unfoldable pub base64_decode : List ℕ → List ℕ
base64_decode (p ∷ q ∷ r ∷ s ∷ rest) =
    let a = byte1 (index_of p) (index_of q) in
    let b = byte2 (index_of q) (index_of r) in
    let c = byte3 (index_of r) (index_of s) in
    let more = base64_decode rest in
    if r == pad then a ∷ [] else if s == pad then a ∷ b ∷ [] else a ∷ b ∷ c ∷ more
base64_decode _ = []
