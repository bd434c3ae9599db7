-- ===== src/Tests/Frames.antt =====
-- The client's frames: webSocket_enPackage and webSocket_dePackage.
use dog_server.Base.{ℕ, ◌≡◌, refl, true, some, List, [], ◌∷◌, codes, arith}
use dog_server.Client.Base64.{
  base64_encode, base64_decode, char_at, first, second_part, second, third_part, third, fourth,
}
use dog_server.Client.Base64.RoundTrip.{base64_decode-base64_encode}
use dog_server.Client.Frame.{
  wdt_txtdata, wdt_err, packed, unpacked, fault, get_random_string, random_byte, exclusive_or,
  mask_loop, en_package, read_range, frame_type, frame_length, open_body, de_package,
}

-- A generator that gives 0, 1, 2, 3.
abbrev pub counting : ℕ → ℕ
counting i = i

abbrev pub greeting : List ℕ
greeting = 72 ∷ 105 ∷ []

pack_masked :
    en_package greeting 0 100 true wdt_txtdata counting
    ≡ packed (0x81 ∷ 0x82 ∷ 128 ∷ 1 ∷ 2 ∷ 3 ∷ 200 ∷ 104 ∷ 0 ∷ []) 8
unfolding en_package get_random_string random_byte mask_loop exclusive_or
pack_masked = refl

unpack_masked :
    de_package (0x81 ∷ 0x82 ∷ 128 ∷ 1 ∷ 2 ∷ 3 ∷ 200 ∷ 104 ∷ []) 3
    ≡ unpacked wdt_txtdata (some 2) (some 6) (72 ∷ 105 ∷ 0 ∷ [])
unfolding de_package frame_type frame_length open_body read_range mask_loop exclusive_or
unpack_masked = refl

unpack_short : de_package (0x81 ∷ 0x82 ∷ 128 ∷ 1 ∷ 2 ∷ []) 3 ≡ unpacked wdt_err (some 2) (some 6) []
unfolding de_package frame_type frame_length open_body
unpack_short = refl

-- The length 2 ^ 32 - 1 passes each check, since they wrap.
unpack_wrapped :
    de_package (0x82 ∷ 0x7F ∷ 0 ∷ 0 ∷ 0 ∷ 0 ∷ 255 ∷ 255 ∷ 255 ∷ 255 ∷ 1 ∷ []) 100 ≡ fault
unfolding de_package frame_type frame_length open_body read_range
unpack_wrapped = refl

abbrev four_bytes : List ℕ
four_bytes = 0 ∷ 255 ∷ 128 ∷ 7 ∷ []

base64_decode-base64_encode_example : base64_decode (base64_encode four_bytes) ≡ four_bytes
base64_decode-base64_encode_example = base64_decode-base64_encode four_bytes (omega arith)

hello-base64 : base64_encode (codes "hello") ≡ codes "aGVsbG8="
unfolding base64_encode char_at first second second_part third third_part fourth
hello-base64 = refl
