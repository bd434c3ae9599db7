-- ===== src/Client/Frame.antt =====
-- The frames of src/websocket-client.cc: webSocket_getRandomString, webSocket_enPackage and
-- webSocket_dePackage. A buffer is the list of the bytes that are stored into it from its start.
-- The numbers that `rand()` returns after `srand` are the argument `rand`.
pub mod Mask
pub mod Head
pub mod RoundTrip
use dog_server.Base.{
  ℕ, zero, suc, ◌+◌, ◌-◌, ◌*◌, ◌%◌, ◌^◌, bit_and, bit_or, Bool, true, false, ◌||◌, not, Option,
  none, some, List, [], ◌∷◌, ◌++◌, u8, u32, ◌<<<◌, ◌>>>◌, low_bits, ltb, leb, ◌==◌, if◌then◌else◌,
  length, get_or, take, drop,
}

-- WebsocketData_Type.
pub data DataType : Type 0 where
  wdt_mindata wdt_txtdata wdt_bindata wdt_disconn wdt_ping wdt_pong wdt_err wdt_null : DataType

-- One byte of webSocket_getRandomString: no byte is 0.
unfoldable pub random_byte : ℕ → ℕ
random_byte r = if r % 256 == 0 then 128 else r % 256

unfoldable pub get_random_string : (ℕ → ℕ) → ℕ → ℕ → List ℕ
get_random_string rand i zero = []
get_random_string rand i (suc left) = random_byte (rand i) ∷ get_random_string rand (i + 1) left

-- ((~temp1) & temp2) | (temp1 & (~temp2)) on ints, cast to a char.
unfoldable pub exclusive_or : ℕ → ℕ → ℕ
exclusive_or temp1 temp2 =
    u8 (bit_or (bit_and (2 ^ 32 - 1 - temp1) temp2) (bit_and temp1 (2 ^ 32 - 1 - temp2)))

abbrev pub next_count : ℕ → ℕ
next_count count = if leb 4 (count + 1) then 0 else count + 1

-- The loop over the payload; `count` walks round the four bytes of the key.
unfoldable pub mask_loop : List ℕ → ℕ → List ℕ → List ℕ
mask_loop mask_key count [] = []
mask_loop mask_key count (temp2 ∷ rest) =
    exclusive_or (get_or mask_key count 0) temp2 ∷ mask_loop mask_key (next_count count) rest

-- `failed` is the return value -1; `packed` holds every byte stored into `package`, the closing
-- '\0' included, and the return value.
pub data Packed : Type 0 where
  failed : Packed
  packed : List ℕ → ℕ → Packed

infixl 5 ◌>>=◌
abbrev pub ◌>>=◌ {ℓ} : {A : Type ℓ} → Option A → (A → Packed) → Packed
none >>= k = failed
some a >>= k = k a

unfoldable pub first_byte : DataType → Option ℕ
first_byte wdt_mindata = some 0x00
first_byte wdt_txtdata = some 0x81
first_byte wdt_bindata = some 0x82
first_byte wdt_disconn = some 0x88
first_byte wdt_ping = some 0x89
first_byte wdt_pong = some 0x8A
first_byte wdt_err = none
first_byte wdt_null = none

-- The bytes from package[1] to the end of the length, over the byte that package[1] held.
unfoldable pub length_bytes : ℕ → ℕ → ℕ → Option (List ℕ)
length_bytes data_len package_max_len held =
    if ltb data_len 126
    then some (bit_or held (low_bits data_len 7) ∷ [])
    else if ltb data_len 65536
    then (if ltb package_max_len 4
        then none
        else some (bit_or held 0x7E ∷ low_bits (data_len >>> 8) 8 ∷ low_bits data_len 8 ∷ []))
    else if ltb data_len 0xFFFF_FFFF
    then (if ltb package_max_len 10
        then none
        else some (
            bit_or held 0x7F
            ∷ 0
            ∷ 0
            ∷ 0
            ∷ 0
            ∷ low_bits (data_len >>> 24) 8
            ∷ low_bits (data_len >>> 16) 8
            ∷ low_bits (data_len >>> 8) 8
            ∷ low_bits data_len 8
            ∷ []))
    else some []

-- The payload behind a head of `len` bytes, and the return value.
unfoldable pub seal : List ℕ → List ℕ → ℕ → Bool → (ℕ → ℕ) → Packed
seal data_ head package_max_len true rand =
    let len = length head in
    let mask_key = get_random_string rand 0 4 in
    if ltb package_max_len (u32 (len + length data_ + 4))
    then failed
    else packed (head ++ (mask_key ++ (mask_loop mask_key 0 data_ ++ (0 ∷ []))))
        (u32 (len + 4 + length data_))
seal data_ head package_max_len false rand =
    let len = length head in
    if ltb package_max_len (u32 (len + length data_))
    then failed
    else packed (head ++ (data_ ++ (0 ∷ []))) (u32 (len + length data_))

-- webSocket_enPackage; `held` is what the caller's buffer holds at package[1], which the code
-- sets only for a masked frame.
unfoldable pub en_package : List ℕ → ℕ → ℕ → Bool → DataType → (ℕ → ℕ) → Packed
unfolding first_byte length_bytes seal
en_package data_ held package_max_len is_mask type rand =
    if ltb package_max_len 2 then failed else do
      first ← first_byte type
      rest ← length_bytes (length data_) package_max_len (if is_mask then 0x80 else held)
      seal data_ (first ∷ rest) package_max_len is_mask rand

-- `fault` is a read behind the end of the data, which C++ leaves undefined. `unpacked` holds the
-- return value, what was stored through `packageLen` and `packageHeadLen` (`none` where nothing
-- was) and the bytes stored into `package`, the closing '\0' included.
pub data Unpacked : Type 0 where
  fault : Unpacked
  unpacked : DataType → Option ℕ → Option ℕ → List ℕ → Unpacked

-- The `n` bytes from `start`, where the data holds them.
unfoldable pub read_range : List ℕ → ℕ → ℕ → Option (List ℕ)
read_range data_ start n =
    if leb (start + n) (length data_) then some (take n (drop start data_)) else none

-- The type by the first byte.
unfoldable pub frame_type : ℕ → Option DataType
frame_type first =
    let type = low_bits first 4 in
    if bit_and first 0x80 == 0x80
    then (if type == 1
        then some wdt_txtdata
        else if type == 2
        then some wdt_bindata
        else if type == 8
        then some wdt_disconn
        else if type == 9
        then some wdt_ping
        else if type == 10
        then some wdt_pong
        else none)
    else if type == 0
    then some wdt_mindata
    else none

-- The length of the payload, and the size of the head before the mask.
unfoldable pub frame_length : List ℕ → Option (ℕ × ℕ)
frame_length data_ =
    let len = low_bits (get_or data_ 1 0) 7 in
    let byte = get_or data_ in
    if len == 126
    then (if ltb (length data_) 4 then none else some (byte 2 0 * 256 + byte 3 0, 4))
    else if len == 127
    then (if ltb (length data_) 10
        then none
        else if not (byte 2 0 == 0)
            || not (byte 3 0 == 0)
            || not (byte 4 0 == 0)
            || not (byte 5 0 == 0)
        then none
        else some (u32 (((byte 6 0 * 256 + byte 7 0) * 256 + byte 8 0) * 256 + byte 9 0), 10))
    else some (len, 2)

-- The checks of the sizes, and the copy of the payload; `count` is 4 for a masked frame.
unfoldable pub open_body : DataType → List ℕ → ℕ → ℕ → ℕ → Bool → Unpacked
open_body ret data_ package_max_len len size mask =
    let count : ℕ = if mask then 4 else 0 in
    let refused = unpacked wdt_err (some len) (some (size + count)) [] in
    if ltb (length data_) (u32 (len + size + count))
    then refused
    else elim (read_range data_ size count) [
      | none ↦ fault
      | some mask_key ↦
          if ltb (length data_) (u32 (len + (size + count)))
          then refused
          else if ltb package_max_len (u32 (len + 1))
          then refused
          else elim (read_range data_ (size + count) len) [
            | none ↦ fault
            | some body ↦
                unpacked ret (some len) (some (size + count))
                  ((if mask then mask_loop mask_key 0 body else body) ++ (0 ∷ []))
          ]
    ]

-- webSocket_dePackage.
unfoldable pub de_package : List ℕ → ℕ → Unpacked
de_package data_ package_max_len =
    if ltb (length data_) 2
    then unpacked wdt_err none none []
    else elim (frame_type (get_or data_ 0 0)) [
      | none ↦ unpacked wdt_err none none []
      | some ret ↦ elim (frame_length data_) [
        | none ↦ unpacked wdt_err none none []
        | some (len, size) ↦
            open_body ret data_ package_max_len len size (bit_and (get_or data_ 1 0) 0x80 == 0x80)
      ]
    ]
