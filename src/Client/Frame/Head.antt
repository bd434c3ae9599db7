-- ===== src/Client/Frame/Head.antt =====
-- The heads of the client's frames: what webSocket_enPackage writes, webSocket_dePackage reads.
use dog_server.Base.{
  ℕ, suc, ◌+◌, ◌%◌, ◌/◌, ◌^◌, ◌⊎◌, inl, inr, Option-cases, ◌<◌, ◌≤◌, ◌≡◌, ◌≢◌, refl, bit_or,
  bit_and, Bool, true, false, ◌&&◌, none, some, List, [], ◌∷◌, ◌++◌, ltb, ◌==◌, if◌then◌else◌,
  length, get_or, table, table_entry, arith,
}
use dog_server.Client.Frame.{
  DataType, wdt_mindata, first_byte, length_bytes, frame_type, frame_length,
}

-- The byte that package[1] holds before the length is written into it.
abbrev pub mask_flag : Bool → ℕ
mask_flag m = if m then 0x80 else 0

abbrev flag_check : ℕ → Bool
flag_check x =
    (bit_or 0x80 x == 128 + x)
    && (bit_or 0 x == x)
    && (bit_and (128 + x) 0x80 == 0x80)
    && (bit_and x 0x80 == 0)

flag_table : table flag_check 128 ≡ true
unfolding table
flag_table = refl

pub or_flag : (m : Bool) (x : ℕ) → x < 128 → bit_or (mask_flag m) x ≡ mask_flag m + x
or_flag true x h = ground (arith, table_entry flag_check 128 x h flag_table)
or_flag false x h = ground (arith, table_entry flag_check 128 x h flag_table)

pub flag_of : (m : Bool) (x : ℕ) → x < 128 → (bit_and (mask_flag m + x) 0x80 == 0x80) ≡ m
flag_of true x h = ground (arith, table_entry flag_check 128 x h flag_table)
flag_of false x h = ground (arith, table_entry flag_check 128 x h flag_table)

-- The size of a head, without its mask.
abbrev pub head_size : ℕ → ℕ
head_size n = if ltb n 126 then 2 else if ltb n 65536 then 4 else 10

length_bytes-ne-none :
    (m : Bool) (n max : ℕ) → n + 1 < 2 ^ 32 → n + 14 ≤ max → length_bytes n max (mask_flag m) ≢ none
unfolding length_bytes
length_bytes-ne-none m n max h room = ground arith

-- With the room it asks for, the length is written in one, three or nine bytes.
pub length_bytes-some :
    (m : Bool) (n max : ℕ)
    → n + 1 < 2 ^ 32
    → n + 14 ≤ max
    → (lb : List ℕ) × (length_bytes n max (mask_flag m) ≡ some lb)
length_bytes-some m n max h room = elim (Option-cases (length_bytes n max (mask_flag m))) [
  | inl e ↦ absurd (length_bytes-ne-none m n max h room e)
  | inr found ↦ found
]

pub frame_length-length_bytes :
    (m : Bool) (n max first : ℕ) (lb tail : List ℕ)
    → n + 1 < 2 ^ 32
    → length_bytes n max (mask_flag m) ≡ some lb
    → (frame_length (first ∷ (lb ++ tail)) ≡ some (n, head_size n))
      × ((bit_and (get_or (first ∷ (lb ++ tail)) 1 0) 0x80 == 0x80) ≡ m)
      × (suc (length lb) ≡ head_size n)
unfolding length_bytes frame_length
frame_length-length_bytes m n max first lb tail h e = ground (
  arith,
  or_flag m (n % 128),
  or_flag m 0x7E,
  or_flag m 0x7F,
  flag_of m (n % 128),
  flag_of m 0x7E,
  flag_of m 0x7F,
)

pub frame_type-first_byte :
    (type : DataType) (first : ℕ) → first_byte type ≡ some first → frame_type first ≡ some type
unfolding first_byte frame_type
frame_type-first_byte wdt_mindata first e = ground arith
frame_type-first_byte _ first e = ground arith

-- The three forms of a masked frame's length.
pub length_bytes-masked :
    (n max : ℕ) (lb : List ℕ)
    → n + 1 < 2 ^ 32
    → length_bytes n max 0x80 ≡ some lb
    → ((n < 126) × (lb ≡ (128 + n) ∷ []))
      ⊎ ((126 ≤ n) × (n < 65536) × (lb ≡ 254 ∷ (n / 256) ∷ (n % 256) ∷ []))
      ⊎ ((65536 ≤ n)
          × (lb
              ≡ 255
                ∷ 0
                ∷ 0
                ∷ 0
                ∷ 0
                ∷ (n / 2 ^ 24)
                ∷ (n / 2 ^ 16 % 256)
                ∷ (n / 256 % 256)
                ∷ (n % 256)
                ∷ []))
unfolding length_bytes
length_bytes-masked n max lb h e = ground (arith, or_flag true (n % 128))

pub first_byte-lt : (type : DataType) (b : ℕ) → first_byte type ≡ some b → b < 256
unfolding first_byte
first_byte-lt wdt_mindata b e = ground arith
first_byte-lt _ b e = ground arith
