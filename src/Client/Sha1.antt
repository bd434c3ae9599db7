-- ===== src/Client/Sha1.antt =====
-- SHA1Reset, SHA1Input, SHA1PadMessage, SHA1Result and SHA1ProcessMessageBlock of
-- src/websocket-client.cc.
pub mod Standard
pub mod Blocks
pub mod Padding
pub mod Messages
use dog_server.Base.{
  ℕ, zero, suc, ◌+◌, ◌-◌, ◌^◌, bit_and, bit_or, bit_xor, Bool, true, false, ◌||◌, Option, none,
  some, List, [], ◌∷◌, ◌++◌, reverse, ltb, ◌==◌, if◌then◌else◌, ◌<<<◌, ◌>>>◌, low_bits, u32, length,
  get_or, replicate,
}

-- Message_Digest, and A to E.
pub record Digest : Type 0 where
  pub a : ℕ
  pub b : ℕ
  pub c : ℕ
  pub d : ℕ
  pub e : ℕ

-- SHA1CircularShift on a word of 32 bits.
unfoldable pub rotate : ℕ → ℕ → ℕ
rotate bits word = bit_or (u32 (word <<< bits)) (word >>> (32 - bits))

-- ~word.
abbrev pub complement : ℕ → ℕ
complement word = (2 ^ 32 - 1) - word

-- W[0] to W[15], the last of them first.
unfoldable pub first_words : List ℕ → List ℕ → List ℕ
first_words ws (p ∷ q ∷ r ∷ s ∷ bytes) =
    first_words (bit_or (bit_or (bit_or (p <<< 24) (q <<< 16)) (r <<< 8)) s ∷ ws) bytes
first_words ws _ = ws

-- W[16] to W[79].
unfoldable pub more_words : ℕ → List ℕ → List ℕ
more_words zero ws = ws
more_words (suc n) ws = more_words n (
    rotate 1 (
      bit_xor (bit_xor (bit_xor (get_or ws 2 0) (get_or ws 7 0)) (get_or ws 13 0)) (get_or ws 15 0))
    ∷ ws)

-- The function of B, C and D, and K, in round `t`.
unfoldable pub mix : ℕ → ℕ → ℕ → ℕ → ℕ
mix t b c d =
    if ltb t 20
    then bit_or (bit_and b c) (bit_and (complement b) d) + 0x5A827999
    else if ltb t 40
    then bit_xor (bit_xor b c) d + 0x6ED9EBA1
    else if ltb t 60
    then bit_or (bit_or (bit_and b c) (bit_and b d)) (bit_and c d) + 0x8F1BBCDC
    else bit_xor (bit_xor b c) d + 0xCA62C1D6

unfoldable pub rounds : ℕ → List ℕ → Digest → Digest
rounds t [] x = x
rounds t (w ∷ ws) x = rounds (suc t) ws record {
  a = u32 (rotate 5 x.a + mix t x.b x.c x.d + x.e + w);
  b = x.a;
  c = rotate 30 x.b;
  d = x.c;
  e = x.d;
}

-- The digest after the 64 bytes of a block.
unfoldable pub process_message_block : List ℕ → Digest → Digest
process_message_block block x =
    let y = rounds 0 (reverse (more_words 64 (first_words [] block))) x in
    record {
      a = u32 (x.a + y.a);
      b = u32 (x.b + y.b);
      c = u32 (x.c + y.c);
      d = u32 (x.d + y.d);
      e = u32 (x.e + y.e);
    }

-- SHA1Context. `message_block` is the first Message_Block_Index bytes of the block.
pub record Sha1Context : Type 0 where
  pub message_digest : Digest
  pub length_low : ℕ
  pub length_high : ℕ
  pub message_block : List ℕ
  pub computed : Bool
  pub corrupted : Bool

abbrev pub sha1_reset : Sha1Context
sha1_reset = record {
  message_digest = record {
    a = 0x67452301;
    b = 0xEFCDAB89;
    c = 0x98BADCFE;
    d = 0x10325476;
    e = 0xC3D2E1F0;
  };
  length_low = 0;
  length_high = 0;
  message_block = [];
  computed = false;
  corrupted = false;
}

-- SHA1ProcessMessageBlock on a context.
abbrev pub process : Sha1Context → Sha1Context
process x = record x {
  message_digest = process_message_block x.message_block x.message_digest;
  message_block = [];
}

abbrev pub count_bits : Sha1Context → Sha1Context
count_bits x =
    let low = u32 (x.length_low + 8) in
    let high = u32 (x.length_high + 1) in
    if low == 0
    then record x { length_low = low; length_high = high; corrupted = high == 0 }
    else record x { length_low = low }

-- One round of the loop of SHA1Input.
unfoldable pub input_byte : ℕ → Sha1Context → Sha1Context
input_byte byte x =
    let y = count_bits (record x { message_block = x.message_block ++ (byte ∷ []) }) in
    if length y.message_block == 64 then process y else y

unfoldable pub input_loop : List ℕ → Sha1Context → Sha1Context
input_loop [] x = x
input_loop (byte ∷ bytes) x =
    let rest = input_loop bytes (input_byte byte x) in if x.corrupted then x else rest

abbrev pub is_empty : List ℕ → Bool
is_empty [] = true
is_empty (x ∷ xs) = false

unfoldable pub sha1_input : List ℕ → Sha1Context → Sha1Context
sha1_input bytes x =
    if is_empty bytes
    then x
    else if x.computed || x.corrupted
    then record x { corrupted = true }
    else input_loop bytes x

abbrev pub word_bytes : ℕ → List ℕ
word_bytes w =
    low_bits (w >>> 24) 8 ∷ low_bits (w >>> 16) 8 ∷ low_bits (w >>> 8) 8 ∷ low_bits w 8 ∷ []

abbrev pub fill_to : ℕ → List ℕ → List ℕ
fill_to n block = block ++ replicate (n - length block) 0

unfoldable pub pad_message : Sha1Context → Sha1Context
pad_message x =
    let marked = record x { message_block = x.message_block ++ (0x80 ∷ []) } in
    let y =
      if ltb 55 (length x.message_block)
      then process (record marked { message_block = fill_to 64 marked.message_block })
      else marked in
    process (record y {
      message_block =
          fill_to 56 y.message_block ++ (word_bytes y.length_high ++ word_bytes y.length_low);
    })

-- SHA1Result, with `none` for its return value 0.
unfoldable pub sha1_result : Sha1Context → Option Sha1Context
sha1_result x =
    if x.corrupted
    then none
    else if x.computed
    then some x
    else some (record (pad_message x) { computed = true })

abbrev pub digest_of : Option Sha1Context → Option Digest
digest_of none = none
digest_of (some x) = some x.message_digest

-- The digest that sha1_hash prints.
unfoldable pub sha1_hash : List ℕ → Option Digest
sha1_hash bytes = digest_of (sha1_result (sha1_input bytes sha1_reset))
