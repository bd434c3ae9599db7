-- ===== src/Client/Sha1/Standard.antt =====
-- SHA-1 as RFC 3174 states it, apart from the code: the reference for sha1_hash of
-- src/websocket-client.cc.
use dog_server.Base.{
  ℕ, zero, suc, ◌+◌, ◌-◌, ◌*◌, ◌/◌, ◌%◌, ◌^◌, bit_and, bit_or, bit_xor, List, [], ◌∷◌, ◌++◌, ltb,
  if◌then◌else◌, length, get_or, take, drop, replicate,
}
use dog_server.Client.Sha1.{Digest}

-- S^n(X).
abbrev pub circular_shift : ℕ → ℕ → ℕ
circular_shift n x = bit_or (x * 2 ^ n % 2 ^ 32) (x / 2 ^ (32 - n))

-- f(t;B,C,D).
unfoldable pub logical : ℕ → ℕ → ℕ → ℕ → ℕ
logical t b c d =
    if ltb t 20
    then bit_or (bit_and b c) (bit_and ((2 ^ 32 - 1) - b) d)
    else if ltb t 40
    then bit_xor (bit_xor b c) d
    else if ltb t 60
    then bit_or (bit_or (bit_and b c) (bit_and b d)) (bit_and c d)
    else bit_xor (bit_xor b c) d

-- K(t).
unfoldable pub constant : ℕ → ℕ
constant t =
    if ltb t 20
    then 0x5A827999
    else if ltb t 40
    then 0x6ED9EBA1
    else if ltb t 60
    then 0x8F1BBCDC
    else 0xCA62C1D6

-- W(0) to W(15), the first byte of a word being its highest.
unfoldable pub words : List ℕ → List ℕ
words (p ∷ q ∷ r ∷ s ∷ bytes) =
    bit_or (bit_or (bit_or (p * 2 ^ 24) (q * 2 ^ 16)) (r * 2 ^ 8)) s ∷ words bytes
words _ = []

-- W(t) of W(t-3), W(t-8), W(t-14) and W(t-16), where W(0) to W(t-1) are given.
abbrev pub next_word : List ℕ → ℕ
next_word ws =
    let t = length ws in
    circular_shift 1 (
      bit_xor (bit_xor (bit_xor (get_or ws (t - 3) 0) (get_or ws (t - 8) 0)) (get_or ws (t - 14) 0))
        (get_or ws (t - 16) 0))

unfoldable pub extend : ℕ → List ℕ → List ℕ
extend zero ws = ws
extend (suc n) ws = extend n (ws ++ (next_word ws ∷ []))

-- Step (d) for one t, and A to E before the t-th.
abbrev pub one_round : ℕ → ℕ → Digest → Digest
one_round t w x = record {
  a = (circular_shift 5 x.a + logical t x.b x.c x.d + x.e + w + constant t) % 2 ^ 32;
  b = x.a;
  c = circular_shift 30 x.b;
  d = x.c;
  e = x.d;
}

unfoldable pub after_rounds : (ℕ → ℕ) → ℕ → Digest → Digest
after_rounds w zero x = x
after_rounds w (suc t) x = one_round t (w t) (after_rounds w t x)

-- H0 to H4 after one block.
unfoldable pub next_digest : List ℕ → Digest → Digest
next_digest block x =
    let y = after_rounds (λ t. get_or (extend 64 (words block)) t 0) 80 x in
    record {
      a = (x.a + y.a) % 2 ^ 32;
      b = (x.b + y.b) % 2 ^ 32;
      c = (x.c + y.c) % 2 ^ 32;
      d = (x.d + y.d) % 2 ^ 32;
      e = (x.e + y.e) % 2 ^ 32;
    }

abbrev pub first_digest : Digest
first_digest = record {
  a = 0x67452301;
  b = 0xEFCDAB89;
  c = 0x98BADCFE;
  d = 0x10325476;
  e = 0xC3D2E1F0;
}

-- H0 to H4 after the first `n` blocks of a message.
unfoldable pub after_blocks : ℕ → List ℕ → Digest → Digest
after_blocks zero message x = x
after_blocks (suc n) message x = after_blocks n (drop 64 message) (next_digest (take 64 message) x)

-- A number as `k` bytes, the highest first.
unfoldable pub big_endian : ℕ → ℕ → List ℕ
big_endian zero n = []
big_endian (suc k) n = n / 256 ^ k % 256 ∷ big_endian k n

-- The padding behind a message of `n` bytes: a 1 bit, zeros up to 8 bytes before the end of a block,
-- and the number of bits.
abbrev pub padding : ℕ → List ℕ
padding n = 0x80 ∷ (replicate ((119 - n % 64) % 64) 0 ++ big_endian 8 (8 * n))

abbrev pub padded : List ℕ → List ℕ
padded bytes = bytes ++ padding (length bytes)

-- The digest, as words and as bytes.
unfoldable pub standard_digest : List ℕ → Digest
standard_digest bytes = after_blocks (length (padded bytes) / 64) (padded bytes) first_digest

abbrev pub digest_octets : Digest → List ℕ
digest_octets x =
    big_endian 4 x.a
    ++ (big_endian 4 x.b ++ (big_endian 4 x.c ++ (big_endian 4 x.d ++ big_endian 4 x.e)))
