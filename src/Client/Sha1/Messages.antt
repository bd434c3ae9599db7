-- ===== src/Client/Sha1/Messages.antt =====
-- sha1_hash gives the digest of the standard.
use dog_server.Base.{
  ℕ, zero, suc, ◌+◌, ◌-◌, ◌*◌, ◌/◌, ◌%◌, ◌^◌, ◌<◌, ◌≡◌, refl, sym, ap, ◌∙◌, some, List, [], ◌∷◌,
  ◌++◌, length, length-append, replicate, length-replicate, take, drop, length-take, length-drop,
  take-append-drop, arith,
}
use dog_server.Client.Sha1.{Digest, word_bytes, sha1_hash}
use dog_server.Client.Sha1.Standard.{
  next_digest, first_digest, after_blocks, big_endian, padding, padded, standard_digest,
}
use dog_server.Client.Sha1.Blocks.{process_message_block-next_digest}
use dog_server.Client.Sha1.Padding.{absorb, absorb-fill, stored_padding, sha1_hash-absorb}

pub big_endian-word : (w : ℕ) → big_endian 4 w ≡ word_bytes w
unfolding big_endian
big_endian-word w = ground arith

big_endian-words : (m : ℕ) → m < 2 ^ 29 → word_bytes 0 ++ word_bytes (m * 8) ≡ big_endian 8 (8 * m)
unfolding big_endian
big_endian-words m h = ground arith

stored_padding-padding : (m : ℕ) → m < 2 ^ 29 → stored_padding m ≡ padding m
stored_padding-padding m h =
    ap (λ (t : List ℕ). 0x80 ∷ (replicate ((119 - m % 64) % 64) 0 ++ t)) (big_endian-words m h)

length-padding : (m : ℕ) → length (padding m) ≡ 9 + (119 - m % 64) % 64
unfolding big_endian
length-padding m = omega (
  arith,
  length-append (replicate {A = ℕ} ((119 - m % 64) % 64) 0) (big_endian 8 (8 * m)),
  length-replicate {A = ℕ} ((119 - m % 64) % 64) 0,
)

absorb-after_blocks :
    (n : ℕ) (message : List ℕ) (x : Digest)
    → length message ≡ n * 64
    → absorb [] message x ≡ after_blocks n message x
unfolding after_blocks absorb
absorb-after_blocks zero [] x e = refl
absorb-after_blocks zero (b ∷ message) x e = absurd (omega arith)
absorb-after_blocks (suc n) message x e =
    let block = take 64 message in
    let size : length block ≡ 64 = omega (arith, length-take 64 message, e) in
    ap (λ (t : List ℕ). absorb [] t x) (sym (take-append-drop 64 message))
    ∙ absorb-fill [] block (drop 64 message) x (omega (arith, size)) (omega (arith, size))
    ∙ ap (absorb [] (drop 64 message)) (process_message_block-next_digest block x size)
    ∙ absorb-after_blocks n (drop 64 message) (next_digest block x)
        (omega (arith, length-drop 64 message, e))

-- For every message shorter than 2 ^ 29 bytes, the digest is the one that RFC 3174 states, with its
-- padding, words, rounds, constants and start values.
pub sha1_hash-standard_digest :
    (bytes : List ℕ) → length bytes < 2 ^ 29 → sha1_hash bytes ≡ some (standard_digest bytes)
unfolding standard_digest
sha1_hash-standard_digest bytes small =
    let n : ℕ = length (padded bytes) / 64 in
    let even : length (padded bytes) ≡ n * 64 =
      omega (arith, length-append bytes (padding (length bytes)), length-padding (length bytes)) in
    sha1_hash-absorb bytes small
    ∙ ap (λ (t : List ℕ). some (absorb [] (bytes ++ t) first_digest))
        (stored_padding-padding (length bytes) small)
    ∙ ap some (absorb-after_blocks n (padded bytes) first_digest even)
