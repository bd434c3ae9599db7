-- ===== src/Client/Sha1/Padding.antt =====
-- The digest is that of the padded message, block by block.
use dog_server.Base.{
  ℕ, zero, suc, ◌+◌, ◌-◌, ◌*◌, ◌%◌, ◌^◌, ◌≤◌, ◌<◌, ◌≡◌, refl, sym, ap, ap₂, ◌∙◌, subst, inl, inr,
  Bool, Bool-cases, true, false, none, some, List, [], ◌∷◌, ◌++◌, append_assoc, append-nil, ltb,
  le→not_ltb, lt→ltb, ◌==◌, if◌then◌else◌, length, length-append, replicate, length-replicate,
  arith,
}
use dog_server.Client.Sha1.{
  Digest, process_message_block, Sha1Context, sha1_reset, input_byte, input_loop, sha1_input,
  word_bytes, fill_to, pad_message, sha1_result, digest_of, sha1_hash,
}

-- The blocks of 64 bytes, each taken into the digest; `block` is the part of one that stands before.
unfoldable pub absorb : List ℕ → List ℕ → Digest → Digest
absorb block [] x = x
absorb block (byte ∷ bytes) x =
    let longer = block ++ (byte ∷ []) in
    let full = absorb [] bytes (process_message_block longer x) in
    let part = absorb longer bytes x in if length longer == 64 then full else part

-- The padding behind a message of `n` bytes: 0x80, zeros up to 8 bytes before the end of a block,
-- and the number of bits.
abbrev pub stored_padding : ℕ → List ℕ
stored_padding n =
    0x80 ∷ (replicate ((119 - n % 64) % 64) 0 ++ (word_bytes 0 ++ word_bytes (n * 8)))

pub absorb-fill :
    (block xs rest : List ℕ) (x : Digest)
    → length block + length xs ≡ 64
    → 0 < length xs
    → absorb block (xs ++ rest) x ≡ absorb [] rest (process_message_block (block ++ xs) x)
unfolding absorb
absorb-fill block [] rest x e h = absurd (omega arith)
absorb-fill block (b ∷ []) rest x e h =
    let full : (length (block ++ (b ∷ [])) == 64) ≡ true =
      ground (arith, length-append block (b ∷ [])) in
    rw full refl
absorb-fill block (b ∷ c ∷ xs) rest x e h =
    let part : (length (block ++ (b ∷ [])) == 64) ≡ false =
      ground (arith, length-append block (b ∷ [])) in
    rw part (
      absorb-fill (block ++ (b ∷ [])) (c ∷ xs) rest x (omega (arith, length-append block (b ∷ [])))
        (omega arith)
      ∙ ap (λ t. absorb [] rest (process_message_block t x)) (append_assoc block (b ∷ []) (c ∷ xs)))

-- A context that has taken `m` bytes.
record Holds (x : Sha1Context) (m : ℕ) : Type 0 where
  sound : x.corrupted ≡ false
  open_still : x.computed ≡ false
  low : x.length_low ≡ m * 8
  high : x.length_high ≡ 0
  block_length : length x.message_block ≡ m % 64

input_byte-Holds :
    (byte m : ℕ) (x : Sha1Context) → Holds x m → m + 1 < 2 ^ 29 → Holds (input_byte byte x) (m + 1)
unfolding input_byte
input_byte-Holds byte m x h lt =
    let more : ((x.length_low + 8) % 2 ^ 32 == 0) ≡ false = ground (arith, h.low) in
    let size = length-append x.message_block (byte ∷ []) in
    elim (Bool-cases (length (x.message_block ++ (byte ∷ [])) == 64)) [
      | inl full ↦
          rw (more, full)
            record {
              sound = h.sound;
              open_still = h.open_still;
              low = omega (arith, h.low);
              high = h.high;
              block_length = ground (arith, h.block_length, size, full);
            }
      | inr part ↦
          rw (more, part)
            record {
              sound = h.sound;
              open_still = h.open_still;
              low = omega (arith, h.low);
              high = h.high;
              block_length = ground (arith, h.block_length, size, part);
            }
    ]

input_byte-absorb :
    (byte m : ℕ) (x : Sha1Context) (rest : List ℕ)
    → Holds x m
    → m + 1 < 2 ^ 29
    → absorb x.message_block (byte ∷ rest) x.message_digest
      ≡ absorb (input_byte byte x).message_block rest (input_byte byte x).message_digest
unfolding input_byte absorb
input_byte-absorb byte m x rest h lt =
    let more : ((x.length_low + 8) % 2 ^ 32 == 0) ≡ false = ground (arith, h.low) in
    elim (Bool-cases (length (x.message_block ++ (byte ∷ [])) == 64)) [
      | inl full ↦ rw (more, full) refl
      | inr part ↦ rw (more, part) refl
    ]

input_loop-next :
    (byte : ℕ) (bytes : List ℕ) (x : Sha1Context)
    → x.corrupted ≡ false
    → input_loop (byte ∷ bytes) x ≡ input_loop bytes (input_byte byte x)
unfolding input_loop
input_loop-next byte bytes x h =
    ap (λ (b : Bool). if b then x else input_loop bytes (input_byte byte x)) h

input_loop-Holds :
    (bytes : List ℕ) (m : ℕ) (x : Sha1Context)
    → Holds x m
    → m + length bytes < 2 ^ 29
    → Holds (input_loop bytes x) (m + length bytes)
      × ((rest : List ℕ)
          → absorb x.message_block (bytes ++ rest) x.message_digest
            ≡ absorb (input_loop bytes x).message_block rest (input_loop bytes x).message_digest)
unfolding input_loop
input_loop-Holds [] m x h lt =
    let same : m ≡ m + length {A = ℕ} [] = omega arith in (subst (Holds x) same h, (λ rest. refl))
input_loop-Holds (byte ∷ bytes) m x h lt =
    let h1 = input_byte-Holds byte m x h (omega arith) in
    let (h2, through) = input_loop-Holds bytes (m + 1) (input_byte byte x) h1 (omega arith) in
    let same : m + 1 + length bytes ≡ m + length (byte ∷ bytes) = omega arith in
    let on = input_loop-next byte bytes x h.sound in
    (
      subst (λ y. Holds y (m + length (byte ∷ bytes))) (sym on)
          (subst (Holds (input_loop bytes (input_byte byte x))) same h2),
      (λ rest.
          input_byte-absorb byte m x (bytes ++ rest) h (omega arith)
          ∙ through rest
          ∙ ap (λ y. absorb y.message_block rest y.message_digest) (sym on)),
    )

replicate-add : (j k : ℕ) → replicate (j + k) 0 ≡ replicate {A = ℕ} j 0 ++ replicate k 0
replicate-add zero k = let e : zero + k ≡ k = omega arith in ap (λ (n : ℕ). replicate {A = ℕ} n 0) e
replicate-add (suc j) k =
    let e : suc j + k ≡ suc (j + k) = omega arith in
    ap (λ (n : ℕ). replicate {A = ℕ} n 0) e ∙ ap (λ (t : List ℕ). 0 ∷ t) (replicate-add j k)

module _ (x : Sha1Context) (m : ℕ) (h : Holds x m) where
  abbrev last_bytes : List ℕ
  last_bytes = word_bytes x.length_high ++ word_bytes x.length_low

  last_bytes_lem : last_bytes ≡ word_bytes 0 ++ word_bytes (m * 8)
  last_bytes_lem = ap₂ (λ (a b : ℕ). word_bytes a ++ word_bytes b) h.high h.low

  pad_message-short :
      length x.message_block ≤ 55
      → (pad_message x).message_digest ≡ absorb x.message_block (stored_padding m) x.message_digest
  unfolding pad_message absorb
  pad_message-short small =
      let test = le→not_ltb 55 (length x.message_block) small in
      let marked = x.message_block ++ (0x80 ∷ []) in
      let size = length-append x.message_block (0x80 ∷ []) in
      let zeros : 56 - length marked ≡ (119 - m % 64) % 64 = omega (arith, size, h.block_length) in
      let whole : fill_to 56 marked ++ last_bytes ≡ x.message_block ++ stored_padding m =
        ap₂ (λ (k : ℕ) (t : List ℕ). (marked ++ replicate k 0) ++ t) zeros last_bytes_lem
        ∙ simp append_assoc in
      let filled =
        absorb-fill x.message_block (stored_padding m) [] x.message_digest
          (omega (
            arith,
            h.block_length,
            length-append (replicate {A = ℕ} ((119 - m % 64) % 64) 0)
                (word_bytes 0 ++ word_bytes (m * 8)),
            length-replicate {A = ℕ} ((119 - m % 64) % 64) 0,
          ))
          (omega arith) in
      rw test
        (ap (λ t. process_message_block t x.message_digest) whole ∙ sym (rw append-nil at filled))

  pad_message-long :
      55 < length x.message_block
      → (pad_message x).message_digest ≡ absorb x.message_block (stored_padding m) x.message_digest
  unfolding pad_message absorb
  pad_message-long large =
      let test = lt→ltb 55 (length x.message_block) large in
      let marked = x.message_block ++ (0x80 ∷ []) in
      let size = length-append x.message_block (0x80 ∷ []) in
      let gap : ℕ = 64 - length marked in
      let zeros : (119 - m % 64) % 64 ≡ gap + 56 = omega (arith, size, h.block_length) in
      let first_part : List ℕ = 0x80 ∷ replicate gap 0 in
      let second_part : List ℕ = replicate 56 0 ++ (word_bytes 0 ++ word_bytes (m * 8)) in
      let whole : stored_padding m ≡ first_part ++ second_part =
        ap (λ (k : ℕ). 0x80 ∷ (replicate {A = ℕ} k 0 ++ (word_bytes 0 ++ word_bytes (m * 8)))) zeros
        ∙ ap (λ (t : List ℕ). 0x80 ∷ (t ++ (word_bytes 0 ++ word_bytes (m * 8))))
            (replicate-add gap 56)
        ∙ simp append_assoc in
      let block : fill_to 64 marked ≡ x.message_block ++ first_part = simp append_assoc in
      let filled1 =
        absorb-fill x.message_block first_part second_part x.message_digest
          (omega (arith, size, h.block_length, length-replicate {A = ℕ} gap 0)) (omega arith) in
      let filled2 =
        absorb-fill [] second_part []
          (process_message_block (x.message_block ++ first_part) x.message_digest) (omega arith)
          (omega arith) in
      rw test (
        ap₂
          (λ (t u : List ℕ).
            process_message_block (replicate 56 0 ++ t) (process_message_block u x.message_digest))
          last_bytes_lem block
        ∙ sym (
            ap (λ t. absorb x.message_block t x.message_digest) whole
            ∙ filled1
            ∙ (sym (
                  ap
                    (λ (t : List ℕ).
                      absorb [] t
                        (process_message_block (x.message_block ++ first_part) x.message_digest))
                    (append-nil second_part))
                ∙ filled2)))

  pad_message-absorb :
      (pad_message x).message_digest ≡ absorb x.message_block (stored_padding m) x.message_digest
  pad_message-absorb = elim (Bool-cases (ltb 55 (length x.message_block))) [
    | inl large ↦ pad_message-long (ground arith)
    | inr small ↦ pad_message-short (ground arith)
  ]

sha1_input-loop : (bytes : List ℕ) → sha1_input bytes sha1_reset ≡ input_loop bytes sha1_reset
unfolding sha1_input input_loop
sha1_input-loop [] = refl
sha1_input-loop (b ∷ bytes) = refl

sha1_result-digest :
    (x : Sha1Context)
    → x.corrupted ≡ false
    → x.computed ≡ false
    → digest_of (sha1_result x) ≡ some (pad_message x).message_digest
unfolding sha1_result
sha1_result-digest x sound open_still =
    ap₂
      (λ (p q : Bool). digest_of (
        if p
        then none
        else if q
        then some x
        else some (record (pad_message x) { computed = true })))
      sound open_still

-- For every message shorter than 2 ^ 29 bytes: the message with its padding, from the five start
-- values on, taken into the digest by SHA1ProcessMessageBlock, block by block of 64 bytes.
pub sha1_hash-absorb :
    (bytes : List ℕ)
    → length bytes < 2 ^ 29
    → sha1_hash bytes
      ≡ some (absorb [] (bytes ++ stored_padding (length bytes)) sha1_reset.message_digest)
unfolding sha1_hash
sha1_hash-absorb bytes lt =
    let start : Holds sha1_reset 0 = record {
      sound = refl;
      open_still = refl;
      low = refl;
      high = refl;
      block_length = refl;
    } in
    let zero_add : 0 + length bytes ≡ length bytes = omega arith in
    let (h, through) = input_loop-Holds bytes 0 sha1_reset start (omega arith) in
    let h' : Holds (input_loop bytes sha1_reset) (length bytes) =
      subst (Holds (input_loop bytes sha1_reset)) zero_add h in
    ap (λ y. digest_of (sha1_result y)) (sha1_input-loop bytes)
    ∙ sha1_result-digest (input_loop bytes sha1_reset) h'.sound h'.open_still
    ∙ ap some (
        pad_message-absorb (input_loop bytes sha1_reset) (length bytes) h'
        ∙ sym (through (stored_padding (length bytes))))
