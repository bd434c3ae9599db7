-- ===== src/Client/Sha1/Blocks.antt =====
-- SHA1ProcessMessageBlock is a block of the standard.
use dog_server.Base.{
  ℕ, zero, suc, ◌+◌, ◌-◌, ◌*◌, ◌/◌, ◌%◌, ◌^◌, ◌≤◌, ◌<◌, ◌≡◌, refl, sym, ap, ap₂, ◌∙◌, bit_or,
  bit_xor, List, [], ◌∷◌, ◌++◌, append-nil, append_assoc, reverse, ltb, length, length-append,
  get_or, u32, inl, inr, Bool-cases, arith,
}
use mathlib.Core.List.{reverse_aux, reverse_aux-append, reverse-cons, reverse-reverse}
use dog_server.Client.Sha1.{
  Digest, rotate, first_words, more_words, mix, rounds, process_message_block,
}
use dog_server.Client.Sha1.Standard.{
  circular_shift, logical, constant, words, next_word, extend, after_rounds, next_digest,
}

rotate_lem : (n x : ℕ) → rotate n x ≡ circular_shift n x
unfolding rotate
rotate_lem n x = refl

mix_lem : (t b c d : ℕ) → mix t b c d ≡ logical t b c d + constant t
unfolding mix logical constant
mix_lem t b c d = ground arith

first_words_lem : (bytes ws : List ℕ) → first_words ws bytes ≡ reverse (words bytes) ++ ws
unfolding first_words words
first_words_lem (p ∷ q ∷ r ∷ s ∷ bytes) ws =
    let w = bit_or (bit_or (bit_or (p * 2 ^ 24) (q * 2 ^ 16)) (r * 2 ^ 8)) s in
    first_words_lem bytes (w ∷ ws)
    ∙ sym (append_assoc (reverse (words bytes)) (w ∷ []) ws)
    ∙ ap (λ (t : List ℕ). t ++ ws) (sym (reverse-cons w (words bytes)))
first_words_lem [] ws = refl
first_words_lem (p ∷ []) ws = refl
first_words_lem (p ∷ q ∷ []) ws = refl
first_words_lem (p ∷ q ∷ r ∷ []) ws = refl

length-words : (bytes : List ℕ) → length (words bytes) ≡ length bytes / 4
unfolding words
length-words (p ∷ q ∷ r ∷ s ∷ bytes) = omega (arith, length-words bytes)
length-words [] = refl
length-words (p ∷ []) = refl
length-words (p ∷ q ∷ []) = refl
length-words (p ∷ q ∷ r ∷ []) = refl

length-extend : (n : ℕ) (ws : List ℕ) → length (extend n ws) ≡ length ws + n
unfolding extend
length-extend zero ws = omega arith
length-extend (suc n) ws =
    omega (arith, length-extend n (ws ++ (next_word ws ∷ [])), length-append ws (next_word ws ∷ []))

-- A list read from its end.
get_or-behind : (xs r : List ℕ) (j : ℕ) → get_or (reverse_aux xs r) (length xs + j) 0 ≡ get_or r j 0
get_or-behind [] r j = let e : 0 + j ≡ j = omega arith in ap (λ (k : ℕ). get_or r k 0) e
get_or-behind (x ∷ xs) r j =
    let e : suc (length xs) + j ≡ length xs + suc j = omega arith in
    ap (λ (k : ℕ). get_or (reverse_aux xs (x ∷ r)) k 0) e ∙ get_or-behind xs (x ∷ r) (suc j)

get_or-reverse_aux :
    (xs r : List ℕ) (i : ℕ)
    → i < length xs
    → get_or (reverse_aux xs r) i 0 ≡ get_or xs (length xs - suc i) 0
get_or-reverse_aux [] r i h = absurd (omega arith)
get_or-reverse_aux (x ∷ xs) r i h = elim (Bool-cases (ltb i (length xs))) [
  | inl small ↦
      let e : suc (length xs) - suc i ≡ suc (length xs - suc i) = ground arith in
      get_or-reverse_aux xs (x ∷ r) i (ground arith) ∙ ap (λ (k : ℕ). get_or (x ∷ xs) k 0) (sym e)
  | inr last ↦
      let e : i ≡ length xs + 0 = ground arith in
      let z : 0 ≡ suc (length xs) - suc i = ground arith in
      ap (λ (k : ℕ). get_or (reverse_aux xs (x ∷ r)) k 0) e
      ∙ get_or-behind xs (x ∷ r) 0
      ∙ ap (λ (k : ℕ). get_or (x ∷ xs) k 0) z
]

more_words_lem :
    (n : ℕ) (ws : List ℕ) → 16 ≤ length ws → reverse (more_words n (reverse ws)) ≡ extend n ws
unfolding more_words extend rotate
more_words_lem zero ws h = reverse-reverse ws
more_words_lem (suc n) ws h =
    let at : (i : ℕ) → i < 16 → get_or (reverse ws) i 0 ≡ get_or ws (length ws - suc i) 0 =
      λ i l. get_or-reverse_aux ws [] i (omega (arith, l, h)) in
    let same : bit_xor
          (bit_xor (bit_xor (get_or (reverse ws) 2 0) (get_or (reverse ws) 7 0))
            (get_or (reverse ws) 13 0))
          (get_or (reverse ws) 15 0)
        ≡ bit_xor
            (bit_xor (bit_xor (get_or ws (length ws - 3) 0) (get_or ws (length ws - 8) 0))
              (get_or ws (length ws - 14) 0))
            (get_or ws (length ws - 16) 0) =
      ap₂ bit_xor
        (ap₂ bit_xor (ap₂ bit_xor (at 2 (omega arith)) (at 7 (omega arith))) (at 13 (omega arith)))
        (at 15 (omega arith)) in
    ap (λ (x : ℕ). reverse (more_words n (circular_shift 1 x ∷ reverse ws))) same
    ∙ ap (λ (t : List ℕ). reverse (more_words n t))
        (sym (reverse_aux-append ws (next_word ws ∷ []) []))
    ∙ more_words_lem n (ws ++ (next_word ws ∷ []))
        (omega (arith, length-append ws (next_word ws ∷ [])))

-- The loops over the rounds, with the words in a list and by their places.
rounds_lem :
    (w : ℕ → ℕ) (x : Digest) (t : ℕ) (ws : List ℕ)
    → ((i : ℕ) → i < length ws → get_or ws i 0 ≡ w (t + i))
    → rounds t ws (after_rounds w t x) ≡ after_rounds w (t + length ws) x
unfolding rounds after_rounds rotate
rounds_lem w x t [] h = let e : t ≡ t + 0 = omega arith in ap (λ (k : ℕ). after_rounds w k x) e
rounds_lem w x t (v ∷ ws) h =
    let y = after_rounds w t x in
    let word : v ≡ w t = let e : t + 0 ≡ t = omega arith in h 0 (omega arith) ∙ ap w e in
    let first : (circular_shift 5 y.a + mix t y.b y.c y.d + y.e + v) % 2 ^ 32
        ≡ (circular_shift 5 y.a + logical t y.b y.c y.d + y.e + w t + constant t) % 2 ^ 32 =
      omega (arith, mix_lem t y.b y.c y.d, word) in
    let e : suc t + length ws ≡ t + suc (length ws) = omega arith in
    ap
      (λ (k : ℕ).
        rounds (suc t) ws record { a = k; b = y.a; c = circular_shift 30 y.b; d = y.c; e = y.d })
      first
    ∙ rounds_lem w x (suc t) ws (λ i l.
      let e : t + suc i ≡ suc t + i = omega arith in h (suc i) (omega (arith, l)) ∙ ap w e)
    ∙ ap (λ (k : ℕ). after_rounds w k x) e

pub process_message_block-next_digest :
    (block : List ℕ) (x : Digest)
    → length block ≡ 64
    → process_message_block block x ≡ next_digest block x
unfolding process_message_block next_digest after_rounds
process_message_block-next_digest block x size =
    let ws = extend 64 (words block) in
    let schedule : reverse (more_words 64 (first_words [] block)) ≡ ws =
      ap (λ (t : List ℕ). reverse (more_words 64 t))
        (first_words_lem block [] ∙ append-nil (reverse (words block)))
      ∙ more_words_lem 64 (words block) (omega (arith, length-words block, size)) in
    let w : ℕ → ℕ = λ t. get_or ws t 0 in
    let count : 0 + length ws ≡ 80 =
      omega (arith, length-extend 64 (words block), length-words block, size) in
    let same : rounds 0 (reverse (more_words 64 (first_words [] block))) x ≡ after_rounds w 80 x =
      ap (λ (t : List ℕ). rounds 0 t x) schedule
      ∙ rounds_lem w x 0 ws
          (λ i l. let e : i ≡ 0 + i = omega arith in ap (λ (k : ℕ). get_or ws k 0) e)
      ∙ ap (λ (k : ℕ). after_rounds w k x) count in
    ap
      (λ (y : Digest). record {
        a = u32 (x.a + y.a);
        b = u32 (x.b + y.b);
        c = u32 (x.c + y.c);
        d = u32 (x.d + y.d);
        e = u32 (x.e + y.e);
      })
      same
