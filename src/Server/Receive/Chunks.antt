-- ===== src/Server/Receive/Chunks.antt =====
-- The decoder does not depend on how the network cuts the bytes.
use dog_server.Base.{
  ℕ, zero, suc, ◌+◌, ◌%◌, ◌≤◌, ◌≡◌, ◌≢◌, refl, sym, ap, ◌∙◌, inl, inr, Bool-cases, Bool, true,
  false, not, List, [], ◌∷◌, ◌++◌, append_assoc, bit_xor, ltb, ◌==◌, if◌then◌else◌, length,
  length-drop, length-append, take, drop, take-append-le, drop-append-le, arith,
}
use dog_server.Server.Packet.{
  PacketState, packet_init, packet_head_126, packet_head_127, packet_mask, packet_data, Error,
  Packet, Fits, IsValid, reset, resize,
}
use dog_server.Server.Receive.{Received, received, failed, set_head, byte_at, unmask}
use dog_server.Server.Receive.Decoder.{
  set_head-Fits, need, close, add_payload, payload_part, decode_fill, decode_data, decode_mask,
  decode_head_126, decode_head_127, decode_at, decode_init, decode_from, decode,
}

pub unmask-append :
    (key : List ℕ) (j : ℕ) (xs ys : List ℕ)
    → unmask key j (xs ++ ys) ≡ unmask key j xs ++ unmask key (j + length xs) ys
unfolding unmask
unmask-append key j [] ys = let e : j + 0 ≡ j = omega arith in rw e
unmask-append key j (x ∷ xs) ys =
    let e : j + 1 + length xs ≡ j + suc (length xs) = omega arith in
    ap (λ t. bit_xor x (byte_at key (j % 4)) ∷ t)
      (unmask-append key (j + 1) xs ys ∙ ap (λ t. unmask key (j + 1) xs ++ unmask key t ys) e)

add_payload-append :
    (p : Packet) (xs ys : List ℕ) → add_payload p (xs ++ ys) ≡ add_payload (add_payload p xs) ys
add_payload-append p xs ys = ground (
  arith,
  unmask-append p.masking_key_ p.len_ xs ys,
  length-append xs ys,
  append_assoc p.data_ (unmask p.masking_key_ p.len_ xs)
      (unmask p.masking_key_ (p.len_ + length xs) ys),
)

resize-add_payload :
    (p : Packet) (xs : List ℕ)
    → let p₁ = add_payload (resize p.body_size_ p) xs in resize p₁.body_size_ p₁ ≡ p₁
unfolding resize
resize-add_payload p xs = ground arith

-- Some bytes were enough for a call that read them all: so is their start, and a second call
-- at the packet that it leaves reads the rest to the same end.
abbrev Splits : (List ℕ → Received (List ℕ)) → Type 0
Splits f =
    (xs : List ℕ) (y : ℕ) (ys : List ℕ) (p' : Packet)
    → f (xs ++ (y ∷ ys)) ≡ received p' []
    → (p : Packet) × (q : List ℕ) × (f xs ≡ received p q)
      × (decode p (q ++ (y ∷ ys)) ≡ received p' [])

drop-nil-length :
    {A : Type 0} (n : ℕ) (xs : List A) → n ≤ length xs → drop n xs ≡ [] → n ≡ length xs
drop-nil-length n xs h e = omega (arith, length-drop n xs, ap length e)

take-all : {A : Type 0} (n : ℕ) (xs : List A) → length xs ≤ n → take n xs ≡ xs
take-all zero [] h = refl
take-all zero (x ∷ xs) h = absurd (omega arith)
take-all (suc n) [] h = refl
take-all (suc n) (x ∷ xs) h = ap (λ t. x ∷ t) (take-all n xs (omega arith))

drop-all : {A : Type 0} (n : ℕ) (xs : List A) → length xs ≤ n → drop n xs ≡ []
drop-all zero [] h = refl
drop-all zero (x ∷ xs) h = absurd (omega arith)
drop-all (suc n) [] h = refl
drop-all (suc n) (x ∷ xs) h = drop-all n xs (omega arith)

decode_fill-fits :
    (n : ℕ) (p : Packet) (q : List ℕ)
    → n ≡ length q
    → p.len_ + n ≤ p.size_
    → decode_fill n p q ≡ received (close (add_payload p q)) []
unfolding decode_fill
decode_fill-fits n p q e h =
    let fits : ltb p.size_ (p.len_ + n) ≡ false = ground arith in
    rw (fits, take-all n q (omega arith), drop-all n q (omega arith))

-- A run that ends with an empty queue took all of it.
decode_fill-all :
    (n : ℕ) (p p' : Packet) (q : List ℕ)
    → n ≤ length q
    → decode_fill n p q ≡ received p' []
    → (n ≡ length q) × (p.len_ + n ≤ p.size_)
unfolding decode_fill
decode_fill-all n p p' q h e = elim (Bool-cases (ltb p.size_ (p.len_ + n))) [
  | inl over ↦ absurd (ground arith)
  | inr fits ↦ (drop-nil-length n q h (ground arith), ground arith)
]

resize-same :
    (p : Packet)
    → let p' = resize p.body_size_ p in
      (p'.len_ ≡ p.len_) × (p'.body_size_ ≡ p.body_size_) × (p'.state_ ≡ p.state_)
unfolding resize
resize-same p = ground arith

decode-at-data : (p : Packet) (q : List ℕ) → p.state_ ≡ packet_data → decode p q ≡ decode_data p q
unfolding decode_from
decode-at-data p q e = simp e

-- A payload that fills what is left, or less.
pub decode_data-fits :
    (p : Packet) (q : List ℕ)
    → p.len_ + length q ≤ p.body_size_
    → p.len_ + length q ≤ (resize p.body_size_ p).size_
    → decode_data p q ≡ received (close (add_payload (resize p.body_size_ p) q)) []
unfolding decode_data
decode_data-fits p q v h =
    let n : payload_part p (length q) ≡ length q = ground arith in
    let same = resize-same p in
    rw n (decode_fill-fits (length q) (resize p.body_size_ p) q refl (omega (arith, same)))

decode_data-all :
    (p p' : Packet) (q : List ℕ)
    → p.len_ ≤ p.body_size_
    → decode_data p q ≡ received p' []
    → (p.len_ + length q ≤ p.body_size_) × (p.len_ + length q ≤ (resize p.body_size_ p).size_)
unfolding decode_data
decode_data-all p p' q v e =
    let same = resize-same p in
    let all =
      decode_fill-all (payload_part p (length q)) (resize p.body_size_ p) p' q (ground arith) e in
    (ground (arith, all), ground (arith, all, same))

decode_data-Splits :
    (p : Packet) → p.state_ ≡ packet_data → p.len_ ≤ p.body_size_ → Splits (decode_data p)
decode_data-Splits p st v xs y ys p' e =
    let p₀ = resize p.body_size_ p in
    let same = resize-same p in
    let p₁ = add_payload p₀ xs in
    let total = length-append xs (y ∷ ys) in
    let all = decode_data-all p p' (xs ++ (y ∷ ys)) v e in
    let room : p.len_ + length xs + suc (length ys) ≤ p₀.size_ = omega (arith, all, total) in
    let open' : close p₁ ≡ p₁ = ground (arith, all, total, same) in
    let first : decode_data p xs ≡ received p₁ [] =
      decode_data-fits p xs (omega (arith, all, total)) (omega arith)
      ∙ ap (λ t. received t []) open' in
    let again : resize p₁.body_size_ p₁ ≡ p₁ = resize-add_payload p xs in
    let second =
      decode_data-fits p₁ (y ∷ ys) (omega (arith, all, total, same))
        (rw again (omega (arith, same))) in
    let whole = decode_data-fits p (xs ++ (y ∷ ys)) all.0 all.1 in
    let joined : add_payload (resize p₁.body_size_ p₁) (y ∷ ys) ≡ add_payload p₀ (xs ++ (y ∷ ys)) =
      ap (λ t. add_payload t (y ∷ ys)) again ∙ sym (add_payload-append p₀ xs (y ∷ ys)) in
    (
      p₁,
      [],
      first,
      decode-at-data p₁ (y ∷ ys) (same.2 ∙ st)
          ∙ second
          ∙ ap (λ t. received (close t) []) joined
          ∙ sym whole
          ∙ e,
    )

-- A field: the decoder waits for all of it at the packet it had.
need-Splits :
    (k : ℕ) (p : Packet) (f : List ℕ → List ℕ → Received (List ℕ))
    → ((q : List ℕ) → decode p q ≡ need k p q f)
    → ((hd : List ℕ) → Splits (f hd))
    → Splits (λ q. need k p q f)
unfolding need
need-Splits k p f again later xs y ys p' e = elim (Bool-cases (ltb (length xs) k)) [
  | inl few ↦ (p, xs, rw few, again (xs ++ (y ∷ ys)) ∙ e)
  | inr more ↦
      let h : k ≤ length xs = ground arith in
      let all : ltb (length (xs ++ (y ∷ ys))) k ≡ false =
        ground (arith, length-append xs (y ∷ ys)) in
      rw more (
        later (take k xs) (drop k xs) y ys p'
          (rw (all, take-append-le k xs (y ∷ ys) h, drop-append-le k xs (y ∷ ys) h) at e))
]

decode_mask-Splits : (p : Packet) → p.state_ ≡ packet_mask → p.len_ ≡ 0 → Splits (decode_mask p)
unfolding decode_mask
decode_mask-Splits p st v = elim (Bool-cases (not (p.mask_ == 1))) [
  | inl plain ↦ rw plain (decode_data-Splits (record p { state_ = packet_data }) refl (omega arith))
  | inr masked ↦ rw masked (
      need-Splits 4 p _ (λ q. unfold decode_from decode_mask in simp (st, masked))
        λ hd. decode_data-Splits _ refl (omega arith))
]

failed-Splits :
    (bad : Bool) (error : Error) (p₀ : Packet) (g : List ℕ → Received (List ℕ))
    → Splits g
    → Splits (λ r. if bad then failed error p₀ r else g r)
failed-Splits true error p₀ g later xs y ys p' e = cc
failed-Splits false error p₀ g later xs y ys p' e = later xs y ys p' e

decode_head_127-Splits :
    (p : Packet) → p.state_ ≡ packet_head_127 → p.len_ ≡ 0 → Splits (decode_head_127 p)
unfolding decode_head_127
decode_head_127-Splits p st v =
    need-Splits 8 p _ (λ q. unfold decode_from decode_head_127 in simp st)
      λ hd. failed-Splits _ _ _ _ (decode_mask-Splits _ refl v)

decode_head_126-Splits :
    (p : Packet) → p.state_ ≡ packet_head_126 → p.len_ ≡ 0 → Splits (decode_head_126 p)
unfolding decode_head_126
decode_head_126-Splits p st v =
    need-Splits 2 p _ (λ q. unfold decode_from decode_head_126 in simp st)
      λ hd. decode_mask-Splits _ refl v

decode_at-Splits :
    (st : PacketState) (p : Packet)
    → p.state_ ≡ st
    → Fits st p.len_ p.body_size_
    → st ≢ packet_init
    → Splits (decode_at st p)
unfolding decode_at
decode_at-Splits packet_init p e v n = absurd (n refl)
decode_at-Splits packet_head_126 p e v n = decode_head_126-Splits p e v
decode_at-Splits packet_head_127 p e v n = decode_head_127-Splits p e v
decode_at-Splits packet_mask p e v n = decode_mask-Splits p e v
decode_at-Splits packet_data p e v n = decode_data-Splits p e v

decode_init-Splits : (p : Packet) → Splits (decode_init p)
unfolding decode_init
decode_init-Splits p =
    need-Splits 2 (reset p) _ (λ q. unfold decode_from decode_init reset in refl)
      λ hd.
        let p' = set_head (byte_at hd 0) (byte_at hd 1) (reset p) in
        decode_at-Splits p'.state_ p' refl
          (set_head-Fits (byte_at hd 0) (byte_at hd 1) (reset p) (unfold reset in refl)).0
          (unfold set_head in ground arith)

decode_from-Splits :
    (st : PacketState) (p : Packet)
    → p.state_ ≡ st
    → Fits st p.len_ p.body_size_
    → Splits (decode_from st p)
unfolding decode_from
decode_from-Splits packet_init p e v = decode_init-Splits p
decode_from-Splits packet_head_126 p e v = decode_head_126-Splits p e v
decode_from-Splits packet_head_127 p e v = decode_head_127-Splits p e v
decode_from-Splits packet_mask p e v = decode_mask-Splits p e v
decode_from-Splits packet_data p e v = decode_data-Splits p e v

-- Whatever a call that returned 0 and read all its bytes did, two calls do, one on the first of
-- the bytes and one when the rest has come.
pub decode-split : (p : Packet) → IsValid p → Splits (decode p)
decode-split p v = decode_from-Splits p.state_ p refl v.len_fits
