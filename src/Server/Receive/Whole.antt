-- ===== src/Server/Receive/Whole.antt =====
-- A whole masked frame at once: the packet that the decoder makes of it.
use dog_server.Base.{
  ℕ, ◌+◌, ◌-◌, ◌/◌, ◌%◌, ◌^◌, ◌<◌, ◌≤◌, ◌≡◌, refl, ap, ◌∙◌, false, not, List, [], ◌∷◌, ◌++◌, ltb,
  ◌==◌, if◌then◌else◌, length, length-append, take-append, drop-append-length, arith,
}
use dog_server.Server.Packet.{
  PacketState, packet_init, packet_head_126, packet_head_127, packet_mask, packet_data, Packet,
  reset, resize,
}
use dog_server.Server.Receive.{Received, received, set_head, unmask}
use dog_server.Server.Receive.Decoder.{
  need, close, add_payload, decode_mask, decode_head_126, decode_head_127, decode_at, decode_init,
  decode_from, decode,
}
use dog_server.Server.Receive.Chunks.{decode_data-fits}
use dog_server.Server.Receive.Valid.{length-unmask}

need-append :
    (k : ℕ) (p : Packet) (hd tl : List ℕ) (f : List ℕ → List ℕ → Received (List ℕ))
    → k ≡ length hd
    → need k p (hd ++ tl) f ≡ f hd tl
unfolding need
need-append k p hd tl f e =
    let enough : ltb (length (hd ++ tl)) k ≡ false = ground (arith, length-append hd tl) in
    rw (enough, e, take-append (length hd) hd tl refl, drop-append-length hd tl)

-- A packet that holds a whole message.
pub record Complete (p : Packet) (opcode fin : ℕ) (payload : List ℕ) : Type 0 where
  pub content : p.data_ ≡ payload
  pub len : p.len_ ≡ length payload
  pub size : p.body_size_ ≡ length payload
  pub opcode_kept : p.opcode_ ≡ opcode
  pub fin_kept : p.fin_ ≡ fin
  pub finished : p.state_ ≡ packet_init

-- The decoder ends with the whole message and an empty queue.
abbrev pub Finishes : Received (List ℕ) → ℕ → ℕ → List ℕ → Type 0
Finishes r opcode fin payload = (p : Packet) × (r ≡ received p []) × Complete p opcode fin payload

module _ (key body : List ℕ) (four : 4 ≡ length key) (small : length body < 2 ^ 31) where
  filled_lem :
      (p : Packet)
      → p.len_ ≡ 0
      → p.data_ ≡ []
      → p.body_size_ ≡ length body
      → Complete
          (close (add_payload (resize p.body_size_ p) body))
          p.opcode_
          p.fin_
          (unmask p.masking_key_ 0 body)
  unfolding resize
  filled_lem p z e n = record {
    content = ground arith;
    len = ground (arith, length-unmask p.masking_key_ 0 body);
    size = ground (arith, length-unmask p.masking_key_ 0 body);
    opcode_kept = ground arith;
    fin_kept = ground arith;
    finished = ground arith;
  }

  decode_mask-whole :
      (p : Packet)
      → p.mask_ ≡ 1
      → p.len_ ≡ 0
      → p.data_ ≡ []
      → p.body_size_ ≡ length body
      → Finishes (decode_mask p (key ++ body)) p.opcode_ p.fin_ (unmask key 0 body)
  unfolding decode_mask
  decode_mask-whole p m z e n =
      let masked : not (p.mask_ == 1) ≡ false = ground arith in
      let p₁ = record p {
        head_size_ = p.head_size_ + 4;
        masking_key_ = key;
        state_ = packet_data;
      } in
      (
        close (add_payload (resize p₁.body_size_ p₁) body),
        rw (masked, need-append 4 p key body _ four)
            (decode_data-fits p₁ body (omega arith) (unfold resize in ground arith)),
        filled_lem p₁ z e n,
      )

  head_lem :
      (first b1 : ℕ) (p : Packet)
      → 128 ≤ b1
      → b1 < 256
      → let p' = set_head first b1 (reset p) in
        (p'.mask_ ≡ 1)
        × (p'.len_ ≡ 0)
        × (p'.data_ ≡ [])
        × (p'.body_size_ ≡ b1 - 128)
        × (p'.opcode_ ≡ first % 16)
        × (p'.fin_ ≡ first / 128)
        × (p'.state_ ≡ (
            if ltb (b1 - 128) 126
            then packet_mask
            else if b1 - 128 == 126
            then packet_head_126
            else packet_head_127))
  unfolding set_head reset
  head_lem first b1 p lo hi = (omega arith, refl, refl, omega arith, refl, refl, ground arith)

  -- The rest of a frame behind its first two bytes.
  decode-after_head :
      (first b1 : ℕ) (p : Packet) (st : PacketState) (rest : List ℕ)
      → p.state_ ≡ packet_init
      → let p' = set_head first b1 (reset p) in
        p'.state_ ≡ st → decode p (first ∷ b1 ∷ rest) ≡ decode_at st p' rest
  unfolding decode_from decode_init
  decode-after_head first b1 p st rest e f = simp e (
      need-append 2 (reset p) (first ∷ b1 ∷ []) rest _ refl
      ∙ ap (λ t. decode_at t (set_head first b1 (reset p)) rest) f)

  pub decode-small :
      (first : ℕ) (p : Packet)
      → p.state_ ≡ packet_init
      → length body < 126
      → Finishes
          (decode p (first ∷ (128 + length body) ∷ (key ++ body)))
          (first % 16)
          (first / 128)
          (unmask key 0 body)
  unfolding decode_at
  decode-small first p e n =
      let facts = head_lem first (128 + length body) p (omega arith) (omega arith) in
      let p' = set_head first (128 + length body) (reset p) in
      rw
        (
          decode-after_head first (128 + length body) p packet_mask (key ++ body) e
              (ground (arith, facts)),
          ← facts.4,
          ← facts.5,
        )
        (decode_mask-whole p' facts.0 facts.1 facts.2 (omega (arith, facts)))

  pub decode-medium :
      (first : ℕ) (p : Packet)
      → p.state_ ≡ packet_init
      → length body < 65536
      → Finishes
          (decode p (first ∷ 254 ∷ (length body / 256) ∷ (length body % 256) ∷ (key ++ body)))
          (first % 16)
          (first / 128)
          (unmask key 0 body)
  unfolding decode_at decode_head_126
  decode-medium first p e n =
      let facts = head_lem first 254 p (omega arith) (omega arith) in
      let p' = set_head first 254 (reset p) in
      let hd : List ℕ = (length body / 256) ∷ (length body % 256) ∷ [] in
      rw
        (
          decode-after_head first 254 p packet_head_126 (hd ++ (key ++ body)) e facts.6,
          need-append 2 p' hd (key ++ body) _ refl,
          ← facts.4,
          ← facts.5,
        )
        (decode_mask-whole _ facts.0 facts.1 facts.2 (omega arith))

  pub decode-large :
      (first : ℕ) (p : Packet)
      → p.state_ ≡ packet_init
      → Finishes
          (decode p (
            first
            ∷ 255
            ∷ 0
            ∷ 0
            ∷ 0
            ∷ 0
            ∷ (length body / 2 ^ 24)
            ∷ (length body / 2 ^ 16 % 256)
            ∷ (length body / 256 % 256)
            ∷ (length body % 256)
            ∷ (key ++ body)))
          (first % 16)
          (first / 128)
          (unmask key 0 body)
  unfolding decode_at decode_head_127
  decode-large first p e =
      let facts = head_lem first 255 p (omega arith) (omega arith) in
      let p' = set_head first 255 (reset p) in
      let hd : List ℕ =
        0
        ∷ 0
        ∷ 0
        ∷ 0
        ∷ (length body / 2 ^ 24)
        ∷ (length body / 2 ^ 16 % 256)
        ∷ (length body / 256 % 256)
        ∷ (length body % 256)
        ∷ [] in
      rw
        (
          decode-after_head first 255 p packet_head_127 (hd ++ (key ++ body)) e facts.6,
          need-append 8 p' hd (key ++ body) _ refl,
          ← facts.4,
          ← facts.5,
        )
        (decode_mask-whole _ facts.0 facts.1 facts.2 (omega arith))
