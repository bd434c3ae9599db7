-- ===== src/Server/Receive/Valid.antt =====
-- The invariant of the packet between two calls of readAndParsePacket.
use dog_server.Base.{
  ℕ, suc, ◌+◌, ◌^◌, ◌<◌, ◌≤◌, ◌≡◌, refl, ap, inl, inr, Bool-cases, not, ◌&&◌, List, [], ◌∷◌, ◌++◌,
  ltb, ◌==◌, length, length-take, length-append, take, drop, arith,
}
use dog_server.Server.Socket.{Socket}
use dog_server.Server.Packet.{
  PacketState, packet_init, packet_head_126, packet_head_127, packet_mask, packet_data, Packet,
  Fits, IsValid, reset, resize, new_packet,
}
use dog_server.Server.Receive.{
  Received, received, failed, fault, set_head, byte_at, unmask, read_and_parse_packet,
}
use dog_server.Server.Receive.Decoder.{
  need, close, add_payload, payload_part, decode_fill, decode_data, decode_mask, decode_head_126,
  decode_head_127, decode_at, decode_init, decode_from, decode, set_head-Fits,
}
use dog_server.Server.Receive.Refinement.{view, read_and_parse_packet-decode}

pub length-unmask : (key : List ℕ) (j : ℕ) (xs : List ℕ) → length (unmask key j xs) ≡ length xs
unfolding unmask
length-unmask key j [] = refl
length-unmask key j (x ∷ xs) = ap suc (length-unmask key (j + 1) xs)

-- Whatever packet a call leaves is valid.
abbrev pub LeavesValid : {S : Type 0} → Received S → Type 0
LeavesValid (received p s) = IsValid p
LeavesValid (failed e p s) = IsValid p
LeavesValid fault = Unit

-- Stored bytes and bound of a payload that is added to.
close-IsValid :
    (p : Packet) (xs : List ℕ)
    → length p.data_ ≡ p.len_
    → p.body_size_ < 2 ^ 32
    → p.state_ ≡ packet_data
    → p.len_ + length xs ≤ p.body_size_
    → IsValid (close (add_payload p xs))
close-IsValid p xs st b e h = elim (Bool-cases (p.len_ + length xs == p.body_size_)) [
  | inl full ↦ rw full (record { stored = kept; body_fits = b; len_fits = tt })
  | inr part ↦ rw part (record { stored = kept; body_fits = b; len_fits = simp e h })
]
  where
    kept : length (p.data_ ++ unmask p.masking_key_ p.len_ xs) ≡ p.len_ + length xs
    kept = omega (
      arith,
      length-append p.data_ (unmask p.masking_key_ p.len_ xs),
      length-unmask p.masking_key_ p.len_ xs,
    )

decode_fill-LeavesValid :
    (n : ℕ) (p : Packet) (q : List ℕ)
    → length p.data_ ≡ p.len_
    → p.body_size_ < 2 ^ 32
    → p.state_ ≡ packet_data
    → p.len_ + n ≤ p.body_size_
    → LeavesValid (decode_fill n p q)
unfolding decode_fill
decode_fill-LeavesValid n p q st b e h = elim (Bool-cases (ltb p.size_ (p.len_ + n))) [
  | inl over ↦ rw over tt
  | inr fits ↦ rw fits (close-IsValid p (take n q) st b e (omega (arith, length-take n q)))
]

decode_data-LeavesValid :
    (p : Packet) (q : List ℕ)
    → length p.data_ ≡ p.len_
    → p.body_size_ < 2 ^ 32
    → p.state_ ≡ packet_data
    → p.len_ ≤ p.body_size_
    → LeavesValid (decode_data p q)
unfolding decode_data resize
decode_data-LeavesValid p q st b e h =
    decode_fill-LeavesValid (payload_part p (length q)) (resize p.body_size_ p) q (ground arith)
      (ground arith) (ground arith) (ground arith)

need-LeavesValid :
    (k : ℕ) (p : Packet) (q : List ℕ) (f : List ℕ → List ℕ → Received (List ℕ))
    → IsValid p
    → ((hd r : List ℕ) → LeavesValid (f hd r))
    → LeavesValid (need k p q f)
unfolding need
need-LeavesValid k p q f v later = elim (Bool-cases (ltb (length q) k)) [
  | inl few ↦ rw few v
  | inr more ↦ rw more (later (take k q) (drop k q))
]

decode_mask-LeavesValid :
    (p : Packet) (q : List ℕ) → IsValid p → p.len_ ≡ 0 → LeavesValid (decode_mask p q)
unfolding decode_mask
decode_mask-LeavesValid p q v z = elim (Bool-cases (not (p.mask_ == 1))) [
  | inl plain ↦ rw plain (
      decode_data-LeavesValid (record p { state_ = packet_data }) q v.stored v.body_fits refl
        (omega arith))
  | inr masked ↦ rw masked (
      need-LeavesValid 4 p q _ v
        λ hd r. decode_data-LeavesValid _ r v.stored v.body_fits refl (omega arith))
]

decode_head_127-LeavesValid :
    (p : Packet) (q : List ℕ)
    → IsValid p
    → p.state_ ≡ packet_head_127
    → p.len_ ≡ 0
    → LeavesValid (decode_head_127 p q)
unfolding decode_head_127
decode_head_127-LeavesValid p q v e z = need-LeavesValid 8 p q _ v λ hd r.
    elim (Bool-cases (
      not (byte_at hd 0 == 0)
      && not (byte_at hd 1 == 0)
      && not (byte_at hd 2 == 0)
      && not (byte_at hd 3 == 0))) [
        | inl big ↦
            rw big (record { stored = v.stored; body_fits = v.body_fits; len_fits = simp e z })
        | inr small ↦ rw small (
            decode_mask-LeavesValid _ r
              (record { stored = v.stored; body_fits = omega arith; len_fits = z }) z)
      ]

decode_head_126-LeavesValid :
    (p : Packet) (q : List ℕ) → IsValid p → p.len_ ≡ 0 → LeavesValid (decode_head_126 p q)
unfolding decode_head_126
decode_head_126-LeavesValid p q v z = need-LeavesValid 2 p q _ v λ hd r.
    decode_mask-LeavesValid _ r
      (record { stored = v.stored; body_fits = omega arith; len_fits = z }) z

decode_at-LeavesValid :
    (st : PacketState) (p : Packet) (q : List ℕ)
    → p.state_ ≡ st
    → Fits st p.len_ p.body_size_
    → IsValid p
    → LeavesValid (decode_at st p q)
unfolding decode_at
decode_at-LeavesValid packet_init p q e f v = v
decode_at-LeavesValid packet_head_126 p q e f v = decode_head_126-LeavesValid p q v f
decode_at-LeavesValid packet_head_127 p q e f v = decode_head_127-LeavesValid p q v e f
decode_at-LeavesValid packet_mask p q e f v = decode_mask-LeavesValid p q v f
decode_at-LeavesValid packet_data p q e f v = decode_data-LeavesValid p q v.stored v.body_fits e f

reset-IsValid : (p : Packet) → IsValid (reset p)
unfolding reset
reset-IsValid p = record { stored = refl; body_fits = omega arith; len_fits = tt }

decode_init-LeavesValid : (p : Packet) (q : List ℕ) → LeavesValid (decode_init p q)
unfolding decode_init
decode_init-LeavesValid p q = need-LeavesValid 2 (reset p) q _ (reset-IsValid p) λ hd r.
    let p' = set_head (byte_at hd 0) (byte_at hd 1) (reset p) in
    let fits = set_head-Fits (byte_at hd 0) (byte_at hd 1) (reset p) (unfold reset in refl) in
    decode_at-LeavesValid p'.state_ p' r refl fits.0
      (record { stored = unfold reset set_head in refl; body_fits = fits.1; len_fits = fits.0 })

decode_from-LeavesValid :
    (st : PacketState) (p : Packet) (q : List ℕ)
    → p.state_ ≡ st
    → Fits st p.len_ p.body_size_
    → IsValid p
    → LeavesValid (decode_from st p q)
unfolding decode_from
decode_from-LeavesValid packet_init p q e f v = decode_init-LeavesValid p q
decode_from-LeavesValid packet_head_126 p q e f v = decode_head_126-LeavesValid p q v f
decode_from-LeavesValid packet_head_127 p q e f v = decode_head_127-LeavesValid p q v e f
decode_from-LeavesValid packet_mask p q e f v = decode_mask-LeavesValid p q v f
decode_from-LeavesValid packet_data p q e f v = decode_data-LeavesValid p q v.stored v.body_fits e f

pub decode-LeavesValid : (p : Packet) (q : List ℕ) → IsValid p → LeavesValid (decode p q)
decode-LeavesValid p q v = decode_from-LeavesValid p.state_ p q refl v.len_fits v

pub new_packet-IsValid : (memory : List ℕ) → IsValid (new_packet memory)
unfolding new_packet
new_packet-IsValid memory = record { stored = refl; body_fits = omega arith; len_fits = tt }

module _ (socket : Socket) where
  open socket use {State, queued}

  view-LeavesValid : (r : Received State) → LeavesValid (view socket r) → LeavesValid r
  view-LeavesValid (received p s) v = v
  view-LeavesValid (failed e p s) v = v
  view-LeavesValid fault v = v

  -- On every socket, a call of readAndParsePacket at a valid packet leaves a valid packet, whether it
  -- returns 0 or -1: `len_` bytes are stored, the payload never outgrows the announced size
  -- and nothing is stored before the payload begins.
  pub read_and_parse_packet-IsValid :
      (p : Packet) (s : State) → IsValid p → LeavesValid (read_and_parse_packet socket p s)
  read_and_parse_packet-IsValid p s v =
      view-LeavesValid (read_and_parse_packet socket p s)
        (rw (read_and_parse_packet-decode socket p s v) (decode-LeavesValid p (queued s) v))
