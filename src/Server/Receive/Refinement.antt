-- ===== src/Server/Receive/Refinement.antt =====
-- readAndParsePacket over any lawful socket is the decoder on its queue.
use dog_server.Base.{
  ℕ, ◌+◌, ◌-◌, ◌^◌, ◌<◌, ◌≤◌, ◌≡◌, refl, ap, ◌∙◌, inl, inr, Bool-cases, not, ◌&&◌, List, ltb, ◌==◌,
  if◌then◌else◌, length, length-take, length-drop, take, drop, arith,
}
use dog_server.Server.Socket.{Socket}
use dog_server.Server.Packet.{
  PacketState, packet_init, packet_head_126, packet_head_127, packet_mask, packet_data, Packet,
  Fits, IsValid, reset, resize,
}
use dog_server.Server.Receive.{
  Received, received, failed, fault, Block, stop, ◌>>=◌, finish, byte_at, read_len, fetch, fill,
  on_init, on_head_126, on_head_127, on_mask, on_data, in_init, in_head_126, in_head_127, in_mask,
  in_data, from_data, from_mask, from_head_127, from_head_126, read_and_parse_packet,
}
use dog_server.Server.Receive.Decoder.{
  set_head-Fits, need, payload_part, decode_fill, decode_data, decode_mask, decode_head_126,
  decode_head_127, decode_at, decode_init, decode_from, decode,
}

module _ (socket : Socket) where
  open socket use {State, queued, read, fionread}

  -- The queue in place of the socket.
  abbrev pub view : Received State → Received (List ℕ)
  view (received p s) = received p (queued s)
  view (failed e p s) = failed e p (queued s)
  view fault = fault

  -- What a field of `n` bytes that is queued gives.
  fetch-take :
      (n : ℕ) (p : Packet) (s : State) (k : List ℕ → State → Block State)
      → n ≤ length (queued s)
      → fetch socket n p s k ≡ k (take n (queued s)) (read s n).1
  unfolding fetch
  fetch-take n p s k h =
      let full : length (take n (queued s)) ≡ n = omega (arith, length-take n (queued s)) in
      ground (arith, socket.read-take s n h, full)

  read_len-exact :
      (p : Packet) (bytes : ℕ)
      → p.len_ ≤ p.body_size_
      → p.body_size_ < 2 ^ 64
      → read_len p bytes ≡ payload_part p bytes
  read_len-exact p bytes v w = ground arith

  fill-decode :
      (n : ℕ) (p : Packet) (bytes : ℕ) (s : State)
      → n ≤ length (queued s)
      → view (finish (fill socket n p bytes s)) ≡ decode_fill n p (queued s)
  unfolding fill decode_fill
  fill-decode n p bytes s h = elim (Bool-cases (ltb p.size_ (p.len_ + n))) [
    | inl over ↦ rw over
    | inr fits ↦
        rw (fits, fetch-take n p s _ h)
          (ground (arith, length-take n (queued s), socket.read-drop s n h))
  ]

  on_data-decode :
      (p : Packet) (bytes : ℕ) (s : State)
      → p.len_ ≤ p.body_size_
      → p.body_size_ < 2 ^ 64
      → bytes ≡ length (queued s)
      → view (finish (on_data socket p bytes s)) ≡ decode_data p (queued s)
  unfolding on_data decode_data
  on_data-decode p bytes s v w e =
      rw (read_len-exact p bytes v w, e)
        (fill-decode (payload_part p (length (queued s))) (resize p.body_size_ p)
          (length (queued s)) s (ground arith))

  left :
      (n : ℕ) (s s' : State) {bytes : ℕ}
      → bytes ≡ length (queued s)
      → queued s' ≡ drop n (queued s)
      → bytes - n ≡ length (queued s')
  left n s s' e d = omega (arith, ap length d, length-drop n (queued s))

  -- A block that asks for `n` bytes, and the decoder that needs them.
  ask-need :
      (n : ℕ) (p : Packet) (bytes : ℕ) (s : State) (k : List ℕ → State → Block State)
      (rest : Packet → ℕ → State → Block State) (f : List ℕ → List ℕ → Received (List ℕ))
      → bytes ≡ length (queued s)
      → ((s' : State)
          → n ≤ length (queued s)
          → queued s' ≡ drop n (queued s)
          → view (finish (k (take n (queued s)) s' >>= rest)) ≡ f (take n (queued s)) (queued s'))
      → view (finish ((if ltb bytes n then stop (received p s) else fetch socket n p s k) >>= rest))
        ≡ need n p (queued s) f
  unfolding need
  ask-need n p bytes s k rest f e go = elim (Bool-cases (ltb bytes n)) [
    | inl few ↦ rw (← e, few)
    | inr more ↦
        let h : n ≤ length (queued s) = ground arith in
        let d = socket.read-drop s n h in
        rw (← e, more, fetch-take n p s k h) (go (read s n).1 h d ∙ ap (f (take n (queued s))) d)
  ]

  on_mask-decode :
      (p : Packet) (bytes : ℕ) (s : State)
      → p.len_ ≤ p.body_size_
      → p.body_size_ < 2 ^ 64
      → bytes ≡ length (queued s)
      → view (finish (on_mask socket p bytes s >>= from_data socket)) ≡ decode_mask p (queued s)
  unfolding on_mask in_data decode_mask
  on_mask-decode p bytes s v w e = elim (Bool-cases (not (p.mask_ == 1))) [
    | inl plain ↦ rw plain (on_data-decode (record p { state_ = packet_data }) bytes s v w e)
    | inr masked ↦
        rw masked
          (ask-need 4 p bytes s _ _ _ e λ s' h d. on_data-decode _ _ s' v w (left 4 s s' e d))
  ]

  on_head_127-decode :
      (p : Packet) (bytes : ℕ) (s : State)
      → p.len_ ≡ 0
      → bytes ≡ length (queued s)
      → view (finish (on_head_127 socket p bytes s >>= from_mask socket))
        ≡ decode_head_127 p (queued s)
  unfolding on_head_127 in_mask decode_head_127
  on_head_127-decode p bytes s v e = ask-need 8 p bytes s _ (from_mask socket) _ e λ s' h d.
      let xs = take 8 (queued s) in
      elim (Bool-cases (
        not (byte_at xs 0 == 0)
        && not (byte_at xs 1 == 0)
        && not (byte_at xs 2 == 0)
        && not (byte_at xs 3 == 0))) [
          | inl big ↦ rw big
          | inr small ↦
              rw small (on_mask-decode _ _ s' (omega arith) (omega arith) (left 8 s s' e d))
        ]

  on_head_126-decode :
      (p : Packet) (bytes : ℕ) (s : State)
      → p.len_ ≡ 0
      → bytes ≡ length (queued s)
      → view (finish (on_head_126 socket p bytes s >>= from_head_127 socket))
        ≡ decode_head_126 p (queued s)
  unfolding on_head_126 in_head_127 in_mask decode_head_126
  on_head_126-decode p bytes s v e =
      ask-need 2 p bytes s _ (from_head_127 socket) _ e
        λ s' h d. on_mask-decode _ _ s' (omega arith) (omega arith) (left 2 s s' e d)

  -- Every state but the first.
  at-decode :
      (st : PacketState) (p : Packet) (bytes : ℕ) (s : State)
      → p.state_ ≡ st
      → Fits st p.len_ p.body_size_
      → p.body_size_ < 2 ^ 32
      → bytes ≡ length (queued s)
      → view (finish (from_head_126 socket p bytes s)) ≡ decode_at st p (queued s)
  unfolding in_head_126 in_head_127 in_mask in_data decode_at
  at-decode packet_init p bytes s st v w e = simp st
  at-decode packet_head_126 p bytes s st v w e = simp st (on_head_126-decode p bytes s v e)
  at-decode packet_head_127 p bytes s st v w e = simp st (on_head_127-decode p bytes s v e)
  at-decode packet_mask p bytes s st v w e =
      simp st (on_mask-decode p bytes s (omega arith) (omega arith) e)
  at-decode packet_data p bytes s st v w e = simp st (on_data-decode p bytes s v (omega arith) e)

  on_init-decode :
      (p : Packet) (s : State)
      → view (finish (on_init socket p (fionread s) s >>= from_head_126 socket))
        ≡ decode_init p (queued s)
  unfolding on_init decode_init
  on_init-decode p s =
      let e = socket.fionread-length s in
      ask-need 2 (reset p) (fionread s) s _ (from_head_126 socket) _ e λ s' h d.
        let xs = take 2 (queued s) in
        let fits = set_head-Fits (byte_at xs 0) (byte_at xs 1) (reset p) (unfold reset in refl) in
        at-decode _ _ _ s' refl fits.0 fits.1 (left 2 s s' e d)

  state-decode :
      (st : PacketState) (p : Packet) (s : State)
      → p.state_ ≡ st
      → Fits st p.len_ p.body_size_
      → p.body_size_ < 2 ^ 32
      → view (read_and_parse_packet socket p s) ≡ decode p (queued s)
  unfolding in_init read_and_parse_packet decode_from decode_at
  state-decode packet_init p s st v w = simp st (on_init-decode p s)
  state-decode packet_head_126 p s st v w =
      simp st (simp st at (at-decode _ p _ s st v w (socket.fionread-length s)))
  state-decode packet_head_127 p s st v w =
      simp st (simp st at (at-decode _ p _ s st v w (socket.fionread-length s)))
  state-decode packet_mask p s st v w =
      simp st (simp st at (at-decode _ p _ s st v w (socket.fionread-length s)))
  state-decode packet_data p s st v w =
      simp st (simp st at (at-decode _ p _ s st v w (socket.fionread-length s)))

  -- On every socket that keeps the laws of `Socket`, readAndParsePacket at a valid packet ends as
  -- the decoder does on the bytes that the socket has queued, with the same packet, the same
  -- error and the same bytes left in the queue.
  pub read_and_parse_packet-decode :
      (p : Packet) (s : State)
      → IsValid p
      → view (read_and_parse_packet socket p s) ≡ decode p (queued s)
  read_and_parse_packet-decode p s v = state-decode p.state_ p s refl v.len_fits v.body_fits
