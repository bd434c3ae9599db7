-- ===== src/Server/Receive/Decoder.antt =====
-- What readAndParsePacket does, said of the bytes alone: a decoder that takes the fields of a
-- frame off a queue, each when all of its bytes are there, and the payload as it comes.
use dog_server.Base.{
  ℕ, ◌+◌, ◌-◌, ◌^◌, ◌<◌, ◌≡◌, arith, not, ◌&&◌, List, ◌++◌, ltb, ◌==◌, if◌then◌else◌, length, take,
  drop,
}
use dog_server.Server.Packet.{
  PacketState, packet_init, packet_head_126, packet_head_127, packet_mask, packet_data,
  error_parse_data, Packet, Fits, reset, resize,
}
use dog_server.Server.Receive.{
  Received, received, failed, fault, set_head, byte_at, net16, net32, unmask,
}

-- A field of `k` bytes.
unfoldable pub need :
    ℕ → Packet → List ℕ → (List ℕ → List ℕ → Received (List ℕ)) → Received (List ℕ)
need k p q f = if ltb (length q) k then received p q else f (take k q) (drop k q)

abbrev pub close : Packet → Packet
close p = if p.len_ == p.body_size_ then record p { state_ = packet_init } else p

abbrev pub add_payload : Packet → List ℕ → Packet
add_payload p xs = record p {
  data_ = p.data_ ++ unmask p.masking_key_ p.len_ xs;
  len_ = p.len_ + length xs;
}

unfoldable pub decode_fill : ℕ → Packet → List ℕ → Received (List ℕ)
decode_fill n p q =
    if ltb p.size_ (p.len_ + n)
    then fault
    else received (close (add_payload p (take n q))) (drop n q)

abbrev pub payload_part : Packet → ℕ → ℕ
payload_part p bytes = if ltb (p.body_size_ - p.len_) bytes then p.body_size_ - p.len_ else bytes

unfoldable pub decode_data : Packet → List ℕ → Received (List ℕ)
decode_data p q = decode_fill (payload_part p (length q)) (resize p.body_size_ p) q

unfoldable pub decode_mask : Packet → List ℕ → Received (List ℕ)
decode_mask p q =
    if not (p.mask_ == 1)
    then decode_data (record p { state_ = packet_data }) q
    else need 4 p q λ xs r.
      decode_data
        (record p { head_size_ = p.head_size_ + 4; masking_key_ = xs; state_ = packet_data }) r

unfoldable pub decode_head_127 : Packet → List ℕ → Received (List ℕ)
decode_head_127 p q = need 8 p q λ xs r.
    let p' = record p { head_size_ = p.head_size_ + 8 } in
    if not (byte_at xs 0 == 0)
      && not (byte_at xs 1 == 0)
      && not (byte_at xs 2 == 0)
      && not (byte_at xs 3 == 0)
    then failed error_parse_data p' r
    else decode_mask
        (record p' {
          body_size_ = net32 (byte_at xs 4) (byte_at xs 5) (byte_at xs 6) (byte_at xs 7);
          state_ = packet_mask;
        })
        r

unfoldable pub decode_head_126 : Packet → List ℕ → Received (List ℕ)
decode_head_126 p q = need 2 p q λ xs r.
    decode_mask
      (record p {
        head_size_ = p.head_size_ + 2;
        body_size_ = net16 (byte_at xs 0) (byte_at xs 1);
        state_ = packet_mask;
      })
      r

unfoldable pub decode_at : PacketState → Packet → List ℕ → Received (List ℕ)
decode_at packet_head_126 p q = decode_head_126 p q
decode_at packet_head_127 p q = decode_head_127 p q
decode_at packet_mask p q = decode_mask p q
decode_at packet_data p q = decode_data p q
decode_at packet_init p q = received p q

unfoldable pub decode_init : Packet → List ℕ → Received (List ℕ)
decode_init p q =
    need 2 (reset p) q
      λ xs r. let p' = set_head (byte_at xs 0) (byte_at xs 1) (reset p) in decode_at p'.state_ p' r

unfoldable pub decode_from : PacketState → Packet → List ℕ → Received (List ℕ)
decode_from packet_init p q = decode_init p q
decode_from packet_head_126 p q = decode_head_126 p q
decode_from packet_head_127 p q = decode_head_127 p q
decode_from packet_mask p q = decode_mask p q
decode_from packet_data p q = decode_data p q

abbrev pub decode : Packet → List ℕ → Received (List ℕ)
decode p q = decode_from p.state_ p q

pub set_head-Fits :
    (b0 b1 : ℕ) (p : Packet)
    → p.len_ ≡ 0
    → let p' = set_head b0 b1 p in (Fits p'.state_ p'.len_ p'.body_size_) × (p'.body_size_ < 2 ^ 32)
unfolding set_head
set_head-Fits b0 b1 p e = ground arith
