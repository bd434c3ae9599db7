-- ===== src/Server/Receive.antt =====
-- WebSocketData::readAndParsePacket (src/websocket-data.cc): the blocks of the function in their
-- order, each run in its packet state only.
pub mod Decoder
pub mod Refinement
pub mod Chunks
pub mod Valid
pub mod Delivery
pub mod Whole
use dog_server.Base.{
  ℕ, zero, suc, ◌+◌, ◌-◌, ◌*◌, ◌%◌, ◌^◌, bit_xor, Bool, true, false, not, ◌&&◌, Option, none, some,
  List, [], ◌∷◌, ◌++◌, ◌>>>◌, u32, low_bits, ltb, ◌==◌, if◌then◌else◌, length, get_or,
}
use dog_server.Server.Socket.{Socket}
use dog_server.Server.Packet.{
  PacketState, packet_init, packet_head_126, packet_head_127, packet_mask, packet_data, Error,
  error_read, error_parse_data, Packet, reset, resize,
}

-- How the function ends: it returns 0, or -1 with `error_` set, or it writes behind the buffer.
pub data Received (S : Type 0) : Type 0 where
  received : Packet → S → Received S
  failed : Error → Packet → S → Received S
  fault : Received S

-- How a block ends: it goes on with the packet and the count `bytes`, or the function returns.
pub data Block (S : Type 0) : Type 0 where
  next : Packet → ℕ → S → Block S
  stop : Received S → Block S

infixl 5 ◌>>=◌
abbrev pub ◌>>=◌ : {S : Type 0} → Block S → (Packet → ℕ → S → Block S) → Block S
next p bytes s >>= k = k p bytes s
stop r >>= k = stop r

abbrev pub finish : {S : Type 0} → Block S → Received S
finish (next p bytes s) = received p s
finish (stop r) = r

-- The first two bytes of a frame.
unfoldable pub set_head : ℕ → ℕ → Packet → Packet
set_head b0 b1 p =
    let size = low_bits b1 7 in
    record p {
      head_size_ = p.head_size_ + 2;
      fin_ = b0 >>> 7;
      opcode_ = low_bits b0 4;
      mask_ = b1 >>> 7;
      body_size_ = size;
      state_ =
          if ltb size 126
          then packet_mask
          else if size == 126
          then packet_head_126
          else packet_head_127;
    }

abbrev pub byte_at : List ℕ → ℕ → ℕ
byte_at xs i = get_or xs i 0

-- ntohs and ntohl of the bytes in memory.
abbrev pub net16 : ℕ → ℕ → ℕ
net16 a b = (a * 256 + b) % 2 ^ 16

abbrev pub net32 : ℕ → ℕ → ℕ → ℕ → ℕ
net32 a b c d = u32 (((a * 256 + b) * 256 + c) * 256 + d)

-- ptr[i] ^ masking_key_[(len_ + i) % 4], from `j = len_ + i` on.
unfoldable pub unmask : List ℕ → ℕ → List ℕ → List ℕ
unmask key j [] = []
unmask key j (x ∷ xs) = bit_xor x (byte_at key (j % 4)) ∷ unmask key (j + 1) xs

-- body_size_ - len_ is unsigned, on 64 bits.
abbrev pub read_len : Packet → ℕ → ℕ
read_len p bytes =
    let left = (p.body_size_ + 2 ^ 64 - p.len_) % 2 ^ 64 in if ltb left bytes then left else bytes

module _ (socket : Socket) where
  open socket use {State, fionread, read}

  -- read(fd_, …, n), where any other count than `n` is the error.
  unfoldable pub fetch : ℕ → Packet → State → (List ℕ → State → Block State) → Block State
  fetch n p s k =
      let (got, s') = read s n in
      elim got [
        | none ↦ stop (failed error_read p s')
        | some xs ↦ if length xs == n then k xs s' else stop (failed error_read p s')
      ]

  unfoldable pub on_init : Packet → ℕ → State → Block State
  on_init p bytes s =
      let p' = reset p in
      if ltb bytes 2
      then stop (received p' s)
      else fetch 2 p' s λ xs s'. next (set_head (byte_at xs 0) (byte_at xs 1) p') (bytes - 2) s'

  unfoldable pub on_head_126 : Packet → ℕ → State → Block State
  on_head_126 p bytes s =
      if ltb bytes 2
      then stop (received p s)
      else fetch 2 p s λ xs s'.
        next
          (record p {
            head_size_ = p.head_size_ + 2;
            body_size_ = net16 (byte_at xs 0) (byte_at xs 1);
            state_ = packet_mask;
          })
          (bytes - 2) s'

  unfoldable pub on_head_127 : Packet → ℕ → State → Block State
  on_head_127 p bytes s =
      if ltb bytes 8
      then stop (received p s)
      else fetch 8 p s λ xs s'.
        let p' = record p { head_size_ = p.head_size_ + 8 } in
        if not (byte_at xs 0 == 0)
          && not (byte_at xs 1 == 0)
          && not (byte_at xs 2 == 0)
          && not (byte_at xs 3 == 0)
        then stop (failed error_parse_data p' s')
        else next
            (record p' {
              body_size_ = net32 (byte_at xs 4) (byte_at xs 5) (byte_at xs 6) (byte_at xs 7);
              state_ = packet_mask;
            })
            (bytes - 8) s'

  unfoldable pub on_mask : Packet → ℕ → State → Block State
  on_mask p bytes s =
      if not (p.mask_ == 1)
      then next (record p { state_ = packet_data }) bytes s
      else if ltb bytes 4
      then stop (received p s)
      else fetch 4 p s λ xs s'.
        next (record p { head_size_ = p.head_size_ + 4; masking_key_ = xs; state_ = packet_data })
          (bytes - 4) s'

  -- `n` more bytes of the payload.
  unfoldable pub fill : ℕ → Packet → ℕ → State → Block State
  fill n p bytes s =
      if ltb p.size_ (p.len_ + n)
      then stop fault
      else fetch n p s λ xs s'.
        let p' = record p {
          data_ = p.data_ ++ unmask p.masking_key_ p.len_ xs;
          len_ = p.len_ + n;
        } in
        next (if p'.len_ == p'.body_size_ then record p' { state_ = packet_init } else p')
          (bytes - n) s'

  unfoldable pub on_data : Packet → ℕ → State → Block State
  on_data p bytes s = fill (read_len p bytes) (resize p.body_size_ p) bytes s

  -- if (packet->state_ == …) { … }
  unfoldable pub in_init : PacketState → Packet → ℕ → State → Block State
  in_init packet_init p bytes s = on_init p bytes s
  in_init _ p bytes s = next p bytes s

  unfoldable pub in_head_126 : PacketState → Packet → ℕ → State → Block State
  in_head_126 packet_head_126 p bytes s = on_head_126 p bytes s
  in_head_126 _ p bytes s = next p bytes s

  unfoldable pub in_head_127 : PacketState → Packet → ℕ → State → Block State
  in_head_127 packet_head_127 p bytes s = on_head_127 p bytes s
  in_head_127 _ p bytes s = next p bytes s

  unfoldable pub in_mask : PacketState → Packet → ℕ → State → Block State
  in_mask packet_mask p bytes s = on_mask p bytes s
  in_mask _ p bytes s = next p bytes s

  unfoldable pub in_data : PacketState → Packet → ℕ → State → Block State
  in_data packet_data p bytes s = on_data p bytes s
  in_data _ p bytes s = next p bytes s

  -- The rest of the function from each of its blocks on.
  abbrev pub from_data : Packet → ℕ → State → Block State
  from_data p bytes s = in_data p.state_ p bytes s

  abbrev pub from_mask : Packet → ℕ → State → Block State
  from_mask p bytes s = in_mask p.state_ p bytes s >>= from_data

  abbrev pub from_head_127 : Packet → ℕ → State → Block State
  from_head_127 p bytes s = in_head_127 p.state_ p bytes s >>= from_mask

  abbrev pub from_head_126 : Packet → ℕ → State → Block State
  from_head_126 p bytes s = in_head_126 p.state_ p bytes s >>= from_head_127

  unfoldable pub read_and_parse_packet : Packet → State → Received State
  read_and_parse_packet p s = finish (in_init p.state_ p (fionread s) s >>= from_head_126)
