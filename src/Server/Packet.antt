-- ===== src/Server/Packet.antt =====
-- src/packet-buffer.h, and the errors of src/dog-status.h.
use dog_server.Base.{ℕ, ◌≡◌, ◌≤◌, ◌<◌, length, ◌^◌, ◌&&◌, List, [], u32, ltb, if◌then◌else◌}

-- PacketState.
pub data PacketState : Type 0 where
  packet_init packet_head_126 packet_head_127 packet_mask packet_data : PacketState

-- ERROR_TYPE.
pub data Error : Type 0 where
  error_no error_client_close error_internal error_parse_data error_read error_write : Error
  error_parse_head : Error

-- `data_` holds the first `len_` bytes of the buffer, `size_` is the size that it is allocated
-- with; no other byte of it is read before it is written.
pub record Packet : Type 0 where
  pub data_ : List ℕ
  pub len_ : ℕ
  pub size_ : ℕ
  pub fin_ : ℕ
  pub opcode_ : ℕ
  pub mask_ : ℕ
  pub masking_key_ : List ℕ
  pub body_size_ : ℕ
  pub head_size_ : ℕ
  pub state_ : PacketState

-- The constructor leaves the masking key as the memory has it.
unfoldable pub new_packet : List ℕ → Packet
new_packet memory = record {
  data_ = [];
  len_ = 0;
  size_ = 0;
  fin_ = 0;
  opcode_ = 0;
  mask_ = 0;
  masking_key_ = memory;
  body_size_ = 0;
  head_size_ = 0;
  state_ = packet_init;
}

unfoldable pub reset : Packet → Packet
reset p = record p {
  data_ = [];
  len_ = 0;
  fin_ = 0;
  opcode_ = 0;
  mask_ = 0;
  body_size_ = 0;
  head_size_ = 0;
  state_ = packet_init;
}

-- resize(int): the argument is cut to 32 bits, and one from 2 ^ 31 on is negative.
unfoldable pub resize : ℕ → Packet → Packet
resize len p =
    if ltb p.size_ (u32 len) && ltb (u32 len) (2 ^ 31) then record p { size_ = u32 len } else p

abbrev pub Fits : PacketState → ℕ → ℕ → Type 0
Fits packet_init len body = Unit
Fits packet_data len body = len ≤ body
Fits packet_head_126 len body = len ≡ 0
Fits packet_head_127 len body = len ≡ 0
Fits packet_mask len body = len ≡ 0

-- The invariant of a packet between two calls.
pub record IsValid (p : Packet) : Type 0 where
  pub stored : length p.data_ ≡ p.len_
  pub body_fits : p.body_size_ < 2 ^ 32
  pub len_fits : Fits p.state_ p.len_ p.body_size_
