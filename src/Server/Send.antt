-- ===== src/Server/Send.antt =====
-- WebSocketData::writeData (both forms) and sendResult (src/websocket-data.cc).
pub mod Write
pub mod Frame
use dog_server.Base.{
  ℕ, zero, suc, ◌+◌, ◌-◌, bit_or, List, [], ◌∷◌, ◌++◌, ◌<<<◌, ◌>>>◌, low_bits, ltb, if◌then◌else◌,
  length, take, drop,
}
use dog_server.Server.Packet.{Packet, Error, error_write, resize}

-- What one call of write(2) gives: the count of bytes that it took, or a return value of no more
-- than 0 with `errno`.
pub data WriteCall : Type 0 where
  wrote : ℕ → WriteCall
  eintr eagain other_errno : WriteCall

-- Where the loop stands after the calls: it returned 0, it returned -1 with `error_` set, or it
-- goes on to call write. The first list is what the socket has taken, the second what is left.
pub data Written : Type 0 where
  sent_all : List ℕ → Written
  write_failed : Error → List ℕ → Written
  writing : List ℕ → List ℕ → Written

-- The loop of both forms of writeData, over the calls that it makes.
unfoldable pub write_data : List ℕ → List ℕ → List WriteCall → Written
write_data sent [] calls = sent_all sent
write_data sent (b ∷ left) [] = writing sent (b ∷ left)
write_data sent (b ∷ left) (wrote n ∷ calls) =
    write_data (sent ++ take n (b ∷ left)) (drop n (b ∷ left)) calls
write_data sent (b ∷ left) (eintr ∷ calls) = write_data sent (b ∷ left) calls
write_data sent (b ∷ left) (eagain ∷ calls) = write_data sent (b ∷ left) calls
write_data sent (b ∷ left) (other_errno ∷ calls) = write_failed error_write sent

-- The size that sendResult asks of the packet for a payload of `length_` bytes.
unfoldable pub out_len : ℕ → ℕ
out_len length_ =
    if ltb length_ 126 then length_ + 2 else if ltb length_ 0xFFFF then length_ + 4 else length_ + 8

-- The head that sendResult writes: fin 1, opcode text, no mask.
unfoldable pub result_head : ℕ → List ℕ
result_head length_ =
    let first = bit_or (1 <<< 7) 1 in
    if ltb length_ 126
    then first ∷ bit_or 0 length_ ∷ []
    else if ltb length_ 0xFFFF
    then first ∷ bit_or 0 0x7E ∷ low_bits (length_ >>> 8) 8 ∷ low_bits length_ 8 ∷ []
    else first
      ∷ bit_or 0 0x7F
      ∷ 0
      ∷ 0
      ∷ 0
      ∷ 0
      ∷ low_bits (length_ >>> 24) 8
      ∷ low_bits (length_ >>> 16) 8
      ∷ low_bits (length_ >>> 8) 8
      ∷ low_bits length_ 8
      ∷ []

-- How sendResult ends: it stores behind the buffer, or it calls writeData on the packet.
pub data Sent : Type 0 where
  overflow : Sent
  sends : Packet → Written → Sent

unfoldable pub send_result : List ℕ → Packet → List WriteCall → Sent
unfolding write_data
send_result result p calls =
    let p' = resize (out_len (length result)) p in
    let frame = result_head (length result) ++ result in
    if ltb p'.size_ (length frame)
    then overflow
    else sends (record p' { data_ = frame; len_ = length frame }) (write_data [] frame calls)
