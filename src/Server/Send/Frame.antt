-- ===== src/Server/Send/Frame.antt =====
-- When sendResult keeps within its buffer.
use dog_server.Base.{
  ℕ, ◌+◌, ◌^◌, ◌<◌, ◌≤◌, ◌≡◌, ◌⊎◌, refl, List, [], ◌++◌, ltb, if◌then◌else◌, length, length-append,
  arith,
}
use dog_server.Server.Packet.{Packet, resize}
use dog_server.Server.Send.{
  WriteCall, overflow, sends, write_data, out_len, result_head, send_result,
}

-- The size of the head that is written.
abbrev pub result_head_size : ℕ → ℕ
result_head_size n = if ltb n 126 then 2 else if ltb n 0xFFFF then 4 else 10

pub length-result_head : (n : ℕ) → length (result_head n) ≡ result_head_size n
unfolding result_head
length-result_head n = ground arith

size-resize :
    (n : ℕ) (p : Packet) → n < 2 ^ 31 → (resize n p).size_ ≡ (if ltb p.size_ n then n else p.size_)
unfolding resize
size-resize n p h = ground arith

room_lem :
    (result : List ℕ) (p : Packet)
    → length result + 8 < 2 ^ 31
    → (resize (out_len (length result)) p).size_
      ≡ (if ltb p.size_ (out_len (length result)) then out_len (length result) else p.size_)
room_lem result p h = size-resize (out_len (length result)) p (unfold out_len in ground arith)

module _ (result : List ℕ) (p : Packet) (calls : List WriteCall)
    (small : length result + 8 < 2 ^ 31) where
  -- resize asks for 8 bytes of head in the long form, where 10 are written: sendResult
  -- stores behind its buffer for every result of 65535 bytes or more, shorter than 2 ^ 31 - 8,
  -- at a packet with less room than the frame.
  pub send_result_overflow :
      0xFFFF ≤ length result → p.size_ < length result + 10 → send_result result p calls ≡ overflow
  unfolding send_result out_len
  send_result_overflow long less =
      let size = room_lem result p small in
      let head = length-append (result_head (length result)) result in
      let form = length-result_head (length result) in ground (arith, size, head, form)

  -- In every other case it calls writeData on the head and the result.
  pub send_result_fits :
      (length result < 0xFFFF) ⊎ (length result + 10 ≤ p.size_)
      → let frame = result_head (length result) ++ result in
        (p' : Packet) × (send_result result p calls ≡ sends p' (write_data [] frame calls))
        × (p'.data_ ≡ frame)
        × (p'.len_ ≡ length frame)
  unfolding send_result out_len
  send_result_fits fits =
      let size = room_lem result p small in
      let head = length-append (result_head (length result)) result in
      let form = length-result_head (length result) in
      let frame = result_head (length result) ++ result in
      (
        record (resize (out_len (length result)) p) { data_ = frame; len_ = length frame },
        ground (arith, size, head, form),
        refl,
        refl,
      )
