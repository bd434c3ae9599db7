-- ===== src/Client/Transfer.antt =====
-- webSocket_send and webSocket_recv of src/websocket-client.cc, for data to send of fewer than
-- 2 ^ 31 - 142 bytes. What recv returns is an argument, call by call, and `rand` as it is for the
-- frames.
pub mod Gather
use dog_server.Base.{
  ℕ, zero, suc, ◌+◌, ◌-◌, ◌^◌, Bool, true, false, ◌&&◌, ◌||◌, Option, none, some, List, [], ◌∷◌,
  ◌++◌, ltb, leb, ◌==◌, if◌then◌else◌, length, take, replicate,
}
use dog_server.Client.Frame.{
  DataType, wdt_mindata, wdt_txtdata, wdt_bindata, wdt_disconn, wdt_ping, wdt_pong, wdt_err,
  wdt_null, Packed, failed, packed, Unpacked, unpacked, en_package, de_package,
}

-- What is sent; a length of -1 is given to send as one that no buffer has.
pub data Outgoing : Type 0 where
  sent : List ℕ → Outgoing
  overrun : Outgoing

-- The first `n` bytes of a buffer of `room` bytes that calloc gave, with `stored` in front.
unfoldable pub read_back : ℕ → ℕ → List ℕ → Option (List ℕ)
read_back n room stored = if leb n room then some (take n (stored ++ replicate room 0)) else none

abbrev pub send_bytes : Option (List ℕ) → Outgoing
send_bytes none = overrun
send_bytes (some bytes) = sent bytes

abbrev pub send_packed : ℕ → Packed → Outgoing
send_packed room failed = overrun
send_packed room (packed stored len) = send_bytes (read_back len room stored)

unfoldable pub web_socket_send : List ℕ → Bool → DataType → (ℕ → ℕ) → Outgoing
web_socket_send data_ is_mask type rand =
    let room = length data_ + 128 in send_packed room (en_package data_ 0 room is_mask type rand)

-- One call of recv: the bytes that it stores, or a return value that is not positive, with whether
-- errno is EAGAIN or EINTR. Where it has no room left it returns 0, and errno is an earlier one.
pub data RecvCall : Type 0 where
  got : List ℕ → RecvCall
  not_got : Bool → RecvCall

-- What a call of recv with this room may store: at least one byte, and no more than the room.
abbrev pub is_stored : ℕ → List ℕ → Bool
is_stored room xs = ltb 0 (length xs) && leb (length xs) room

-- The loop that waits for the rest of a frame, until `need` bytes are there, in a recvBuf of
-- `data_max_len` bytes. `not_recv` is for calls that are none of recv.
pub data Gathered : Type 0 where
  whole : List ℕ → Gathered
  gives_up : Gathered
  waits : Gathered
  not_recv : Gathered

abbrev pub recv_patience : ℕ
recv_patience = 50

unfoldable pub gather : ℕ → ℕ → ℕ → List RecvCall → List ℕ → Gathered
gather data_max_len need time_out [] bytes = if ltb (length bytes) need then waits else whole bytes
gather data_max_len need time_out (got xs ∷ calls) bytes =
    let rest = gather data_max_len need (recv_patience - 1) calls (bytes ++ xs) in
    let next = if is_stored (data_max_len - length bytes) xs then rest else not_recv in
    if ltb (length bytes) need then next else whole bytes
gather data_max_len need time_out (not_got transient ∷ calls) bytes =
    let rest = gather data_max_len need (time_out - 1) calls bytes in
    let next = if transient then if ltb (time_out - 1) 1 then gives_up else rest else gives_up in
    if ltb (length bytes) need then next else whole bytes

-- How webSocket_recv ends: 0 with the type, minus the length of the bytes stored, the length of a
-- payload that is stored, of a PING that is answered with what is sent, or of a PONG, for which the
-- caller's buffer is left as it is. `fault` is an overrun or an int that overflows; `waiting`, a call
-- that has not returned; `no_recv`, calls that are none of recv.
pub data RecvResult : Type 0 where
  no_data : DataType → RecvResult
  no_package : List ℕ → RecvResult
  payload : DataType → List ℕ → RecvResult
  ping : ℕ → Outgoing → RecvResult
  pong : ℕ → RecvResult
  fault : RecvResult
  waiting : RecvResult
  no_recv : RecvResult

abbrev pub hand_over : DataType → (ℕ → ℕ) → Option (List ℕ) → RecvResult
hand_over type rand none = fault
hand_over wdt_ping rand (some bytes) =
    ping (length bytes) (web_socket_send bytes true wdt_pong rand)
hand_over wdt_pong rand (some bytes) = pong (length bytes)
hand_over type rand (some bytes) = payload type bytes

abbrev pub is_err : DataType → Bool
is_err wdt_err = true
is_err _ = false

-- A variable that webSocket_dePackage may leave as it was.
abbrev pub updated : ℕ → Option ℕ → ℕ
updated before none = before
updated before (some n) = n

-- The end of the function, where retLen is an int; `before` is what it was.
unfoldable pub finish_recv : (ℕ → ℕ) → ℕ → ℕ → Unpacked → RecvResult
finish_recv rand before received Unpacked.fault = fault
finish_recv rand before received (unpacked type len head_len stored) =
    let n = updated before len in
    if n == 0 || leb (2 ^ 31) n
    then no_data type
    else hand_over type rand (read_back n (received + 128) stored)

-- webSocket_dePackage into a buffer of ret + 128 bytes, a sum of ints.
unfoldable pub open_package : List ℕ → Unpacked
open_package bytes =
    if leb (2 ^ 31) (length bytes + 128)
    then Unpacked.fault
    else de_package bytes (length bytes + 128)

abbrev pub after_gather : (ℕ → ℕ) → DataType → ℕ → Gathered → RecvResult
after_gather rand type len gives_up = no_data type
after_gather rand type len waits = waiting
after_gather rand type len not_recv = no_recv
after_gather rand type len (whole bytes) = finish_recv rand len (length bytes) (open_package bytes)

-- The part behind the first webSocket_dePackage.
unfoldable pub take_package :
    (ℕ → ℕ) → ℕ → List RecvCall → List ℕ → DataType → ℕ → ℕ → List ℕ → RecvResult
take_package rand data_max_len calls bytes type len head_len stored =
    if is_err type && len == 0
    then no_package bytes
    else if leb (2 ^ 31) len
    then no_data type
    else if ltb data_max_len len
    then no_data type
    else if leb (2 ^ 31) (head_len + len)
    then fault
    else if ltb (length bytes) (head_len + len)
    then after_gather rand type len (gather data_max_len (head_len + len) recv_patience calls bytes)
    else finish_recv rand len (length bytes) (unpacked type (some len) (some head_len) stored)

abbrev pub first_package : (ℕ → ℕ) → ℕ → List RecvCall → List ℕ → Unpacked → RecvResult
first_package rand data_max_len calls bytes Unpacked.fault = fault
first_package rand data_max_len calls bytes (unpacked type len head_len stored) =
    take_package rand data_max_len calls bytes type (updated 0 len) (updated 0 head_len) stored

-- webSocket_recv.
unfoldable pub web_socket_recv : (ℕ → ℕ) → ℕ → List RecvCall → RecvResult
web_socket_recv rand data_max_len [] = waiting
web_socket_recv rand data_max_len (not_got transient ∷ calls) = no_data wdt_null
web_socket_recv rand data_max_len (got bytes ∷ calls) =
    if is_stored data_max_len bytes
    then first_package rand data_max_len calls bytes (open_package bytes)
    else no_recv
