-- ===== src/Client/Link.antt =====
-- webSocket_clientLinkToServer of src/websocket-client.cc, from the socket on: the loop over
-- connect, the request, and the loop over recv, with their time-outs. What the calls return is the
-- arguments `connects` and `recvs`, by the value of timeOut at the call, and so is `rand`.
pub mod Time
pub mod Accept
pub mod Ready
pub mod Peer
use dog_server.Base.{
  ℕ, zero, suc, ◌+◌, Bool, true, false, Option, none, some, List, ltb, ◌==◌, if◌then◌else◌, length,
  drop, codes, c_str,
}
use dog_server.Client.Keys.{build_shake_key, match_shake_key}
use dog_server.Client.Http.{starts_with, strstr, scan, build_http_head}

abbrev pub connect_timeout : ℕ
connect_timeout = 1000

abbrev pub respond_timeout : ℕ
respond_timeout = 1000 + connect_timeout

-- One call of recv: some bytes, at most 512, or a return value that is not positive.
pub data Recv : Type 0 where
  got : List ℕ → Recv
  nothing : Recv

-- What a round makes of a reply: return the handle, send the request again, go on, or leave a
-- buffer or follow a null pointer.
pub data Round : Type 0 where
  accepts resends ignores faults : Round

abbrev pub accept_name : List ℕ
accept_name = codes "Sec-WebSocket-Accept: "

-- sscanf(p, "%s\r\n", p), which leaves `p` as it is where there is no word.
abbrev pub scan_in_place : List ℕ → List ℕ
scan_in_place p = if length (scan p) == 0 then p else scan p

abbrev pub round_of : Option Bool → Round
round_of none = faults
round_of (some true) = accepts
round_of (some false) = resends

abbrev pub round_at : List ℕ → Option (List ℕ) → Round
round_at shake_key none = resends
round_at shake_key (some p) =
    round_of (match_shake_key (c_str shake_key) (scan_in_place (drop (length accept_name) p)))

-- A buffer of 512 bytes without a 0 among them is no text: strstr leaves it.
unfoldable pub reply_round : List ℕ → Recv → Round
reply_round shake_key nothing = ignores
reply_round shake_key (got bytes) =
    if starts_with (codes "HTTP") bytes
    then if length (c_str bytes) == 512
      then faults
      else round_at shake_key (strstr (c_str bytes) accept_name)
    else ignores

-- How it ends, with the number of requests sent: the handle, minus `timeOut`, or a fault;
-- `running` where the fuel is out.
pub data Link : Type 0 where
  linked : ℕ → Link
  timed_out : ℕ → Link
  fault : Link
  running : Link

abbrev pub after_reply : Round → ℕ → Link → Link → Link
after_reply accepts requests next again = linked requests
after_reply resends requests next again = again
after_reply ignores requests next again = next
after_reply faults requests next again = fault

unfoldable pub respond_loop : (ℕ → Recv) → List ℕ → ℕ → ℕ → ℕ → Link
respond_loop recvs shake_key requests time_out zero = running
respond_loop recvs shake_key requests time_out (suc fuel) =
    let late = ltb respond_timeout (time_out + 1) in
    let next = respond_loop recvs shake_key requests (time_out + 1) fuel in
    let again = respond_loop recvs shake_key (requests + 1) (time_out + 1) fuel in
    after_reply (reply_round shake_key (recvs time_out)) requests
      (if late then timed_out (time_out + 1) else next)
      (if late then timed_out (time_out + 1) else again)

-- The loop over connect, with `timeOut` at the connection or minus the return value.
pub data Connect : Type 0 where
  connected : ℕ → Connect
  refused : ℕ → Connect
  waiting : Connect

unfoldable pub connect_loop : (ℕ → Bool) → ℕ → ℕ → Connect
connect_loop connects time_out zero = waiting
connect_loop connects time_out (suc fuel) =
    let more = connect_loop connects (time_out + 1) fuel in
    if connects time_out
    then connected time_out
    else if ltb connect_timeout (time_out + 1)
    then refused (time_out + 1)
    else more

-- The request in loginBuf, and the wait for the answer to it.
unfoldable pub request_and_wait : (ℕ → Recv) → List ℕ → List ℕ → ℕ → ℕ → Link
request_and_wait recvs shake_key head time_out fuel =
    if ltb (length head) 512 then respond_loop recvs shake_key 1 time_out fuel else fault

abbrev pub after_connect : Connect → (ℕ → Link) → Link
after_connect (connected time_out) next = next time_out
after_connect (refused time_out) next = timed_out time_out
after_connect waiting next = running

unfoldable pub client_link_to_server :
    (ℕ → Bool) → (ℕ → Recv) → (ℕ → ℕ) → List ℕ → ℕ → List ℕ → ℕ → Link
client_link_to_server connects recvs rand ip port interface_path fuel =
    after_connect (connect_loop connects 0 fuel) (λ (time_out : ℕ).
      let shake_key = build_shake_key rand in
      request_and_wait recvs shake_key (build_http_head ip port interface_path (c_str shake_key))
        time_out fuel)
