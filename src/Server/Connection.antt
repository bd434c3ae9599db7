-- ===== src/Server/Connection.antt =====
-- WebSocketData (src/websocket-data.cc): the state of a connection and its handlers,
-- handleRead and handleConn, with all that they call. The build without `_ADD_ASR`.
pub mod Grows
pub mod States
pub mod Runs
pub mod Handshake
pub mod Message
use dog_server.Base.{
  ℕ, ◌+◌, bit_or, Bool, true, false, ◌&&◌, ◌||◌, Option, none, some, List, [], ◌++◌, ◌==◌,
  if◌then◌else◌, codes, str_eq,
}
use dog_server.Server.Socket.{Socket}
use dog_server.Server.Packet.{
  PacketState, packet_init, Error, error_no, error_client_close, error_internal, error_parse_data,
  error_read, error_write, error_parse_head, Packet, new_packet,
}
use dog_server.Server.Receive.{Received, received, failed, fault, read_and_parse_packet}
use dog_server.Server.Send.{
  WriteCall, Written, sent_all, write_failed, writing, write_data, Sent, overflow, sends,
  send_result,
}
use dog_server.Server.Http.{
  HeadRead, Headers, insert, lookup, Parsed, parsed, refused, read_and_parse_head, response,
}

-- ProcessState.
pub data ProcessState : Type 0 where
  state_head state_start state_data state_finish state_close state_error : ProcessState

-- A connection. `socket_` is the receiving side of `fd_`, `sent` what the other side of it has
-- taken, `file` what stands in file/<uuid_>. `polled` says that the poller has the channel, `held`
-- that the channel's holder_ keeps the connection alive, `idle` is the loop's flag.
pub record Connection (S : Type 0) : Type 0 where
  pub state_ : ProcessState
  pub error_ : Error
  pub is_final_ : Bool
  pub headers_ : Headers
  pub read_packet_ : Packet
  pub write_packet_ : Packet
  pub this_conn_bytes_ : ℕ
  pub events_ : ℕ
  pub socket_ : S
  pub sent : List ℕ
  pub file : List ℕ
  pub polled : Bool
  pub held : Bool
  pub idle : Bool

-- How a member function ends: it returns, 0 as `true` and -1 as `false`; the calls that the system
-- answers are used up inside a loop; or it leaves a buffer's bounds.
pub data Outcome (S : Type 0) : Type 0 where
  returns : Bool → Connection S → Outcome S
  waits : Outcome S
  crashes : Outcome S

infixl 5 ◌>>=◌
abbrev pub ◌>>=◌ : {S : Type 0} → Outcome S → (Bool → Connection S → Outcome S) → Outcome S
returns ok c >>= k = k ok c
waits >>= k = waits
crashes >>= k = crashes

-- The constructor, in a channel that newEvent has given to the poller of a loop.
unfoldable pub new_connection : {S : Type 0} → List ℕ → S → Connection S
new_connection memory s = record {
  state_ = state_head;
  error_ = error_no;
  is_final_ = false;
  headers_ = [];
  read_packet_ = new_packet memory;
  write_packet_ = new_packet memory;
  this_conn_bytes_ = 0;
  events_ = 1;
  socket_ = s;
  sent = [];
  file = [];
  polled = true;
  held = true;
  idle = false;
}

-- What the calls of read and write give while one handler runs: the reads of readAndParseHead, and
-- the writes of sendRespond, of the result of a packet, of the final result, and of
-- sendErrorRespond.
pub record Calls : Type 0 where
  pub head_reads : List HeadRead
  pub respond_writes : List WriteCall
  pub packet_writes : List WriteCall
  pub end_writes : List WriteCall
  pub error_writes : List WriteCall

abbrev pub websocket_key : List ℕ
websocket_key = codes "Sec-WebSocket-Key"

abbrev pub is_parse_head : Error → Bool
is_parse_head error_parse_head = true
is_parse_head error_no = false
is_parse_head error_client_close = false
is_parse_head error_internal = false
is_parse_head error_parse_data = false
is_parse_head error_read = false
is_parse_head error_write = false

abbrev pub is_init : PacketState → Bool
is_init packet_init = true
is_init _ = false

module _ {S : Type 0} where
  -- What writeData leaves of the connection.
  abbrev pub after_write : Connection S → Written → Outcome S
  after_write c (sent_all xs) = returns true (record c { sent = c.sent ++ xs })
  after_write c (write_failed e xs) = returns false (record c { sent = c.sent ++ xs; error_ = e })
  after_write c (writing xs left) = waits

  abbrev pub after_send : Connection S → Sent → Outcome S
  after_send c overflow = crashes
  after_send c (sends p w) = after_write (record c { write_packet_ = p }) w

  -- headers_["Sec-WebSocket-Key"] makes an empty entry where there is none.
  abbrev pub touch_key : Connection S → Connection S
  touch_key c = record c {
    headers_ = insert websocket_key (lookup websocket_key c.headers_) c.headers_;
  }

  abbrev pub after_head : Connection S → Option Parsed → Outcome S
  after_head c none = waits
  after_head c (some (parsed headers)) = returns true (record c { headers_ = headers })
  after_head c (some (refused e headers)) =
      returns false (record c { headers_ = headers; error_ = e })
  after_head c (some Parsed.fault) = crashes

  abbrev pub after_packet : Connection S → Received S → Outcome S
  after_packet c (received p s) = returns true (record c { read_packet_ = p; socket_ = s })
  after_packet c (failed e p s) =
      returns false (record c { read_packet_ = p; socket_ = s; error_ = e })
  after_packet c fault = crashes

  -- state_ = ret != 0 ? STATE_ERROR : next.
  abbrev pub enter : ProcessState → Bool → Connection S → Outcome S
  enter next true c = returns true (record c { state_ = next })
  enter next false c = returns true (record c { state_ = state_error })

-- cJSON is another project's code, so what formatJson prints is an argument, as are the digest of
-- SHA-1 and base64.
module _ (socket : Socket) (sha1 base64_encode : List ℕ → List ℕ)
    (format_json : List ℕ → ℕ → List ℕ) where
  open socket use {State}

  unfoldable pub send_respond : List WriteCall → Connection State → Outcome State
  send_respond calls c =
      after_write (touch_key c)
        (write_data [] (response sha1 base64_encode (codes "101") c.headers_) calls)

  unfoldable pub send_error_respond : List WriteCall → Connection State → Outcome State
  send_error_respond calls c =
      after_write (touch_key c)
        (write_data [] (response sha1 base64_encode (codes "400") c.headers_) calls)

  unfoldable pub process_error : List WriteCall → Connection State → Outcome State
  process_error calls c =
      if is_parse_head c.error_
      then send_error_respond calls c >>= (λ ok d. returns true d)
      else returns true c

  unfoldable pub process_start : Connection State → Outcome State
  process_start c = returns true (record c { this_conn_bytes_ = 0 })

  -- formatJson and sendResult, whose return value the callers drop.
  unfoldable pub answer : ℕ → List WriteCall → Connection State → Outcome State
  answer last_result calls c =
      after_send c (send_result (format_json (codes "Websocket") last_result) c.write_packet_ calls)
      >>= (λ ok d. returns true d)

  unfoldable pub process_packet : List WriteCall → Connection State → Outcome State
  process_packet calls c =
      let p = c.read_packet_ in
      if p.opcode_ == 8 || (p.opcode_ == 1 && is_init p.state_ && p.len_ == 3)
      then returns true (
          if p.opcode_ == 8 || str_eq p.data_ (codes "EOS")
          then record c { is_final_ = true }
          else c)
      else if is_init p.state_
      then answer 0 calls
          (record c { this_conn_bytes_ = c.this_conn_bytes_ + p.len_; file = c.file ++ p.data_ })
      else returns true c

  unfoldable pub process_end : List WriteCall → Connection State → Outcome State
  process_end calls c = answer 1 calls c

  -- The blocks of handleRead.
  unfoldable pub in_head : ProcessState → Calls → Connection State → Outcome State
  in_head state_head calls c =
      after_head c (read_and_parse_head calls.head_reads [] c.headers_) >>= λ ok d.
      if ok
      then send_respond calls.respond_writes d >>= enter state_start
      else enter state_start false d
  in_head _ calls c = returns true c

  unfoldable pub in_start : ProcessState → Calls → Connection State → Outcome State
  in_start state_start calls c = process_start c >>= enter state_data
  in_start state_data calls c =
      after_packet c (read_and_parse_packet socket c.read_packet_ c.socket_) >>= λ ok d.
      if ok
      then process_packet calls.packet_writes d
        >>= (λ ok' e. enter (if e.is_final_ then state_finish else e.state_) ok' e)
      else enter state_data false d
  in_start _ calls c = returns true c

  unfoldable pub in_finish : ProcessState → Calls → Connection State → Outcome State
  in_finish state_finish calls c = process_end calls.end_writes c >>= enter state_close
  in_finish _ calls c = returns true c

  unfoldable pub in_error : ProcessState → Calls → Connection State → Outcome State
  in_error state_error calls c = process_error calls.error_writes c
  in_error _ calls c = returns true c

  unfoldable pub handle_read : Calls → Connection State → Outcome State
  handle_read calls c =
      in_head c.state_ calls c
      >>= (λ ok d. in_start d.state_ calls d)
      >>= (λ ok d. in_finish d.state_ calls d)
      >>= (λ ok d. in_error d.state_ calls d)

module _ {S : Type 0} where
  unfoldable pub handle_close : Connection S → Connection S
  handle_close c = record c { polled = false; held = false; idle = true }

  -- The loop runs handleClose at once, since handleConn runs in the loop's thread.
  unfoldable pub conn_from : ProcessState → Connection S → Connection S
  conn_from state_error c = handle_close c
  conn_from state_close c = handle_close c
  conn_from _ c = record c { events_ = bit_or c.events_ 1 }

  abbrev pub handle_conn : Connection S → Connection S
  handle_conn c = conn_from c.state_ c
