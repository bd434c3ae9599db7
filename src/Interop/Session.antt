-- ===== src/Interop/Session.antt =====
-- A connection in the state DATA at which a whole message of the client has arrived.
use dog_server.Base.{
  ℕ, ◌+◌, ◌^◌, ◌<◌, ◌≤◌, ◌≡◌, ◌≢◌, ◌⊎◌, ap, ◌∙◌, false, true, List, [], ◌++◌, length, IsBytes,
  codes, sym, refl, ap₂, inl, inr, arith,
}
use dog_server.Client.Frame.{
  DataType, wdt_mindata, wdt_txtdata, wdt_bindata, wdt_disconn, wdt_ping, wdt_pong, wdt_err,
  wdt_null, en_package,
}
use dog_server.Client.Frame.RoundTrip.{on_wire}
use dog_server.Server.Socket.{Socket}
use dog_server.Server.Packet.{Packet, IsValid, packet_init}
use dog_server.Server.Receive.{received, read_and_parse_packet}
use dog_server.Server.Receive.Decoder.{decode}
use dog_server.Server.Receive.Refinement.{read_and_parse_packet-decode}
use dog_server.Server.Receive.Delivery.{view-received}
use dog_server.Server.Receive.Whole.{Complete}
use dog_server.Server.Send.{sent_all, sends, send_result}
use dog_server.Server.Connection.{state_data, Connection, returns, Calls, handle_read}
use dog_server.Server.Connection.Message.{IsStored, handle_read-stores}
use dog_server.Interop.Upload.{opcode_of, fin_of, decode-wire}

opcode-close : (type : DataType) → type ≢ wdt_disconn → opcode_of type ≢ 8
opcode-close wdt_mindata h e = ground arith
opcode-close wdt_txtdata h e = ground arith
opcode-close wdt_bindata h e = ground arith
opcode-close wdt_disconn h e = h refl
opcode-close wdt_ping h e = ground arith
opcode-close wdt_pong h e = ground arith
opcode-close wdt_err h e = ground arith
opcode-close wdt_null h e = ground arith

opcode-text : (type : DataType) → type ≢ wdt_txtdata → opcode_of type ≢ 1
opcode-text wdt_mindata h e = ground arith
opcode-text wdt_txtdata h e = h refl
opcode-text wdt_bindata h e = ground arith
opcode-text wdt_disconn h e = ground arith
opcode-text wdt_ping h e = ground arith
opcode-text wdt_pong h e = ground arith
opcode-text wdt_err h e = ground arith
opcode-text wdt_null h e = ground arith

-- A message that is data: no CLOSE, and no text of three bytes.
abbrev pub IsData : DataType → List ℕ → Type 0
IsData type data_ = (type ≢ wdt_disconn) × ((type ≢ wdt_txtdata) ⊎ (length data_ ≢ 3))

pub Complete-IsStored :
    (p : Packet) (type : DataType) (data_ : List ℕ)
    → Complete p (opcode_of type) (fin_of type) data_
    → IsData type data_
    → IsStored p
Complete-IsStored p type data_ h (n, inl t) = (
  h.finished,
  (λ e. opcode-close type n (sym h.opcode_kept ∙ e)),
  inl (λ e. opcode-text type t (sym h.opcode_kept ∙ e)),
)
Complete-IsStored p type data_ h (n, inr t) =
    (h.finished, (λ e. opcode-close type n (sym h.opcode_kept ∙ e)), inr (λ e. t (sym h.len ∙ e)))

module _ (data_ : List ℕ) (max : ℕ) (type : DataType) (rand : ℕ → ℕ) (bytes : IsBytes data_)
    (small : length data_ < 2 ^ 31) (enough : length data_ + 14 ≤ max) (not_err : type ≢ wdt_err)
    (not_null : type ≢ wdt_null) where
  -- readAndParsePacket on the queued message.
  pub receives :
      (socket : Socket) (p : Packet) (s : socket.State)
      → IsValid p
      → p.state_ ≡ packet_init
      → socket.queued s ≡ on_wire (en_package data_ 0 max true type rand)
      → (p' : Packet) × (s' : socket.State) × (read_and_parse_packet socket p s ≡ received p' s')
        × (socket.queued s' ≡ [])
        × Complete p' (opcode_of type) (fin_of type) data_
  receives socket p s v e cut =
      let (p', run, complete) =
        decode-wire data_ max type rand bytes small enough not_err not_null p e in
      let (s', called, rest) =
        view-received socket _ p' []
          (read_and_parse_packet-decode socket p s v ∙ ap (decode p) cut ∙ run) in
      (p', s', called, rest, complete)

  -- A masked message of data, packed by the client and queued whole at a connection in the state
  -- DATA whose packet is between two frames, with an answer that is sent: one run of
  -- handleRead empties the queue, adds exactly the client's bytes to the file, sends the
  -- answer's frame, and stays in DATA.
  pub handle_read-en_package :
      (socket : Socket) (sha1 base64_encode : List ℕ → List ℕ) (format_json : List ℕ → ℕ → List ℕ)
      (calls : Calls) (c : Connection socket.State) (q : Packet) (frame : List ℕ)
      → IsData type data_
      → IsValid c.read_packet_
      → c.read_packet_.state_ ≡ packet_init
      → socket.queued c.socket_ ≡ on_wire (en_package data_ 0 max true type rand)
      → send_result (format_json (codes "Websocket") 0) c.write_packet_ calls.packet_writes
        ≡ sends q (sent_all frame)
      → (p : Packet) × (s : socket.State) × (handle_read socket sha1 base64_encode format_json calls
            (record c { state_ = state_data; is_final_ = false })
          ≡ returns true (record c {
            state_ = state_data;
            is_final_ = false;
            read_packet_ = p;
            write_packet_ = q;
            socket_ = s;
            this_conn_bytes_ = c.this_conn_bytes_ + length data_;
            file = c.file ++ data_;
            sent = c.sent ++ frame;
          }))
        × (socket.queued s ≡ [])
  handle_read-en_package socket sha1 base64_encode format_json calls c q frame d v e cut f =
      let (p, s, read, rest, whole) = receives socket c.read_packet_ c.socket_ v e cut in
      let run =
        handle_read-stores socket sha1 base64_encode format_json calls c p q s frame read
          (Complete-IsStored p type data_ whole d) f in
      (
        p,
        s,
        run
            ∙ ap₂
                (λ (bs : List ℕ) (n : ℕ). returns true (record c {
                  state_ = state_data;
                  is_final_ = false;
                  read_packet_ = p;
                  write_packet_ = q;
                  socket_ = s;
                  this_conn_bytes_ = c.this_conn_bytes_ + n;
                  file = c.file ++ bs;
                  sent = c.sent ++ frame;
                }))
                whole.content whole.len,
        rest,
      )
