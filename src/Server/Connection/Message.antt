-- ===== src/Server/Connection/Message.antt =====
-- What handleRead does with a packet in the state DATA.
use dog_server.Base.{
  ℕ, ◌+◌, ◌<◌, ◌≡◌, ◌≢◌, ◌⊎◌, inl, inr, refl, ap, ◌∙◌, Bool-cases, true, false, List, ◌++◌, codes,
  str_eq, str_eq_sound, lt→ltb, append-nil, arith,
}
use dog_server.Server.Socket.{Socket}
use dog_server.Server.Packet.{packet_init, Packet, reset}
use dog_server.Server.Receive.{
  received, finish, ◌>>=◌, from_head_126, on_init, in_init, read_and_parse_packet,
}
use dog_server.Server.Send.{WriteCall, sent_all, sends, send_result}
use dog_server.Server.Connection.{
  state_data, state_finish, state_close, Connection, returns, Calls, answer, process_packet,
  process_end, in_head, in_start, in_finish, in_error, handle_read,
}

-- A packet that asks for the end of the connection: CLOSE, or a whole text "EOS".
abbrev pub IsEnd : Packet → Type 0
IsEnd p =
    (p.opcode_ ≡ 8)
    ⊎ ((p.opcode_ ≡ 1) × (p.state_ ≡ packet_init) × (p.len_ ≡ 3) × (p.data_ ≡ codes "EOS"))

-- A whole packet that is stored: not CLOSE, and not a text of three bytes.
abbrev pub IsStored : Packet → Type 0
IsStored p = (p.state_ ≡ packet_init) × (p.opcode_ ≢ 8) × ((p.opcode_ ≢ 1) ⊎ (p.len_ ≢ 3))

-- A packet that is not whole yet, and not CLOSE.
abbrev pub IsPartial : Packet → Type 0
IsPartial p = (p.state_ ≢ packet_init) × (p.opcode_ ≢ 8)

module _ (socket : Socket) (sha1 base64_encode : List ℕ → List ℕ)
    (format_json : List ℕ → ℕ → List ℕ) where
  open socket use {State, fionread}

  answer-sends :
      (n : ℕ) (calls : List WriteCall) (c : Connection State) (q : Packet) (frame : List ℕ)
      → send_result (format_json (codes "Websocket") n) c.write_packet_ calls
        ≡ sends q (sent_all frame)
      → answer socket sha1 base64_encode format_json n calls c
        ≡ returns true (record c { write_packet_ = q; sent = c.sent ++ frame })
  unfolding answer
  answer-sends n calls c q frame e = rw e refl

  process_packet-stores :
      (calls : List WriteCall) (c : Connection State)
      → IsStored c.read_packet_
      → process_packet socket sha1 base64_encode format_json calls c
        ≡ answer socket sha1 base64_encode format_json 0 calls (record c {
          this_conn_bytes_ = c.this_conn_bytes_ + c.read_packet_.len_;
          file = c.file ++ c.read_packet_.data_;
        })
  unfolding process_packet
  process_packet-stores calls c h = ground arith

  process_packet-partial :
      (calls : List WriteCall) (c : Connection State)
      → IsPartial c.read_packet_
      → process_packet socket sha1 base64_encode format_json calls c ≡ returns true c
  unfolding process_packet
  process_packet-partial calls c h = ground arith

  process_packet-ends :
      (calls : List WriteCall) (c : Connection State)
      → IsEnd c.read_packet_
      → process_packet socket sha1 base64_encode format_json calls c
        ≡ returns true (record c { is_final_ = true })
  unfolding process_packet str_eq
  process_packet-ends calls c h = ground arith

  -- In the state DATA, a call of readAndParsePacket that completes a packet to store, with an
  -- answer that is sent: the payload is added to the file and to the count of bytes, and
  -- the answer's frame to what is sent, and the state stays DATA.
  pub handle_read-stores :
      (calls : Calls) (c : Connection State) (p q : Packet) (s : State) (frame : List ℕ)
      → read_and_parse_packet socket c.read_packet_ c.socket_ ≡ received p s
      → IsStored p
      → send_result (format_json (codes "Websocket") 0) c.write_packet_ calls.packet_writes
        ≡ sends q (sent_all frame)
      → handle_read socket sha1 base64_encode format_json calls
          (record c { state_ = state_data; is_final_ = false })
        ≡ returns true (record c {
          state_ = state_data;
          is_final_ = false;
          read_packet_ = p;
          write_packet_ = q;
          socket_ = s;
          this_conn_bytes_ = c.this_conn_bytes_ + p.len_;
          file = c.file ++ p.data_;
          sent = c.sent ++ frame;
        })
  unfolding handle_read in_head in_start in_finish in_error
  handle_read-stores calls c p q s frame read h e =
      let d = record c { state_ = state_data; is_final_ = false; read_packet_ = p; socket_ = s } in
      let stores = process_packet-stores calls.packet_writes d h in
      let answers =
        answer-sends 0 calls.packet_writes
          (record d { this_conn_bytes_ = c.this_conn_bytes_ + p.len_; file = c.file ++ p.data_ }) q
          frame e in
      rw (read, stores, answers) refl

  -- In the state DATA, a call that leaves a packet unfinished stores and sends nothing.
  pub handle_read-partial :
      (calls : Calls) (c : Connection State) (p : Packet) (s : State)
      → read_and_parse_packet socket c.read_packet_ c.socket_ ≡ received p s
      → IsPartial p
      → handle_read socket sha1 base64_encode format_json calls
          (record c { state_ = state_data; is_final_ = false })
        ≡ returns true
            (record c { state_ = state_data; is_final_ = false; read_packet_ = p; socket_ = s })
  unfolding handle_read in_head in_start in_finish in_error
  handle_read-partial calls c p s read h =
      let d = record c { state_ = state_data; is_final_ = false; read_packet_ = p; socket_ = s } in
      rw (read, process_packet-partial calls.packet_writes d h) refl

  -- In the state DATA, a call of readAndParsePacket that leaves a packet that asks for the end,
  -- with a final answer that is sent: its frame is added to what is sent, nothing is stored,
  -- and the connection is in the state CLOSE.
  pub handle_read-ends :
      (calls : Calls) (c : Connection State) (p q : Packet) (s : State) (frame : List ℕ)
      → read_and_parse_packet socket c.read_packet_ c.socket_ ≡ received p s
      → IsEnd p
      → send_result (format_json (codes "Websocket") 1) c.write_packet_ calls.end_writes
        ≡ sends q (sent_all frame)
      → handle_read socket sha1 base64_encode format_json calls (record c { state_ = state_data })
        ≡ returns true (record c {
          state_ = state_close;
          is_final_ = true;
          read_packet_ = p;
          write_packet_ = q;
          socket_ = s;
          sent = c.sent ++ frame;
        })
  unfolding handle_read in_head in_start in_finish in_error process_end
  handle_read-ends calls c p q s frame read h e =
      let d = record c { state_ = state_data; read_packet_ = p; socket_ = s } in
      let final = process_packet-ends calls.packet_writes d h in
      let answers =
        answer-sends 1 calls.end_writes (record d { is_final_ = true; state_ = state_finish }) q
          frame e in
      rw (read, final, answers) refl

  no_frame :
      (p : Packet) (s : State)
      → p.state_ ≡ packet_init
      → fionread s < 2
      → read_and_parse_packet socket p s ≡ received (reset p) s
  unfolding read_and_parse_packet in_init on_init
  no_frame p s e h =
      ap (λ st. finish (in_init socket st p (fionread s) s >>= from_head_126 socket)) e
      ∙ rw (lt→ltb (fionread s) 2 h) refl

  -- A message that is not there: in the state DATA, with the packet between two frames and
  -- fewer than two bytes queued, handleRead stores nothing and sends an answer all the same,
  -- where writes take it.
  pub handle_read-spurious :
      (calls : Calls) (c : Connection State) (q : Packet) (frame : List ℕ)
      → c.read_packet_.state_ ≡ packet_init
      → fionread c.socket_ < 2
      → send_result (format_json (codes "Websocket") 0) c.write_packet_ calls.packet_writes
        ≡ sends q (sent_all frame)
      → handle_read socket sha1 base64_encode format_json calls
          (record c { state_ = state_data; is_final_ = false })
        ≡ returns true (record c {
          state_ = state_data;
          is_final_ = false;
          read_packet_ = reset c.read_packet_;
          write_packet_ = q;
          sent = c.sent ++ frame;
        })
  unfolding reset
  handle_read-spurious calls c q frame e h f =
      let whole =
        handle_read-stores calls c (reset c.read_packet_) q c.socket_ frame
          (no_frame c.read_packet_ c.socket_ e h)
          (refl, (λ z. ground arith), inl (λ z. ground arith)) f in
      let same : c.this_conn_bytes_ + 0 ≡ c.this_conn_bytes_ = omega arith in
      rw (append-nil, same) at whole

  process_packet-drops :
      (calls : List WriteCall) (c : Connection State)
      → c.read_packet_.opcode_ ≡ 1
      → c.read_packet_.state_ ≡ packet_init
      → c.read_packet_.len_ ≡ 3
      → str_eq c.read_packet_.data_ (codes "EOS") ≡ false
      → process_packet socket sha1 base64_encode format_json calls c ≡ returns true c
  unfolding process_packet
  process_packet-drops calls c t i l d = ground arith

  -- In the state DATA, a call of readAndParsePacket that completes a text of three bytes other
  -- than "EOS": the bytes are not stored, no answer is sent, and the connection goes on.
  pub handle_read-drops :
      (calls : Calls) (c : Connection State) (p : Packet) (s : State)
      → read_and_parse_packet socket c.read_packet_ c.socket_ ≡ received p s
      → p.opcode_ ≡ 1
      → p.state_ ≡ packet_init
      → p.len_ ≡ 3
      → p.data_ ≢ codes "EOS"
      → handle_read socket sha1 base64_encode format_json calls
          (record c { state_ = state_data; is_final_ = false })
        ≡ returns true
            (record c { state_ = state_data; is_final_ = false; read_packet_ = p; socket_ = s })
  unfolding handle_read in_head in_start in_finish in_error
  handle_read-drops calls c p s read t i l d =
      let e = record c { state_ = state_data; is_final_ = false; read_packet_ = p; socket_ = s } in
      let other : str_eq p.data_ (codes "EOS") ≡ false =
        elim (Bool-cases (str_eq p.data_ (codes "EOS"))) [
          | inl same ↦ absurd (d (str_eq_sound p.data_ (codes "EOS") same))
          | inr apart ↦ apart
        ] in
      rw (read, process_packet-drops calls.packet_writes e t i l other) refl
