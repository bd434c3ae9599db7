-- ===== src/Interop/Transmission.antt =====
-- A whole file from SendThread to the server's file.
use dog_server.Base.{
  ℕ, ◌+◌, ◌%◌, ◌<◌, ◌≤◌, ◌≡◌, ◌≢◌, inl, inr, refl, sym, ap, ◌∙◌, subst, true, false, Option, none,
  some, List, [], ◌∷◌, ◌++◌, append_assoc, append-nil, length, All, IsBytes, codes, arith,
}
use dog_server.Client.Frame.{wdt_txtdata, en_package}
use dog_server.Client.Frame.RoundTrip.{on_wire}
use dog_server.Client.Transfer.{Outgoing, sent, overrun, web_socket_send}
use dog_server.Client.Program.{pieces, send_each, end_text, send_file}
use dog_server.Client.Program.Wire.{
  web_socket_send-on_wire, concat, concat-pieces, IsPiece, pieces-IsPiece,
}
use dog_server.Server.Socket.{queue_socket}
use dog_server.Server.Packet.{IsValid, packet_init}
use dog_server.Server.Receive.Valid.{LeavesValid, read_and_parse_packet-IsValid}
use dog_server.Server.Send.Write.{Retries, taken}
use dog_server.Server.Connection.{
  state_data, state_close, Connection, Outcome, returns, waits, crashes, Calls, handle_read,
}
use dog_server.Server.Connection.Message.{handle_read-stores, handle_read-ends}
use dog_server.Interop.Session.{receives, Complete-IsStored}
use dog_server.Interop.Download.{de_package-send_result}

module _ (sha1 base64_encode : List ℕ → List ℕ) (format_json : List ℕ → ℕ → List ℕ)
    (calls : Calls) where
  abbrev Conn : Type 0
  Conn = Connection (List ℕ)

  -- handleRead each time that one more frame is in the queue; `none` where it does not return.
  abbrev and_then : Outcome (List ℕ) → (Conn → Option Conn) → Option Conn
  and_then (returns ok c) k = k c
  and_then waits k = none
  and_then crashes k = none

  abbrev arrives : Outgoing → Conn → (Conn → Option Conn) → Option Conn
  arrives overrun c k = none
  arrives (sent bytes) c k =
      and_then
        (handle_read queue_socket sha1 base64_encode format_json calls
          (record c { socket_ = c.socket_ ++ bytes }))
        k

  unfoldable pub serve : List Outgoing → Conn → Option Conn
  serve [] c = some c
  serve (m ∷ ms) c = arrives m c (serve ms)

  -- The answers are short, and the calls of write take them.
  pub record Answers : Type 0 where
    pub middle_short : length (format_json (codes "Websocket") 0) < 0xFFFF
    pub final_short : length (format_json (codes "Websocket") 1) < 0xFFFF
    pub middle_retries : All Retries calls.packet_writes
    pub final_retries : All Retries calls.end_writes
    pub middle_taken : length (format_json (codes "Websocket") 0) + 10 ≤ taken calls.packet_writes
    pub final_taken : length (format_json (codes "Websocket") 1) + 10 ≤ taken calls.end_writes

  -- A connection between two messages.
  abbrev between : Conn → Conn
  between c = record c { state_ = state_data; is_final_ = false; socket_ = [] }

  abbrev IsReady : Conn → Type 0
  IsReady c = IsValid c.read_packet_ × (c.read_packet_.state_ ≡ packet_init)

  module _ (answers : Answers) where
    -- One piece.
    piece-stored :
        (t : List ℕ) (rand : ℕ → ℕ) (c : Conn) (k : Conn → Option Conn)
        → IsPiece t
        → IsReady c
        → (d : Conn) × (arrives (web_socket_send t true wdt_txtdata rand) (between c) k
            ≡ k (between d))
          × IsReady d
          × (d.file ≡ c.file ++ t)
    piece-stored t rand c k (short, not_three, bytes) (valid, init) =
        let wire = on_wire (en_package t 0 (length t + 128) true wdt_txtdata rand) in
        let (p, s, run, rest, whole) =
          receives t (length t + 128) wdt_txtdata rand bytes (omega (arith, short)) (omega arith)
            (λ e. ground arith) (λ e. ground arith) queue_socket c.read_packet_ wire valid init
            refl in
        let valid' : IsValid p =
          subst (LeavesValid {S = List ℕ}) run
            (read_and_parse_packet-IsValid queue_socket c.read_packet_ wire valid) in
        let stored = Complete-IsStored p wdt_txtdata t whole ((λ e. ground arith), inr not_three) in
        let result = format_json (codes "Websocket") 0 in
        let (q, frame, answer, _) =
          de_package-send_result result c.write_packet_ calls.packet_writes (length result + 1)
            (omega (arith, answers.middle_short)) (inl answers.middle_short) answers.middle_retries
            answers.middle_taken (omega arith) in
        let handled =
          handle_read-stores queue_socket sha1 base64_encode format_json calls
            (record c { socket_ = wire }) p q s frame run stored answer in
        let d : Conn = record c {
          read_packet_ = p;
          write_packet_ = q;
          this_conn_bytes_ = c.this_conn_bytes_ + p.len_;
          file = c.file ++ p.data_;
          sent = c.sent ++ frame;
        } in
        (
          d,
          ap (λ m. arrives m (between c) k) (web_socket_send-on_wire t rand (omega (arith, short)))
              ∙ ap (λ o. and_then o k) handled
              ∙ ap
                  (λ (x : List ℕ).
                    k (record d { state_ = state_data; is_final_ = false; socket_ = x }))
                  rest,
          (valid', whole.finished),
          ap (λ (x : List ℕ). c.file ++ x) whole.content,
        )

    pieces-stored :
        (rands : ℕ → ℕ → ℕ) (ts rest : List (List ℕ)) (i : ℕ) (c : Conn)
        → All IsPiece ts
        → IsReady c
        → (j : ℕ) × (d : Conn) × (serve (send_each rands i (ts ++ rest)) (between c)
            ≡ serve (send_each rands j rest) (between d))
          × IsReady d
          × (d.file ≡ c.file ++ concat ts)
    unfolding serve send_each
    pieces-stored rands [] rest i c h ready = (i, c, refl, ready, sym (append-nil c.file))
    pieces-stored rands (t ∷ ts) rest i c h ready =
        let (d, step, ready', file) =
          piece-stored t (rands i) c (serve (send_each rands (i + 1) (ts ++ rest))) h.0 ready in
        let (j, e, steps, ready'', files) = pieces-stored rands ts rest (i + 1) d h.1 ready' in
        (
          j,
          e,
          step ∙ steps,
          ready'',
          files ∙ ap (λ (x : List ℕ). x ++ concat ts) file ∙ append_assoc c.file t (concat ts),
        )

    end-closes :
        (rand : ℕ → ℕ) (c : Conn)
        → IsReady c
        → (d : Conn) × (arrives (web_socket_send end_text true wdt_txtdata rand) (between c) some
            ≡ some d)
          × (d.file ≡ c.file)
          × (d.state_ ≡ state_close)
          × (d.socket_ ≡ [])
    end-closes rand c (valid, init) =
        let wire = on_wire (en_package end_text 0 (length end_text + 128) true wdt_txtdata rand) in
        let (p, s, run, rest, whole) =
          receives end_text 131 wdt_txtdata rand (omega arith) (omega arith) (omega arith)
            (λ e. ground arith) (λ e. ground arith) queue_socket c.read_packet_ wire valid init
            refl in
        let result = format_json (codes "Websocket") 1 in
        let (q, frame, answer, _) =
          de_package-send_result result c.write_packet_ calls.end_writes (length result + 1)
            (omega (arith, answers.final_short)) (inl answers.final_short) answers.final_retries
            answers.final_taken (omega arith) in
        let handled =
          handle_read-ends queue_socket sha1 base64_encode format_json calls
            (record c { is_final_ = false; socket_ = wire }) p q s frame run
            (inr (whole.opcode_kept, whole.finished, whole.len, whole.content)) answer in
        (
          _,
          ap (λ m. arrives m (between c) some) (web_socket_send-on_wire end_text rand (omega arith))
              ∙ ap (λ o. and_then o some) handled,
          refl,
          refl,
          rest,
        )

    -- A file of bytes that SendThread sends in pieces of 1000 over a connection in the state DATA
    -- between two messages, each message in the server's queue as one, where the server's answers are
    -- short and the calls of write take them: if the last piece has not exactly three bytes, the
    -- server's file has grown by the whole file after the message "EOS", the queue is empty and the
    -- connection is in the state CLOSE.
    pub serve-send_file :
        (rands : ℕ → ℕ → ℕ) (file : List ℕ) (c : Conn)
        → IsBytes file
        → length file % 1000 ≢ 3
        → IsValid c.read_packet_
        → c.read_packet_.state_ ≡ packet_init
        → (d : Conn) × (serve
              (send_file rands file)
              (record c { state_ = state_data; is_final_ = false; socket_ = [] })
            ≡ some d)
          × (d.file ≡ c.file ++ file)
          × (d.state_ ≡ state_close)
          × (d.socket_ ≡ [])
    unfolding send_file serve send_each
    serve-send_file rands file c bytes last valid init =
        let enough : length file ≤ length file = omega arith in
        let (j, d, steps, ready, files) =
          pieces-stored rands (pieces (length file) file) (end_text ∷ []) 0 c
            (pieces-IsPiece (length file) file enough bytes last) (valid, init) in
        let (e, end, same, closed, empty) = end-closes (rands j) d ready in
        (
          e,
          steps ∙ end,
          same ∙ files ∙ ap (λ (x : List ℕ). c.file ++ x) (concat-pieces (length file) file enough),
          closed,
          empty,
        )
