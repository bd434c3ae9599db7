-- ===== src/Tests/Connecting.antt =====
-- Connections, with the identity for SHA-1 and base64 and the bare text for cJSON.
use dog_server.Base.{
  ℕ, ◌≡◌, ◌++◌, ◌+◌, ◌∷◌, refl, subst, inr, true, false, List, [], codes, str_eq, c_str, arith,
}
use dog_server.Client.Frame.{wdt_txtdata, en_package}
use dog_server.Client.Frame.RoundTrip.{on_wire}
use dog_server.Server.Socket.{queue_socket}
use dog_server.Server.Packet.{Packet, new_packet, reset, resize, error_parse_head}
use dog_server.Server.Receive.{
  received, unmask, fetch, fill, on_init, on_head_126, on_head_127, on_mask, on_data, in_init,
  in_head_126, in_head_127, in_mask, in_data, set_head, read_and_parse_packet,
}
use dog_server.Server.Receive.Valid.{new_packet-IsValid}
use dog_server.Server.Send.{
  wrote, eintr, sends, sent_all, write_data, out_len, result_head, send_result,
}
use dog_server.Server.Http.{
  got, eagain, HeadRead, Headers, cr, lf, response, tail_is, insert, lookup,
}
use dog_server.Server.Http.Fields.{http_text, insert_all}
use dog_server.Server.Connection.{
  state_head, state_data, state_error, Connection, returns, Calls, new_connection, handle_read,
  handle_conn,
}
use dog_server.Server.Connection.Grows.{Gains}
use dog_server.Server.Connection.Runs.{
  Leads, handle_read-Moves, IsSound, here, after, readable, Reaches-IsSound,
}
use dog_server.Server.Connection.Handshake.{touched, handle_read-http_text, handle_read-refused}
use dog_server.Server.Connection.Message.{handle_read-spurious}
use dog_server.Interop.Session.{handle_read-en_package}
use dog_server.Tests.Frames.{greeting, counting}

abbrev pub same_bytes : List ℕ → List ℕ
same_bytes xs = xs

abbrev pub bare_text : List ℕ → ℕ → List ℕ
bare_text xs n = xs

abbrev get_line : List ℕ
get_line = codes "GET / HTTP/1.1"

abbrev key_field : Headers
key_field = (codes "Sec-WebSocket-Key", codes "dGhl") ∷ (codes "Host", codes "a:b") ∷ []

abbrev pub joining : Connection (List ℕ)
joining = new_connection (0 ∷ 0 ∷ 0 ∷ 0 ∷ []) []

abbrev two_reads : List HeadRead
two_reads = got get_line ∷ HeadRead.eintr ∷ got (cr ∷ lf ∷ []) ∷ []

handle_read-get_line :
    handle_read queue_socket same_bytes same_bytes bare_text
      record {
        head_reads = (got get_line ∷ []) ++ (eagain ∷ []);
        respond_writes = [];
        packet_writes = [];
        end_writes = [];
        error_writes = wrote 900 ∷ [];
      }
      (record joining { state_ = state_head })
    ≡ returns true (record joining {
      state_ = state_error;
      error_ = error_parse_head;
      headers_ = touched joining.headers_;
      sent = joining.sent ++ response same_bytes same_bytes (codes "400") joining.headers_;
    })
handle_read-get_line =
    handle_read-refused queue_socket same_bytes same_bytes bare_text (got get_line ∷ []) [] [] [] []
      (wrote 900 ∷ []) joining (tt, tt) (unfold tail_is in refl) (tt, tt)
      (unfold response new_connection lookup c_str in omega arith)

handle_read-http_text_example :
    handle_read queue_socket same_bytes same_bytes bare_text
      record {
        head_reads = (got (http_text get_line key_field) ∷ []) ++ (eagain ∷ []);
        respond_writes = eintr ∷ wrote 900 ∷ [];
        packet_writes = [];
        end_writes = [];
        error_writes = [];
      }
      (record joining { state_ = state_head })
    ≡ returns true (record joining {
      state_ = state_data;
      headers_ = touched (insert_all key_field joining.headers_);
      sent =
          joining.sent
          ++ response same_bytes same_bytes (codes "101") (insert_all key_field joining.headers_);
      this_conn_bytes_ = 0;
    })
handle_read-http_text_example =
    handle_read-http_text queue_socket same_bytes same_bytes bare_text
      (got (http_text get_line key_field) ∷ []) [] get_line key_field (eintr ∷ wrote 900 ∷ []) [] []
      [] joining (tt, tt) refl (omega arith) (omega arith) (tt, (tt, tt))
      (unfold response new_connection lookup insert str_eq c_str in omega arith)

abbrev pub no_calls : Calls
no_calls = record {
  head_reads = [];
  respond_writes = [];
  packet_writes = wrote 99 ∷ [];
  end_writes = wrote 99 ∷ [];
  error_writes = [];
}

handle_read-Moves_example :
    Gains
      (record joining { state_ = state_head })
      (Leads state_head)
      (returns true (record joining {
        state_ = state_data;
        headers_ = touched (insert_all key_field joining.headers_);
        sent =
            joining.sent
            ++ response same_bytes same_bytes (codes "101") (insert_all key_field joining.headers_);
        this_conn_bytes_ = 0;
      }))
handle_read-Moves_example =
    subst (Gains (record joining { state_ = state_head }) (Leads state_head))
      handle_read-http_text_example
      (handle_read-Moves queue_socket same_bytes same_bytes bare_text
        record {
          head_reads = (got (http_text get_line key_field) ∷ []) ++ (eagain ∷ []);
          respond_writes = eintr ∷ wrote 900 ∷ [];
          packet_writes = [];
          end_writes = [];
          error_writes = [];
        }
        (record joining { state_ = state_head }))

Reaches-IsSound_example : IsSound (
    handle_conn (record joining {
      state_ = state_error;
      error_ = error_parse_head;
      headers_ = touched joining.headers_;
      sent = joining.sent ++ response same_bytes same_bytes (codes "400") joining.headers_;
    }))
unfolding new_connection
Reaches-IsSound_example =
    Reaches-IsSound queue_socket same_bytes same_bytes bare_text (0 ∷ 0 ∷ 0 ∷ 0 ∷ []) []
      (after here (readable _ true _ refl handle_read-get_line refl))

abbrev answer_frame : List ℕ
answer_frame = 0x81 ∷ 9 ∷ codes "Websocket"

abbrev answer_packet : Packet
answer_packet = record (new_packet (0 ∷ 0 ∷ 0 ∷ 0 ∷ [])) {
  data_ = answer_frame;
  len_ = 11;
  size_ = 11;
}

answers :
    (n : ℕ)
    → send_result (bare_text (codes "Websocket") n) joining.write_packet_ (wrote 99 ∷ [])
      ≡ sends answer_packet (sent_all answer_frame)
unfolding send_result resize out_len result_head write_data new_packet new_connection
answers n = refl

abbrev served : List ℕ → Connection (List ℕ)
served queue = record joining { state_ = state_data; socket_ = queue }

handle_read-spurious_example :
    handle_read queue_socket same_bytes same_bytes bare_text no_calls
      (record (served (0x81 ∷ [])) { state_ = state_data; is_final_ = false })
    ≡ returns true (record (served (0x81 ∷ [])) {
      state_ = state_data;
      is_final_ = false;
      read_packet_ = reset joining.read_packet_;
      write_packet_ = answer_packet;
      sent = joining.sent ++ answer_frame;
    })
handle_read-spurious_example =
    handle_read-spurious queue_socket same_bytes same_bytes bare_text no_calls (served (0x81 ∷ []))
      answer_packet answer_frame (unfold new_connection new_packet in refl) (omega arith)
      (answers 0)

abbrev close_packet : Packet
close_packet = record (new_packet (0 ∷ 0 ∷ 0 ∷ 0 ∷ [])) {
  fin_ = 1;
  opcode_ = 8;
  mask_ = 1;
  head_size_ = 6;
}

close_read :
    read_and_parse_packet queue_socket joining.read_packet_ (0x88 ∷ 0x80 ∷ 0 ∷ 0 ∷ 0 ∷ 0 ∷ [])
    ≡ received close_packet []
unfolding new_connection new_packet read_and_parse_packet in_init in_head_126 in_head_127 in_mask
    in_data on_init on_head_126 on_head_127 on_mask on_data fetch fill reset set_head resize unmask
close_read = refl

handle_read-en_package_example :
    (p : Packet) × (s : List ℕ) × (handle_read queue_socket same_bytes same_bytes bare_text no_calls
        (record (served (on_wire (en_package greeting 0 100 true wdt_txtdata counting))) {
          state_ = state_data;
          is_final_ = false;
        })
      ≡ returns true
          (record (served (on_wire (en_package greeting 0 100 true wdt_txtdata counting))) {
            state_ = state_data;
            is_final_ = false;
            read_packet_ = p;
            write_packet_ = answer_packet;
            socket_ = s;
            this_conn_bytes_ = joining.this_conn_bytes_ + 2;
            file = joining.file ++ greeting;
            sent = joining.sent ++ answer_frame;
          }))
    × (s ≡ [])
handle_read-en_package_example =
    handle_read-en_package greeting 100 wdt_txtdata counting (omega arith) (omega arith)
      (omega arith) (λ e. ground arith) (λ e. ground arith) queue_socket same_bytes same_bytes
      bare_text no_calls (served (on_wire (en_package greeting 0 100 true wdt_txtdata counting)))
      answer_packet answer_frame ((λ e. ground arith), inr (λ e. ground arith))
      (unfold new_connection in new_packet-IsValid _) (unfold new_connection new_packet in refl)
      refl (answers 0)

abbrev three_bytes : List ℕ
three_bytes = 0x81 ∷ 0x83 ∷ 0 ∷ 0 ∷ 0 ∷ 0 ∷ 97 ∷ 98 ∷ 99 ∷ []

abbrev abc_packet : Packet
abc_packet = record (new_packet (0 ∷ 0 ∷ 0 ∷ 0 ∷ [])) {
  data_ = codes "abc";
  len_ = 3;
  size_ = 3;
  body_size_ = 3;
  fin_ = 1;
  opcode_ = 1;
  mask_ = 1;
  head_size_ = 6;
}

abc_read :
    read_and_parse_packet queue_socket joining.read_packet_ three_bytes ≡ received abc_packet []
unfolding new_connection new_packet read_and_parse_packet in_init in_head_126 in_head_127 in_mask
    in_data on_init on_head_126 on_head_127 on_mask on_data fetch fill reset set_head resize unmask
abc_read = refl
