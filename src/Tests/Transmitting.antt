-- ===== src/Tests/Transmitting.antt =====
-- A file of two bytes from the client to the server's file.
use dog_server.Base.{ℕ, ◌≡◌, ◌++◌, ◌+◌, refl, some, false, List, [], ◌∷◌, arith}
use dog_server.Client.Program.{send_file}
use dog_server.Server.Packet.{new_packet}
use dog_server.Server.Receive.Valid.{new_packet-IsValid}
use dog_server.Server.Connection.{state_data, state_close, Connection, new_connection}
use dog_server.Interop.Transmission.{Answers, serve, serve-send_file}
use dog_server.Tests.Frames.{greeting}
use dog_server.Tests.Connecting.{same_bytes, bare_text, no_calls, joining}

abbrev counting_on : ℕ → ℕ → ℕ
counting_on i k = i + k

answers : Answers same_bytes same_bytes bare_text no_calls
answers = record {
  middle_short = omega arith;
  final_short = omega arith;
  middle_retries = (tt, tt);
  final_retries = (tt, tt);
  middle_taken = omega arith;
  final_taken = omega arith;
}

serve-send_file_example :
    (d : Connection (List ℕ)) × (serve same_bytes same_bytes bare_text no_calls
        (send_file counting_on greeting)
        (record joining { state_ = state_data; is_final_ = false; socket_ = [] })
      ≡ some d)
    × (d.file ≡ joining.file ++ greeting)
    × (d.state_ ≡ state_close)
    × (d.socket_ ≡ [])
serve-send_file_example =
    serve-send_file same_bytes same_bytes bare_text no_calls answers counting_on greeting joining
      (omega arith) (omega arith) (unfold new_connection in new_packet-IsValid (0 ∷ 0 ∷ 0 ∷ 0 ∷ []))
      (unfold new_connection new_packet in refl)
