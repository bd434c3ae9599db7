-- ===== src/Tests/Sending.antt =====
-- The server's sending side.
use dog_server.Base.{ℕ, ◌≡◌, refl, List, [], ◌∷◌, length, replicate, length-replicate, arith}
use dog_server.Server.Packet.{error_write, new_packet}
use dog_server.Server.Send.{
  WriteCall, wrote, eintr, eagain, other_errno, write_failed, overflow, write_data, send_result,
}
use dog_server.Server.Send.Write.{Accounts, write_data-Accounts}
use dog_server.Server.Send.Frame.{send_result_overflow}
use dog_server.Tests.Frames.{greeting}

abbrev some_calls : List WriteCall
some_calls = eintr ∷ wrote 3 ∷ eagain ∷ wrote 9 ∷ []

send_short :
    write_data [] (1 ∷ 2 ∷ 3 ∷ []) (wrote 2 ∷ eagain ∷ other_errno ∷ [])
    ≡ write_failed error_write (1 ∷ 2 ∷ [])
unfolding write_data
send_short = refl

write_data-Accounts_example : Accounts greeting (write_data [] greeting some_calls)
write_data-Accounts_example = write_data-Accounts greeting some_calls

long_result : List ℕ
long_result = replicate 65535 65

length-long_result : length long_result ≡ 65535
unfolding long_result
length-long_result = length-replicate {A = ℕ} 65535 65

send_result_overflow_example : send_result long_result (new_packet []) [] ≡ overflow
send_result_overflow_example =
    send_result_overflow long_result (new_packet []) [] (omega (arith, length-long_result))
      (omega (arith, length-long_result)) (unfold new_packet in omega (arith, length-long_result))
