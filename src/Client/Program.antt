-- ===== src/Client/Program.antt =====
-- What SendThread of bin/dog-client.cc sends over one connection: a file in pieces, and "EOS".
pub mod Wire
pub mod Senders
pub mod Listing
use dog_server.Base.{ℕ, zero, suc, ◌+◌, true, List, [], ◌∷◌, ◌++◌, length, take, drop, codes}
use dog_server.Client.Frame.{wdt_txtdata}
use dog_server.Client.Transfer.{Outgoing, web_socket_send}

abbrev pub piece_size : ℕ
piece_size = 1000

-- What fread gives of a file, call after call, until it gives nothing.
unfoldable pub pieces : ℕ → List ℕ → List (List ℕ)
pieces zero file = []
pieces (suc fuel) [] = []
pieces (suc fuel) (c ∷ file) = take piece_size (c ∷ file) ∷ pieces fuel (drop piece_size (c ∷ file))

-- `rands i` is what rand returns for message `i`.
unfoldable pub send_each : (ℕ → ℕ → ℕ) → ℕ → List (List ℕ) → List Outgoing
send_each rands i [] = []
send_each rands i (t ∷ texts) =
    web_socket_send t true wdt_txtdata (rands i) ∷ send_each rands (i + 1) texts

abbrev pub end_text : List ℕ
end_text = codes "EOS"

unfoldable pub send_file : (ℕ → ℕ → ℕ) → List ℕ → List Outgoing
send_file rands file = send_each rands 0 (pieces (length file) file ++ (end_text ∷ []))
