-- ===== src/Tests/Receiving.antt =====
-- The server's receiving side, over the socket that is its queue.
use dog_server.Base.{◌≡◌, refl, true, List, [], ◌∷◌, ◌++◌, arith}
use dog_server.Client.Frame.{
  wdt_txtdata, get_random_string, random_byte, exclusive_or, mask_loop, en_package,
}
use dog_server.Client.Frame.RoundTrip.{on_wire}
use dog_server.Server.Socket.{queue_socket}
use dog_server.Server.Packet.{Packet, packet_init, new_packet, reset, resize}
use dog_server.Server.Receive.{
  received, unmask, fetch, fill, on_init, on_head_126, on_head_127, on_mask, on_data, in_init,
  in_head_126, in_head_127, in_mask, in_data, set_head, read_and_parse_packet,
}
use dog_server.Server.Receive.Decoder.{
  need, decode, decode_from, decode_init, decode_at, decode_mask, decode_data, decode_fill,
}
use dog_server.Server.Receive.Refinement.{view, read_and_parse_packet-decode}
use dog_server.Server.Receive.Valid.{LeavesValid, new_packet-IsValid, read_and_parse_packet-IsValid}
use dog_server.Server.Receive.Delivery.{Piece, joined, deliver, deliver-decode}
use dog_server.Server.Receive.Whole.{Finishes}
use dog_server.Interop.Upload.{deliver-en_package}
use dog_server.Tests.Frames.{counting, greeting}

abbrev fresh : Packet
fresh = new_packet (7 ∷ 7 ∷ 7 ∷ 7 ∷ [])

abbrev first_piece : Piece
first_piece = (0x81, [])

abbrev later_pieces : List Piece
later_pieces = (0x82, 128 ∷ 1 ∷ []) ∷ (2, 3 ∷ 200 ∷ []) ∷ (104, []) ∷ []

pieces_cut :
    joined (first_piece ∷ later_pieces)
    ≡ on_wire (en_package greeting 0 100 true wdt_txtdata counting)
unfolding en_package get_random_string random_byte mask_loop exclusive_or
pieces_cut = refl

deliver-en_package_example :
    Finishes
      (view queue_socket
        (deliver queue_socket ◌++◌ (λ s xs. refl) fresh [] (first_piece ∷ later_pieces)))
      1
      1
      greeting
deliver-en_package_example =
    deliver-en_package greeting 100 wdt_txtdata counting (omega arith) (omega arith) (omega arith)
      (λ e. ground arith) (λ e. ground arith) queue_socket ◌++◌ (λ s xs. refl) fresh [] first_piece
      later_pieces (new_packet-IsValid _) (unfold new_packet in refl) refl pieces_cut

read_and_parse_packet-decode_example :
    view queue_socket (read_and_parse_packet queue_socket fresh (0x81 ∷ 0x82 ∷ 9 ∷ []))
    ≡ decode fresh (0x81 ∷ 0x82 ∷ 9 ∷ [])
read_and_parse_packet-decode_example =
    read_and_parse_packet-decode queue_socket fresh (0x81 ∷ 0x82 ∷ 9 ∷ []) (new_packet-IsValid _)

read_and_parse_packet-IsValid_example :
    LeavesValid (read_and_parse_packet queue_socket fresh (0x81 ∷ 0x82 ∷ 9 ∷ []))
read_and_parse_packet-IsValid_example =
    read_and_parse_packet-IsValid queue_socket fresh (0x81 ∷ 0x82 ∷ 9 ∷ []) (new_packet-IsValid _)

abbrev greeting_packet : Packet
greeting_packet = record {
  data_ = greeting;
  len_ = 2;
  size_ = 2;
  fin_ = 1;
  opcode_ = 1;
  mask_ = 1;
  masking_key_ = 128 ∷ 1 ∷ 2 ∷ 3 ∷ [];
  body_size_ = 2;
  head_size_ = 6;
  state_ = packet_init;
}

decode_greeting :
    decode fresh ([] ++ joined (first_piece ∷ later_pieces)) ≡ received greeting_packet []
unfolding new_packet decode_from decode_init reset set_head decode_at decode_mask decode_data
    decode_fill need resize unmask
decode_greeting = refl

deliver-decode_example :
    view queue_socket
      (deliver queue_socket ◌++◌ (λ s xs. refl) fresh [] (first_piece ∷ later_pieces))
    ≡ received greeting_packet []
deliver-decode_example =
    deliver-decode queue_socket ◌++◌ (λ s xs. refl) fresh greeting_packet [] first_piece
      later_pieces (new_packet-IsValid _) decode_greeting

-- Byte by byte, by the code itself.
deliver_runs :
    deliver queue_socket ◌++◌ (λ s xs. refl) fresh [] (first_piece ∷ later_pieces)
    ≡ received greeting_packet []
unfolding deliver new_packet read_and_parse_packet in_init in_head_126 in_head_127 in_mask in_data
    on_init on_head_126 on_head_127 on_mask on_data fetch fill reset set_head resize unmask
deliver_runs = refl
