-- ===== src/Tests/Arriving.antt =====
-- Results that arrive at the client in pieces.
use dog_server.Base.{ℕ, ◌≡◌, refl, true, false, List, [], ◌∷◌, ◌++◌, codes, arith}
use dog_server.Client.Frame.{
  wdt_txtdata, wdt_err, frame_type, frame_length, read_range, open_body, de_package,
}
use dog_server.Client.Transfer.{
  got, not_got, payload, no_package, no_data, gather, open_package, read_back, finish_recv,
  take_package, web_socket_recv,
}
use dog_server.Server.Send.{result_head}
use dog_server.Interop.Arrival.{web_socket_recv-result}
use dog_server.Tests.Frames.{counting}

abbrev hello : List ℕ
hello = codes "hello"

web_socket_recv-result_example :
    web_socket_recv counting 1024
      (got (result_head 5 ++ codes "he") ∷ not_got true ∷ got (codes "l") ∷ got (codes "lo") ∷ [])
    ≡ payload wdt_txtdata hello
unfolding result_head
web_socket_recv-result_example =
    web_socket_recv-result counting hello (omega arith) (omega arith) 1024 (codes "he")
      (not_got true ∷ got (codes "l") ∷ got (codes "lo") ∷ []) (omega arith) refl
      (omega arith, (omega arith, (omega arith, tt)))

-- A result as long as the caller's buffer: the end of its frame has no room, where recv returns 0.
head_has_no_room :
    web_socket_recv counting 5 (got (result_head 5 ++ codes "hel") ∷ not_got false ∷ [])
    ≡ no_data wdt_err
unfolding web_socket_recv take_package gather open_package finish_recv read_back de_package
    frame_type frame_length open_body read_range result_head
head_has_no_room = refl

-- A frame behind the first one in the same recv is lost.
second_frame_lost :
    web_socket_recv counting 1024 (got (0x81 ∷ 2 ∷ 72 ∷ 105 ∷ 0x81 ∷ 1 ∷ 33 ∷ []) ∷ [])
    ≡ payload wdt_txtdata (72 ∷ 105 ∷ [])
unfolding web_socket_recv take_package open_package finish_recv read_back de_package frame_type
    frame_length open_body read_range
second_frame_lost = refl

-- One byte of a frame is taken for data that is no frame.
first_byte_alone :
    web_socket_recv counting 1024 (got (0x81 ∷ []) ∷ got (2 ∷ 72 ∷ 105 ∷ []) ∷ [])
    ≡ no_package (0x81 ∷ [])
unfolding web_socket_recv take_package open_package de_package
first_byte_alone = refl
