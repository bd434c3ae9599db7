-- ===== src/Interop/Arrival.antt =====
-- A result of sendResult that arrives at webSocket_recv in pieces.
use dog_server.Base.{
  ℕ, ◌+◌, ◌^◌, ◌<◌, ◌≤◌, ◌≡◌, refl, sym, ap, ◌∙◌, Bool-cases, inl, inr, true, false, some, List, [],
  ◌∷◌, ◌++◌, append_assoc, ltb, leb, lt→ltb, le→not_ltb, ◌==◌, length, take, take-append, replicate,
  length-append, u32, arith,
}
use dog_server.Client.Frame.{DataType, wdt_txtdata, wdt_err, unpacked, open_body, de_package}
use dog_server.Client.Transfer.{
  RecvCall, got, payload, whole, recv_patience, read_back, finish_recv, after_gather, first_package,
  take_package, web_socket_recv, is_stored, open_package,
}
use dog_server.Client.Transfer.Gather.{brought, Patient, gather-whole, no_more}
use dog_server.Server.Send.{result_head}
use dog_server.Server.Send.Frame.{result_head_size, length-result_head}
use dog_server.Interop.Download.{head_read, de_package-result}

-- webSocket_dePackage refuses a frame of which the head and only a part of the payload are there,
-- with its sizes.
open_body-short :
    (type : DataType) (frame : List ℕ) (max len size : ℕ)
    → length frame < len + size
    → len + size < 2 ^ 32
    → open_body type frame max len size false ≡ unpacked wdt_err (some len) (some size) []
unfolding open_body
open_body-short type frame max len size short small =
    let few : ltb (length frame) (u32 (len + size + 0)) ≡ true = ground arith in
    rw few (ap (λ (k : ℕ). unpacked wdt_err (some len) (some k) []) (omega arith))

de_package-short :
    (n : ℕ) (part : List ℕ) (room : ℕ)
    → n < 2 ^ 31
    → length part < n
    → de_package (result_head n ++ part) room
      ≡ unpacked wdt_err (some n) (some (result_head_size n)) []
unfolding de_package
de_package-short n part room small short =
    let facts = head_read n part small in
    let form = length-result_head n in
    let enough : ltb (length (result_head n ++ part)) 2 ≡ false = ground (arith, facts.3) in
    rw (enough, facts.2, facts.0, facts.1)
      (open_body-short wdt_txtdata (result_head n ++ part) room n (result_head_size n)
        (omega (arith, length-append (result_head n) part, form)) (ground arith))

read_back-result :
    (result : List ℕ) (room : ℕ)
    → length result ≤ room
    → read_back (length result) room (result ++ (0 ∷ [])) ≡ some result
unfolding read_back
read_back-result result room h =
    let all : take (length result) ((result ++ (0 ∷ [])) ++ replicate room 0) ≡ result =
      ap (take (length result)) (append_assoc result (0 ∷ []) (replicate room 0))
      ∙ take-append (length result) result ((0 ∷ []) ++ replicate room 0) refl in
    let fits : leb (length result) room ≡ true = ground arith in rw (fits, all) refl

module _ (rand : ℕ → ℕ) (result : List ℕ) (some_result : 1 ≤ length result)
    (small : length (result_head (length result) ++ result) + 128 < 2 ^ 31) where
  abbrev frame : List ℕ
  frame = result_head (length result) ++ result

  size : length frame ≡ result_head_size (length result) + length result
  size = omega (
    arith,
    length-append (result_head (length result)) result,
    length-result_head (length result),
  )

  small_result : length result < 2 ^ 31
  small_result = omega (arith, small, size)

  open_package-room :
      (bytes : List ℕ)
      → length bytes ≤ length frame
      → open_package bytes ≡ de_package bytes (length bytes + 128)
  unfolding open_package
  open_package-room bytes h =
      let fits : leb (2 ^ 31) (length bytes + 128) ≡ false = ground (arith, small, h) in
      rw fits refl

  -- The whole frame.
  open_package-frame :
      open_package frame
      ≡ unpacked wdt_txtdata
          (some (length result))
          (some (result_head_size (length result)))
          (result ++ (0 ∷ []))
  open_package-frame =
      open_package-room frame (omega arith)
      ∙ de_package-result result (length frame + 128) small_result (omega (arith, size))

  -- The end of webSocket_recv on the whole frame.
  finish_recv-frame :
      (before : ℕ)
      → finish_recv rand before (length frame) (open_package frame) ≡ payload wdt_txtdata result
  unfolding finish_recv
  finish_recv-frame before =
      let some_bytes : (length result == 0) ≡ false = ground arith in
      let positive : leb (2 ^ 31) (length result) ≡ false = ground (arith, small_result) in
      ap (finish_recv rand before (length frame)) open_package-frame
      ∙ rw
          (some_bytes, positive, read_back-result result (length frame + 128) (omega (arith, size)))
          refl

  -- webSocket_recv whose first call has the whole head.
  module _ (data_max_len : ℕ) (part : List ℕ) (calls : List RecvCall)
      (room : length (result_head (length result) ++ result) ≤ data_max_len)
      (pieces : part ++ brought calls ≡ result) where
    abbrev first_bytes : List ℕ
    first_bytes = result_head (length result) ++ part

    joined : first_bytes ++ brought calls ≡ frame
    joined =
        append_assoc (result_head (length result)) part (brought calls)
        ∙ ap (λ (t : List ℕ). result_head (length result) ++ t) pieces

    first_size : length first_bytes ≡ result_head_size (length result) + length part
    first_size = omega (
      arith,
      length-append (result_head (length result)) part,
      length-result_head (length result),
    )

    no_overflow : leb (2 ^ 31) (result_head_size (length result) + length result) ≡ false
    no_overflow = ground (arith, small, size)

    recv-short :
        length part < length result
        → Patient recv_patience calls
        → web_socket_recv rand data_max_len (got first_bytes ∷ calls) ≡ payload wdt_txtdata result
    unfolding web_socket_recv take_package
    recv-short short patient =
        let n = length result in
        let some_bytes : (n == 0) ≡ false = ground arith in
        let positive : leb (2 ^ 31) n ≡ false = ground (arith, small_result) in
        let fits : ltb data_max_len n ≡ false = ground (arith, size) in
        let short_of : length first_bytes < result_head_size n + n = omega (arith, first_size) in
        let stored : is_stored data_max_len first_bytes ≡ true =
          ground (arith, first_size, size, room) in
        let need : length (first_bytes ++ brought calls) ≡ result_head_size n + n =
          ap length joined ∙ size in
        let all =
          gather-whole data_max_len (result_head_size n + n) calls recv_patience first_bytes
            (omega (arith, size, room)) patient need
          ∙ ap whole joined in
        let few = lt→ltb (length first_bytes) (result_head_size n + n) short_of in
        rw stored (
          ap (first_package rand data_max_len calls first_bytes) (
            open_package-room first_bytes (omega (arith, size, first_size))
            ∙ de_package-short n part (length first_bytes + 128) small_result short)
          ∙ rw (some_bytes, positive, fits, no_overflow, few)
              (ap (after_gather rand wdt_err n) all ∙ finish_recv-frame n))

    recv-frame : web_socket_recv rand data_max_len (got frame ∷ calls) ≡ payload wdt_txtdata result
    unfolding web_socket_recv take_package
    recv-frame =
        let n = length result in
        let positive : leb (2 ^ 31) n ≡ false = ground (arith, small_result) in
        let fits : ltb data_max_len n ≡ false = ground (arith, size) in
        let stored : is_stored data_max_len frame ≡ true = ground (arith, size, room) in
        let all : ltb (length frame) (result_head_size n + n) ≡ false =
          le→not_ltb (length frame) (result_head_size n + n) (omega (arith, size)) in
        rw stored (
          ap (first_package rand data_max_len calls frame) open_package-frame
          ∙ rw (positive, fits, no_overflow, all)
              (ap (finish_recv rand n (length frame)) (sym open_package-frame)
                ∙ finish_recv-frame n))

    recv-at_once :
        length result ≤ length part
        → web_socket_recv rand data_max_len (got first_bytes ∷ calls) ≡ payload wdt_txtdata result
    recv-at_once long =
        let total = ap length pieces in
        let same : part ≡ result =
          sym (no_more part (brought calls) (omega (arith, long, total))) ∙ pieces in
        ap
          (λ (t : List ℕ).
            web_socket_recv rand data_max_len (got (result_head (length result) ++ t) ∷ calls))
          same
        ∙ recv-frame

    -- A result of at least 1 byte, whose frame of sendResult, head and payload, is no longer than
    -- the caller's buffer and shorter than 2 ^ 31 - 128 bytes, of which the first recv has the head
    -- and any part of the payload and the further calls bring the rest, in any pieces and with
    -- pauses short enough: webSocket_recv returns the length of the result, with exactly its bytes
    -- stored as a text.
    pub web_socket_recv-result :
        Patient recv_patience calls
        → web_socket_recv rand data_max_len (got first_bytes ∷ calls) ≡ payload wdt_txtdata result
    web_socket_recv-result patient = elim (Bool-cases (ltb (length part) (length result))) [
      | inl short ↦ recv-short (ground arith) patient
      | inr long ↦ recv-at_once (ground arith)
    ]
