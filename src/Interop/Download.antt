-- ===== src/Interop/Download.antt =====
-- A result from the server to the client: sendResult, and webSocket_dePackage on its frame.
use dog_server.Base.{
  ℕ, ◌+◌, ◌^◌, ◌<◌, ◌≤◌, ◌≡◌, ◌⊎◌, refl, ap, ◌∙◌, bit_and, false, some, List, [], ◌∷◌, ◌++◌, ltb,
  ◌==◌, length, length-append, get_or, All, arith,
}
use dog_server.Client.Frame.{wdt_txtdata, unpacked, frame_type, frame_length, de_package}
use dog_server.Client.Frame.Head.{or_flag, flag_of}
use dog_server.Client.Frame.RoundTrip.{open_body-parts}
use dog_server.Server.Packet.{Packet}
use dog_server.Server.Send.{WriteCall, sent_all, sends, result_head, send_result}
use dog_server.Server.Send.Write.{Retries, taken, write_data-sent_all}
use dog_server.Server.Send.Frame.{result_head_size, length-result_head, send_result_fits}

pub head_read :
    (n : ℕ) (tail : List ℕ)
    → n < 2 ^ 31
    → let frame = result_head n ++ tail in
      (frame_length frame ≡ some (n, result_head_size n))
      × ((bit_and (get_or frame 1 0) 0x80 == 0x80) ≡ false)
      × (frame_type (get_or frame 0 0) ≡ some wdt_txtdata)
      × (2 ≤ length frame)
unfolding result_head frame_length frame_type
head_read n tail h = ground (
  arith,
  or_flag false n,
  flag_of false n,
  or_flag false 0x7E,
  or_flag false 0x7F,
  flag_of false 0x7E,
  flag_of false 0x7F,
)

pub de_package-result :
    (result : List ℕ) (room : ℕ)
    → length result < 2 ^ 31
    → length result < room
    → de_package (result_head (length result) ++ result) room
      ≡ unpacked wdt_txtdata
          (some (length result))
          (some (result_head_size (length result)))
          (result ++ (0 ∷ []))
unfolding de_package
de_package-result result room small fits =
    let n = length result in
    let facts = head_read n result small in
    let form = length-result_head n in
    let enough : ltb (length (result_head n ++ result)) 2 ≡ false = ground (arith, facts.3) in
    let opened =
      open_body-parts wdt_txtdata false (result_head n) [] result room refl (ground (arith, form))
        (omega arith) (omega arith) in
    let no_mask : length (result_head n) + 0 ≡ length (result_head n) = omega arith in
    rw (enough, facts.2, facts.0, facts.1, ← form) (rw no_mask at opened)

-- A result shorter than 2 ^ 31 - 8 that takes a short form, or for which the packet has room, sent over a socket that
-- takes the bytes after any number of interruptions: what the socket has taken is the whole frame, and
-- the client, in a buffer longer than the result, unpacks it to a text with the result's bytes.
pub de_package-send_result :
    (result : List ℕ) (p : Packet) (calls : List WriteCall) (room : ℕ)
    → length result + 8 < 2 ^ 31
    → (length result < 0xFFFF) ⊎ (length result + 10 ≤ p.size_)
    → All Retries calls
    → length result + 10 ≤ taken calls
    → length result < room
    → (p' : Packet) × (frame : List ℕ) × (send_result result p calls ≡ sends p' (sent_all frame))
      × (de_package frame room
          ≡ unpacked wdt_txtdata
              (some (length result))
              (some (result_head_size (length result)))
              (result ++ (0 ∷ [])))
de_package-send_result result p calls room small fits retries total bigger =
    let frame = result_head (length result) ++ result in
    let (p', sent, kept, len) = send_result_fits result p calls small fits in
    let all = write_data-sent_all frame calls retries (
      ground (
        arith,
        length-append (result_head (length result)) result,
        length-result_head (length result),
      )) in
    (p', frame, sent ∙ ap (sends p') all, de_package-result result room (omega arith) bigger)
