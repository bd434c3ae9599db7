-- ===== src/Client/Program/Wire.antt =====
-- What webSocket_send puts on the wire, and the pieces of a file.
use dog_server.Base.{
  ℕ, zero, suc, ◌+◌, ◌-◌, ◌%◌, ◌^◌, ◌≤◌, ◌<◌, ◌≡◌, ◌≢◌, refl, sym, ap, ◌∙◌, true, List, [], ◌∷◌,
  ◌++◌, leb, length, length-append, length-take, length-drop, take, drop, take-append-drop,
  take-append-le, replicate, All, IsBytes, arith,
}
use dog_server.Client.Frame.{wdt_txtdata, packed, en_package, get_random_string, mask_loop}
use dog_server.Client.Frame.Head.{length_bytes-some, frame_length-length_bytes}
use dog_server.Client.Frame.Mask.{length-mask_loop, length-get_random_string}
use dog_server.Client.Frame.RoundTrip.{on_wire, first_byte-some, en_package-parts}
use dog_server.Client.Transfer.{sent, send_packed, read_back, web_socket_send}
use dog_server.Client.Program.{piece_size, pieces}

send_packed-packed :
    (room len : ℕ) (stored : List ℕ)
    → len ≤ room
    → len ≤ length stored
    → send_packed room (packed stored len) ≡ sent (take len stored)
unfolding read_back
send_packed-packed room len stored fits there =
    let inside : leb len room ≡ true = ground arith in
    rw (inside, take-append-le len stored (replicate room 0) there) refl

-- A masked text is sent as its frame.
pub web_socket_send-on_wire :
    (data_ : List ℕ) (rand : ℕ → ℕ)
    → length data_ + 14 < 2 ^ 32
    → web_socket_send data_ true wdt_txtdata rand
      ≡ sent (on_wire (en_package data_ 0 (length data_ + 128) true wdt_txtdata rand))
unfolding web_socket_send
web_socket_send-on_wire data_ rand small =
    let (first, ft) = first_byte-some wdt_txtdata (λ e. ground arith) (λ e. ground arith) in
    let (lb, lbs) =
      length_bytes-some true (length data_) (length data_ + 128) (omega arith) (omega arith) in
    let parts =
      en_package-parts data_ (length data_ + 128) true wdt_txtdata rand first lb ft lbs small
        (omega arith) in
    let head =
      frame_length-length_bytes true (length data_) (length data_ + 128) first lb [] (omega arith)
        lbs in
    let key = get_random_string rand 0 4 in
    let body = mask_loop key 0 data_ in
    let four = length-get_random_string rand 0 4 in
    let stored = (first ∷ lb) ++ (key ++ (body ++ (0 ∷ []))) in
    let len = suc (length lb) + length key + length data_ in
    let size : length stored ≡ len + 1 = omega (
      arith,
      length-append (first ∷ lb) (key ++ (body ++ (0 ∷ []))),
      length-append key (body ++ (0 ∷ [])),
      length-append body (0 ∷ []),
      length-mask_loop key 0 data_,
    ) in
    let short : length lb ≤ 9 = ground (arith, head) in
    ap (send_packed (length data_ + 128)) parts
    ∙ send_packed-packed (length data_ + 128) len stored (omega (arith, short, four))
        (omega (arith, size))
    ∙ ap (λ t. sent (on_wire t)) (sym parts)

-- The pieces of a file.
abbrev pub concat : List (List ℕ) → List ℕ
concat [] = []
concat (t ∷ ts) = t ++ concat ts

pub concat-pieces :
    (fuel : ℕ) (file : List ℕ) → length file ≤ fuel → concat (pieces fuel file) ≡ file
unfolding pieces
concat-pieces zero [] h = refl
concat-pieces zero (c ∷ file) h = absurd (omega arith)
concat-pieces (suc fuel) [] h = refl
concat-pieces (suc fuel) (c ∷ file) h =
    ap (λ (t : List ℕ). take piece_size (c ∷ file) ++ t)
      (concat-pieces fuel (drop piece_size (c ∷ file))
        (omega (arith, length-drop piece_size (c ∷ file), h)))
    ∙ take-append-drop piece_size (c ∷ file)

-- No piece is a text of three bytes if the file does not end with one.
abbrev pub IsPiece : List ℕ → Type 0
IsPiece t = (length t ≤ piece_size) × (length t ≢ 3) × IsBytes t

IsBytes-take : (n : ℕ) (xs : List ℕ) → IsBytes xs → IsBytes (take n xs)
IsBytes-take zero xs h = tt
IsBytes-take (suc n) [] h = tt
IsBytes-take (suc n) (x ∷ xs) h = (h.0, IsBytes-take n xs h.1)

IsBytes-drop : (n : ℕ) (xs : List ℕ) → IsBytes xs → IsBytes (drop n xs)
IsBytes-drop zero xs h = h
IsBytes-drop (suc n) [] h = tt
IsBytes-drop (suc n) (x ∷ xs) h = IsBytes-drop n xs h.1

pub pieces-IsPiece :
    (fuel : ℕ) (file : List ℕ)
    → length file ≤ fuel
    → IsBytes file
    → length file % 1000 ≢ 3
    → All IsPiece (pieces fuel file)
unfolding pieces
pieces-IsPiece zero file h b r = tt
pieces-IsPiece (suc fuel) [] h b r = tt
pieces-IsPiece (suc fuel) (c ∷ file) h b r =
    let whole = c ∷ file in
    let taken = length-take piece_size whole in
    let left = length-drop piece_size whole in
    let same : (length whole - piece_size) % 1000 ≢ 3 = λ e. r (omega (arith, e)) in
    (
      (omega (arith, taken), (λ e. r (omega (arith, taken, e))), IsBytes-take piece_size whole b),
      pieces-IsPiece fuel (drop piece_size whole) (omega (arith, left, h))
          (IsBytes-drop piece_size whole b) (λ e. same (omega (arith, left, e))),
    )
