-- ===== src/Interop/Upload.antt =====
-- A message from the client to the server: webSocket_enPackage with a mask, and
-- readAndParsePacket on what arrives.
use dog_server.Base.{
  ℕ, ◌+◌, ◌/◌, ◌%◌, ◌^◌, ◌<◌, ◌≤◌, ◌≡◌, ◌≢◌, inl, inr, refl, sym, ap, ap₂, ◌∙◌, bit_xor, true, List,
  [], ◌∷◌, ◌++◌, length, IsBytes, bit_xor_undo, arith, get_or, get_or-lt, some,
}
use dog_server.Client.Frame.{
  DataType, wdt_mindata, wdt_txtdata, wdt_bindata, wdt_disconn, wdt_ping, wdt_pong, wdt_err,
  wdt_null, first_byte, length_bytes, next_count, mask_loop, get_random_string, en_package,
}
use dog_server.Client.Frame.Head.{length_bytes-masked}
use dog_server.Client.Frame.Mask.{
  exclusive_or-bit_xor, length-mask_loop, get_random_string-IsBytes, length-get_random_string,
}
use dog_server.Client.Frame.RoundTrip.{on_wire, on_wire-en_package}
use dog_server.Server.Socket.{Socket}
use dog_server.Server.Packet.{Packet, IsValid, packet_init}
use dog_server.Server.Receive.{unmask}
use dog_server.Server.Receive.Decoder.{decode}
use dog_server.Server.Receive.Refinement.{view}
use dog_server.Server.Receive.Delivery.{Piece, joined, deliver, deliver-decode}
use dog_server.Server.Receive.Whole.{Finishes, decode-small, decode-medium, decode-large}

-- The opcode and the final bit of a type, by the protocol.
abbrev pub opcode_of : DataType → ℕ
opcode_of wdt_mindata = 0
opcode_of wdt_txtdata = 1
opcode_of wdt_bindata = 2
opcode_of wdt_disconn = 8
opcode_of wdt_ping = 9
opcode_of wdt_pong = 10
opcode_of wdt_err = 0
opcode_of wdt_null = 0

abbrev pub fin_of : DataType → ℕ
fin_of wdt_mindata = 0
fin_of _ = 1

first_byte_fields :
    (type : DataType) (first : ℕ)
    → first_byte type ≡ some first
    → (first % 16 ≡ opcode_of type) × (first / 128 ≡ fin_of type)
unfolding first_byte
first_byte_fields wdt_mindata first e = ground arith
first_byte_fields _ first e = ground arith

-- The server's index `(len_ + i) % 4` is the client's running `count`.
unmask-mask_loop :
    (key : List ℕ) (j : ℕ) (xs : List ℕ)
    → IsBytes key
    → IsBytes xs
    → unmask key j (mask_loop key (j % 4) xs) ≡ xs
unfolding unmask mask_loop
unmask-mask_loop key j [] hk hx = refl
unmask-mask_loop key j (x ∷ xs) hk hx =
    let k = get_or key (j % 4) 0 in
    let small : k < 256 = get_or-lt key (j % 4) hk in
    let step : next_count (j % 4) ≡ (j + 1) % 4 = ground arith in
    ap₂ ◌∷◌
      (ap (λ t. bit_xor t k) (exclusive_or-bit_xor k x small hx.0) ∙ bit_xor_undo x k hx.0 small)
      (rw step (unmask-mask_loop key (j + 1) xs hk hx.1))

decode-parts :
    (p : Packet) (first room : ℕ) (lb key body : List ℕ)
    → p.state_ ≡ packet_init
    → 4 ≡ length key
    → length body < 2 ^ 31
    → length_bytes (length body) room 0x80 ≡ some lb
    → Finishes
        (decode p ((first ∷ lb) ++ (key ++ body)))
        (first % 16)
        (first / 128)
        (unmask key 0 body)
decode-parts p first room lb key body e four fits lbs =
    elim (length_bytes-masked (length body) room lb (omega arith) lbs) [
      | inl (n, l) ↦ rw l (decode-small key body four fits first p e n)
      | inr (inl (lo, hi, l)) ↦ rw l (decode-medium key body four fits first p e hi)
      | inr (inr (lo, l)) ↦ rw l (decode-large key body four fits first p e)
    ]

module _ (data_ : List ℕ) (max : ℕ) (type : DataType) (rand : ℕ → ℕ) (bytes : IsBytes data_)
    (small : length data_ < 2 ^ 31) (enough : length data_ + 14 ≤ max) (not_err : type ≢ wdt_err)
    (not_null : type ≢ wdt_null) where
  -- All the bytes of a masked frame at once.
  pub decode-wire :
      (p : Packet)
      → p.state_ ≡ packet_init
      → Finishes
          (decode p (on_wire (en_package data_ 0 max true type rand)))
          (opcode_of type)
          (fin_of type)
          data_
  decode-wire p e =
      let key = get_random_string rand 0 4 in
      let key_bytes = get_random_string-IsBytes rand 0 4 in
      let body = mask_loop key 0 data_ in
      let same = length-mask_loop key 0 data_ in
      let four = sym (length-get_random_string rand 0 4) in
      let (first, lb, ft, lbs, wire) =
        on_wire-en_package data_ max true type rand (omega arith) enough not_err not_null in
      let fields = first_byte_fields type first ft in
      let clear = unmask-mask_loop key 0 data_ key_bytes bytes in
      let parts =
        decode-parts p first max lb key body e four (omega (arith, same))
          (ap (λ t. length_bytes t max 0x80) same ∙ lbs) in
      rw wire (rw (fields.0, fields.1, clear) at parts)

  -- A masked message of bytes, shorter than 2 ^ 31, of any type that webSocket_enPackage accepts, that
  -- arrives at a packet between two frames, in any pieces: after the last piece the server
  -- holds the message, with its length, opcode and final bit, waits for the next frame, and has
  -- left nothing in the queue.
  pub deliver-en_package :
      (socket : Socket) (arrive : socket.State → List ℕ → socket.State)
      (queued-arrive : (s : socket.State) (xs : List ℕ)
        → socket.queued (arrive s xs) ≡ socket.queued s ++ xs)
      (p : Packet) (s : socket.State) (c : Piece) (cs : List Piece)
      → IsValid p
      → p.state_ ≡ packet_init
      → socket.queued s ≡ []
      → joined (c ∷ cs) ≡ on_wire (en_package data_ 0 max true type rand)
      → Finishes
          (view socket (deliver socket arrive queued-arrive p s (c ∷ cs)))
          (opcode_of type)
          (fin_of type)
          data_
  deliver-en_package socket arrive queued-arrive p s c cs v e empty cut =
      let (p', run, complete) = decode-wire p e in
      (p', deliver-decode socket arrive queued-arrive p p' s c cs v (rw (empty, cut) run), complete)
