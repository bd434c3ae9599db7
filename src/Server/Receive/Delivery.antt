-- ===== src/Server/Receive/Delivery.antt =====
-- A frame that arrives in pieces, with one call of readAndParsePacket after each: the epoll loop
-- calls handleRead whenever bytes are queued.
use dog_server.Base.{ℕ, ◌≡◌, ap, ◌∙◌, List, [], ◌∷◌, ◌++◌, append-nil, append_assoc, arith}
use dog_server.Server.Socket.{Socket}
use dog_server.Server.Packet.{Packet, IsValid}
use dog_server.Server.Receive.{Received, received, failed, fault, read_and_parse_packet}
use dog_server.Server.Receive.Decoder.{decode}
use dog_server.Server.Receive.Refinement.{view, read_and_parse_packet-decode}
use dog_server.Server.Receive.Chunks.{decode-split}
use dog_server.Server.Receive.Valid.{decode-LeavesValid}

-- A piece that arrives holds at least one byte.
abbrev pub Piece : Type 0
Piece = ℕ × List ℕ

abbrev pub bytes_of : Piece → List ℕ
bytes_of (x, xs) = x ∷ xs

abbrev pub joined : List Piece → List ℕ
joined [] = []
joined (c ∷ cs) = bytes_of c ++ joined cs

module _ (socket : Socket) where
  open socket use {State, queued}

  pub view-received :
      (r : Received State) (p : Packet) (q : List ℕ)
      → view socket r ≡ received p q
      → (s : State) × (r ≡ received p s) × (queued s ≡ q)
  view-received (received p₁ s) p q e = (s, ap (λ t. received t s) (cc), cc)
  view-received (failed e₁ p₁ s) p q e = absurd (ground arith)
  view-received fault p q e = absurd (ground arith)

module _ (socket : Socket) (arrive : socket.State → List ℕ → socket.State)
    (queued-arrive : (s : socket.State) (xs : List ℕ)
      → socket.queued (arrive s xs) ≡ socket.queued s ++ xs) where
  open socket use {State, queued}

  abbrev pub resume : Received State → (Packet → State → Received State) → Received State
  resume (received p s) k = k p s
  resume (failed e p s) k = failed e p s
  resume fault k = fault

  -- One call after each piece, until a call fails.
  unfoldable pub deliver : Packet → State → List Piece → Received State
  deliver p s [] = received p s
  deliver p s (c ∷ cs) =
      resume (read_and_parse_packet socket p (arrive s (bytes_of c))) λ p' s'. deliver p' s' cs

  after_call :
      (p p₁ : Packet) (s : State) (q : List ℕ) (c : Piece)
      → IsValid p
      → decode p (queued s ++ bytes_of c) ≡ received p₁ q
      → (s₁ : State) × (read_and_parse_packet socket p (arrive s (bytes_of c)) ≡ received p₁ s₁)
        × (queued s₁ ≡ q)
  after_call p p₁ s q c v e = view-received socket _ p₁ q (
      read_and_parse_packet-decode socket p (arrive s (bytes_of c)) v
      ∙ ap (decode p) (queued-arrive s (bytes_of c))
      ∙ e)

  leaves : (p p₁ : Packet) (q q₁ : List ℕ) → IsValid p → decode p q ≡ received p₁ q₁ → IsValid p₁
  leaves p p₁ q q₁ v e = rw e at (decode-LeavesValid p q v)

  -- If one call on all the bytes returns 0 at the packet `p'` and reads them all, then calls
  -- on the pieces, however the bytes are cut into them, end at the same packet with none left.
  pub deliver-decode :
      (p p' : Packet) (s : State) (c : Piece) (cs : List Piece)
      → IsValid p
      → decode p (queued s ++ joined (c ∷ cs)) ≡ received p' []
      → view socket (deliver p s (c ∷ cs)) ≡ received p' []
  unfolding deliver
  deliver-decode p p' s c [] v e =
      let (s₁, called, q₁) = after_call p p' s [] c v (rw append-nil at e) in
      rw called (ap (received p') q₁)
  deliver-decode p p' s c (d ∷ cs) v e =
      let rest = joined (d ∷ cs) in
      let (p₁, q, first, second) =
        decode-split p v (queued s ++ bytes_of c) d.0 (d.1 ++ joined cs) p'
          (ap (decode p) (append_assoc (queued s) (bytes_of c) rest) ∙ e) in
      let (s₁, called, q₁) = after_call p p₁ s q c v first in
      let ih =
        deliver-decode p₁ p' s₁ d cs (leaves p p₁ _ q v first)
          (ap (λ t. decode p₁ (t ++ rest)) q₁ ∙ second) in
      rw called ih
