-- ===== src/Server/Connection/Grows.antt =====
-- What each part of a handler may change of a connection.
use dog_server.Base.{
  ℕ, ◌≡◌, refl, subst, sym, ap, ◌∙◌, Bool, true, false, Option, none, some, List, [], ◌++◌,
  append_assoc, append-nil, if◌then◌else◌,
}
use dog_server.Server.Packet.{IsValid}
use dog_server.Server.Receive.{Received, received, failed, fault}
use dog_server.Server.Receive.Valid.{LeavesValid}
use dog_server.Server.Send.{Written, sent_all, write_failed, writing, Sent, overflow, sends}
use dog_server.Server.Http.{Parsed, parsed, refused}
use dog_server.Server.Connection.{
  ProcessState, state_error, Connection, Outcome, returns, waits, crashes, ◌>>=◌, after_write,
  after_send, after_head, after_packet, touch_key, enter,
}

-- What holds of the value and the connection that a handler returns.
abbrev pub Lands : {S : Type 0} → (Bool → Connection S → Type 0) → Outcome S → Type 0
Lands P (returns ok c) = P ok c
Lands P waits = Unit
Lands P crashes = Unit

-- What every part of a handler leaves alone or only adds to.
pub record Grows {S : Type 0} (c d : Connection S) : Type 0 where
  pub sends_on : (xs : List ℕ) × (d.sent ≡ c.sent ++ xs)
  pub stores_on : (xs : List ℕ) × (d.file ≡ c.file ++ xs)
  pub keeps_valid : IsValid c.read_packet_ → IsValid d.read_packet_
  pub keeps_polled : d.polled ≡ c.polled
  pub keeps_held : d.held ≡ c.held
  pub keeps_idle : d.idle ≡ c.idle

append_twice :
    (a b c : List ℕ)
    → (xs : List ℕ) × (b ≡ a ++ xs)
    → (ys : List ℕ) × (c ≡ b ++ ys)
    → (zs : List ℕ) × (c ≡ a ++ zs)
append_twice a b c (xs, e) (ys, f) = (xs ++ ys, f ∙ ap (λ t. t ++ ys) e ∙ append_assoc a xs ys)

-- The state stays, whatever is returned.
abbrev pub Stays : ProcessState → Bool → ProcessState → Type 0
Stays s ok t = t ≡ s

abbrev pub Succeeds : ProcessState → Bool → ProcessState → Type 0
Succeeds s ok t = (ok ≡ true) × (t ≡ s)

-- The states that `enter` leaves.
abbrev pub Enters : ProcessState → Bool → Bool → ProcessState → Type 0
Enters next true ok t = (ok ≡ true) × (t ≡ next)
Enters next false ok t = (ok ≡ true) × (t ≡ state_error)

module _ {S : Type 0} where
  -- A change of other fields, of bytes sent and of bytes stored.
  pub Grows-by :
      (c d : Connection S) (xs ys : List ℕ)
      → d.sent ≡ c.sent ++ xs
      → d.file ≡ c.file ++ ys
      → (IsValid c.read_packet_ → IsValid d.read_packet_)
      → d.polled ≡ c.polled
      → d.held ≡ c.held
      → d.idle ≡ c.idle
      → Grows c d
  Grows-by c d xs ys s f v p h i = record {
    sends_on = (xs, s);
    stores_on = (ys, f);
    keeps_valid = v;
    keeps_polled = p;
    keeps_held = h;
    keeps_idle = i;
  }

  pub Grows-trans : (c d e : Connection S) → Grows c d → Grows d e → Grows c e
  Grows-trans c d e g h = record {
    sends_on = append_twice c.sent d.sent e.sent g.sends_on h.sends_on;
    stores_on = append_twice c.file d.file e.file g.stores_on h.stores_on;
    keeps_valid = λ v. h.keeps_valid (g.keeps_valid v);
    keeps_polled = h.keeps_polled ∙ g.keeps_polled;
    keeps_held = h.keeps_held ∙ g.keeps_held;
    keeps_idle = h.keeps_idle ∙ g.keeps_idle;
  }

  -- Nothing sent or stored.
  pub Grows-silent :
      (c d : Connection S)
      → d.sent ≡ c.sent
      → d.file ≡ c.file
      → (IsValid c.read_packet_ → IsValid d.read_packet_)
      → d.polled ≡ c.polled
      → d.held ≡ c.held
      → d.idle ≡ c.idle
      → Grows c d
  Grows-silent c d s f v p h i =
      Grows-by c d [] [] (s ∙ sym (append-nil c.sent)) (f ∙ sym (append-nil c.file)) v p h i

  pub Grows-sent :
      (c d : Connection S) (xs : List ℕ)
      → d.sent ≡ c.sent ++ xs
      → d.file ≡ c.file
      → (IsValid c.read_packet_ → IsValid d.read_packet_)
      → d.polled ≡ c.polled
      → d.held ≡ c.held
      → d.idle ≡ c.idle
      → Grows c d
  Grows-sent c d xs s f v p h i = Grows-by c d xs [] s (f ∙ sym (append-nil c.file)) v p h i

  -- A part of a handler that grows `c` and returns in a state as `Q` has it.
  unfoldable pub Gains : Connection S → (Bool → ProcessState → Type 0) → Outcome S → Type 0
  Gains c Q o = Lands (λ ok d. Grows c d × Q ok d.state_) o

  pub gain :
      (c d : Connection S) (Q : Bool → ProcessState → Type 0) (ok : Bool)
      → Grows c d
      → Q ok d.state_
      → Gains c Q (returns ok d)
  unfolding Gains
  gain c d Q ok g q = (g, q)

  pub mono :
      (c : Connection S) (P Q : Bool → ProcessState → Type 0) (o : Outcome S)
      → Gains c P o
      → ((ok : Bool) (s : ProcessState) → P ok s → Q ok s)
      → Gains c Q o
  unfolding Gains
  mono c P Q (returns ok d) (g, p) f = (g, f ok d.state_ p)
  mono c P Q waits h f = tt
  mono c P Q crashes h f = tt

  pub returned :
      (c d : Connection S) (Q : Bool → ProcessState → Type 0) (o : Outcome S) (ok : Bool)
      → Gains c Q o
      → o ≡ returns ok d
      → Grows c d × Q ok d.state_
  unfolding Gains
  returned c d Q o ok h e = rw e at h

  pub chain :
      (c : Connection S) (P Q : Bool → ProcessState → Type 0) (o : Outcome S)
      (k : Bool → Connection S → Outcome S)
      → Gains c P o
      → ((ok : Bool) (d : Connection S) → P ok d.state_ → Gains d Q (k ok d))
      → Gains c Q (o >>= k)
  unfolding Gains
  chain c P Q (returns ok d) k (g, p) f = widen (k ok d) (f ok d p)
    where
      widen : (o : Outcome S) → Gains d Q o → Gains c Q o
      widen (returns ok' e) (h, q) = (Grows-trans c d e g h, q)
      widen waits h = tt
      widen crashes h = tt
  chain c P Q waits k h f = tt
  chain c P Q crashes k h f = tt

  pub after_write-Gains :
      (c : Connection S) (w : Written) → Gains c (Stays c.state_) (after_write c w)
  unfolding Gains
  after_write-Gains c (sent_all xs) = (Grows-sent c _ xs refl refl (λ v. v) refl refl refl, refl)
  after_write-Gains c (write_failed e xs) =
      (Grows-sent c _ xs refl refl (λ v. v) refl refl refl, refl)
  after_write-Gains c (writing xs left) = tt

  pub after_send-Gains : (c : Connection S) (r : Sent) → Gains c (Stays c.state_) (after_send c r)
  unfolding Gains
  after_send-Gains c overflow = tt
  after_send-Gains c (sends p (sent_all xs)) =
      (Grows-sent c _ xs refl refl (λ v. v) refl refl refl, refl)
  after_send-Gains c (sends p (write_failed e xs)) =
      (Grows-sent c _ xs refl refl (λ v. v) refl refl refl, refl)
  after_send-Gains c (sends p (writing xs left)) = tt

  pub touched-Gains :
      (c : Connection S) (w : Written) → Gains c (Stays c.state_) (after_write (touch_key c) w)
  unfolding Gains
  touched-Gains c (sent_all xs) = (Grows-sent c _ xs refl refl (λ v. v) refl refl refl, refl)
  touched-Gains c (write_failed e xs) = (Grows-sent c _ xs refl refl (λ v. v) refl refl refl, refl)
  touched-Gains c (writing xs left) = tt

  pub after_head-Gains :
      (c : Connection S) (r : Option Parsed) → Gains c (Stays c.state_) (after_head c r)
  unfolding Gains
  after_head-Gains c none = tt
  after_head-Gains c (some (parsed h)) = (Grows-silent c _ refl refl (λ v. v) refl refl refl, refl)
  after_head-Gains c (some (refused e h)) =
      (Grows-silent c _ refl refl (λ v. v) refl refl refl, refl)
  after_head-Gains c (some Parsed.fault) = tt

  pub after_packet-Gains :
      (c : Connection S) (r : Received S)
      → (IsValid c.read_packet_ → LeavesValid r)
      → Gains c (Stays c.state_) (after_packet c r)
  unfolding Gains
  after_packet-Gains c (received p s) v = (Grows-silent c _ refl refl v refl refl refl, refl)
  after_packet-Gains c (failed e p s) v = (Grows-silent c _ refl refl v refl refl refl, refl)
  after_packet-Gains c fault v = tt

  pub enter-Gains :
      (next : ProcessState) (ok : Bool) (c : Connection S)
      → Gains c (Enters next ok) (enter next ok c)
  unfolding Gains
  enter-Gains next true c = (Grows-silent c _ refl refl (λ v. v) refl refl refl, (refl, refl))
  enter-Gains next false c = (Grows-silent c _ refl refl (λ v. v) refl refl refl, (refl, refl))

  pub same-Gains : (c : Connection S) → Gains c (Succeeds c.state_) (returns true c)
  unfolding Gains
  same-Gains c = (Grows-silent c c refl refl (λ v. v) refl refl refl, (refl, refl))

  pub same-at :
      (c : Connection S) (s : ProcessState) → c.state_ ≡ s → Gains c (Succeeds s) (returns true c)
  same-at c s e = subst (λ t. Gains c (Succeeds t) (returns true c)) e (same-Gains c)

  pub if-Gains :
      (c : Connection S) (Q : Bool → ProcessState → Type 0) (b : Bool) (x y : Outcome S)
      → Gains c Q x
      → Gains c Q y
      → Gains c Q (if b then x else y)
  if-Gains c Q true x y g h = g
  if-Gains c Q false x y g h = h
