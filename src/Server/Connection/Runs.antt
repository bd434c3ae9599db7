-- ===== src/Server/Connection/Runs.antt =====
-- The states of a connection, over one handler and over every run of its loop.
use dog_server.Base.{ℕ, ◌≡◌, refl, sym, ap, ◌∙◌, inl, inr, subst, Bool, true, false, not, List}
use dog_server.Server.Socket.{Socket}
use dog_server.Server.Packet.{IsValid}
use dog_server.Server.Receive.Valid.{new_packet-IsValid}
use dog_server.Server.Connection.{
  ProcessState, state_head, state_start, state_data, state_finish, state_close, state_error,
  Connection, returns, Calls, handle_read, handle_close, conn_from, handle_conn, new_connection,
}
use dog_server.Server.Connection.Grows.{Gains, chain, mono, returned}
use dog_server.Server.Connection.States.{
  Heads, Starts, Finishes, in_head-Gains, in_start-Gains, in_finish-Gains, in_error-Gains,
}

-- The states before and after one run of handleRead.
pub data Moves : ProcessState → ProcessState → Type 0 where
  accepts : Moves state_head state_data
  refuses : Moves state_head state_error
  starts : Moves state_start state_data
  goes_on : Moves state_data state_data
  ends : Moves state_data state_close
  breaks : Moves state_data state_error
  finishes : Moves state_finish state_close
  stays_closed : Moves state_close state_close
  stays_broken : Moves state_error state_error

-- The moves of the blocks, from those of States.
data Opens : ProcessState → ProcessState → Type 0 where
  opened : Opens state_head state_start
  not_opened : Opens state_head state_error
  start : Opens state_start state_start
  data_ : Opens state_data state_data
  finish : Opens state_finish state_finish
  close : Opens state_close state_close
  error : Opens state_error state_error

data Works : ProcessState → ProcessState → Type 0 where
  started : Works state_start state_data
  more : Works state_data state_data
  last : Works state_data state_finish
  broken : Works state_data state_error
  head : Works state_head state_head
  finish : Works state_finish state_finish
  close : Works state_close state_close
  error : Works state_error state_error

data Closes : ProcessState → ProcessState → Type 0 where
  closed : Closes state_finish state_close
  head : Closes state_head state_head
  start : Closes state_start state_start
  data_ : Closes state_data state_data
  close : Closes state_close state_close
  error : Closes state_error state_error

opens : (s t : ProcessState) (ok : Bool) → Heads s ok t → Opens s t
opens state_head t ok (h, inl e) = subst (Opens state_head) (sym e) opened
opens state_head t ok (h, inr e) = subst (Opens state_head) (sym e) not_opened
opens state_start t ok h = subst (Opens state_start) (sym h.1) start
opens state_data t ok h = subst (Opens state_data) (sym h.1) data_
opens state_finish t ok h = subst (Opens state_finish) (sym h.1) finish
opens state_close t ok h = subst (Opens state_close) (sym h.1) close
opens state_error t ok h = subst (Opens state_error) (sym h.1) error

works : (s t : ProcessState) (ok : Bool) → Starts s ok t → Works s t
works state_data t ok (h, inl e) = subst (Works state_data) (sym e) more
works state_data t ok (h, inr (inl e)) = subst (Works state_data) (sym e) last
works state_data t ok (h, inr (inr e)) = subst (Works state_data) (sym e) broken
works state_head t ok h = subst (Works state_head) (sym h.1) head
works state_start t ok h = subst (Works state_start) (sym h.1) started
works state_finish t ok h = subst (Works state_finish) (sym h.1) finish
works state_close t ok h = subst (Works state_close) (sym h.1) close
works state_error t ok h = subst (Works state_error) (sym h.1) error

closes : (s t : ProcessState) (ok : Bool) → Finishes s ok t → Closes s t
closes state_head t ok h = subst (Closes state_head) (sym h.1) head
closes state_start t ok h = subst (Closes state_start) (sym h.1) start
closes state_data t ok h = subst (Closes state_data) (sym h.1) data_
closes state_finish t ok h = subst (Closes state_finish) (sym h.1) closed
closes state_close t ok h = subst (Closes state_close) (sym h.1) close
closes state_error t ok h = subst (Closes state_error) (sym h.1) error

moved : {s t u v : ProcessState} → Opens s t → Works t u → Closes u v → Moves s v
moved opened started data_ = accepts
moved not_opened Works.error Closes.error = refuses
moved Opens.start started data_ = starts
moved Opens.data_ more data_ = goes_on
moved Opens.data_ last closed = ends
moved Opens.data_ broken Closes.error = breaks
moved Opens.finish Works.finish closed = finishes
moved Opens.close Works.close Closes.close = stays_closed
moved Opens.error Works.error Closes.error = stays_broken

-- One run of handleRead returns in one of these states.
abbrev pub Leads : ProcessState → Bool → ProcessState → Type 0
Leads s ok t = (ok ≡ true) × Moves s t

abbrev Mid : ProcessState → Bool → ProcessState → Type 0
Mid s ok u = (t : ProcessState) × Opens s t × Works t u

abbrev Fin : ProcessState → Bool → ProcessState → Type 0
Fin s ok v = Moves s v

-- Whether the loop still serves a connection in this state.
abbrev pub is_open : ProcessState → Bool
is_open state_error = false
is_open state_close = false
is_open _ = true

-- The states in which a handler may leave a connection.
abbrev pub Rests : ProcessState → Type 0
Rests state_start = ⊥
Rests state_finish = ⊥
Rests _ = Unit

-- What holds of a connection between two events of its loop.
pub record IsSound {S : Type 0} (c : Connection S) : Type 0 where
  pub rests : Rests c.state_
  pub polled_lem : c.polled ≡ is_open c.state_
  pub held_lem : c.held ≡ is_open c.state_
  pub idle_lem : c.idle ≡ not (is_open c.state_)
  pub valid : IsValid c.read_packet_

Moves-Rests : {s t : ProcessState} → Moves s t → Rests t
Moves-Rests accepts = tt
Moves-Rests refuses = tt
Moves-Rests starts = tt
Moves-Rests goes_on = tt
Moves-Rests ends = tt
Moves-Rests breaks = tt
Moves-Rests finishes = tt
Moves-Rests stays_closed = tt
Moves-Rests stays_broken = tt

open_flags : (a b : Bool) → a ≡ b → a ≡ true → (b ≡ true) × (not b ≡ false)
open_flags a b e h = (sym e ∙ h, ap not (sym e ∙ h))

module _ {S : Type 0} where
  handle_conn-IsSound :
      (t : ProcessState) (c : Connection S)
      → c.state_ ≡ t
      → Rests t
      → c.polled ≡ true
      → c.held ≡ true
      → c.idle ≡ false
      → IsValid c.read_packet_
      → IsSound (conn_from t c)
  unfolding conn_from handle_close
  handle_conn-IsSound state_head c e r p h i v = record {
    rests = subst Rests (sym e) tt;
    polled_lem = p ∙ sym (ap is_open e);
    held_lem = h ∙ sym (ap is_open e);
    idle_lem = i ∙ sym (ap (λ s. not (is_open s)) e);
    valid = v;
  }
  handle_conn-IsSound state_data c e r p h i v = record {
    rests = subst Rests (sym e) tt;
    polled_lem = p ∙ sym (ap is_open e);
    held_lem = h ∙ sym (ap is_open e);
    idle_lem = i ∙ sym (ap (λ s. not (is_open s)) e);
    valid = v;
  }
  handle_conn-IsSound state_close c e r p h i v = record {
    rests = subst Rests (sym e) tt;
    polled_lem = sym (ap is_open e);
    held_lem = sym (ap is_open e);
    idle_lem = sym (ap (λ s. not (is_open s)) e);
    valid = v;
  }
  handle_conn-IsSound state_error c e r p h i v = record {
    rests = subst Rests (sym e) tt;
    polled_lem = sym (ap is_open e);
    held_lem = sym (ap is_open e);
    idle_lem = sym (ap (λ s. not (is_open s)) e);
    valid = v;
  }
  handle_conn-IsSound state_start c e r p h i v = absurd r
  handle_conn-IsSound state_finish c e r p h i v = absurd r

  pub new_connection-IsSound : (memory : List ℕ) (s : S) → IsSound (new_connection memory s)
  unfolding new_connection
  new_connection-IsSound memory s = record {
    rests = tt;
    polled_lem = refl;
    held_lem = refl;
    idle_lem = refl;
    valid = new_packet-IsValid memory;
  }

module _ (socket : Socket) (sha1 base64_encode : List ℕ → List ℕ)
    (format_json : List ℕ → ℕ → List ℕ) where
  open socket use {State}

  -- handleRead, if it returns, moves the connection along the state machine of `Moves`, adds to
  -- what is sent and to what is stored in the file and takes nothing back, keeps a valid
  -- packet valid, and leaves the poller, the holder and the idle flag to handleConn.
  pub handle_read-Moves :
      (calls : Calls) (c : Connection State)
      → Gains c (Leads c.state_) (handle_read socket sha1 base64_encode format_json calls c)
  unfolding handle_read
  handle_read-Moves calls c =
      chain c (Fin c.state_) (Leads c.state_) _ _
        (chain c (Mid c.state_) (Fin c.state_) _ _
          (chain c (Heads c.state_) (Mid c.state_) _ _
            (in_head-Gains socket sha1 base64_encode format_json c.state_ calls c refl)
            (λ ok d h.
              mono d _ _ _
                (in_start-Gains socket sha1 base64_encode format_json d.state_ calls d refl)
                (λ ok' u w. (d.state_, opens c.state_ d.state_ ok h, works d.state_ u ok' w))))
          (λ ok d m.
            mono d _ _ _
              (in_finish-Gains socket sha1 base64_encode format_json d.state_ calls d refl)
              (λ ok' v f. moved m.1 m.2 (closes d.state_ v ok' f))))
        (λ ok d m.
          mono d _ _ _ (in_error-Gains socket sha1 base64_encode format_json d.state_ calls d refl)
            (λ ok' w e. (e.0, subst (Moves c.state_) (sym e.1) m)))

  -- The events of a connection: its socket changes, the poller reports it as readable and the
  -- channel runs handleRead and handleConn, or reports another event and handleConn runs alone.
  pub data Steps : Connection State → Connection State → Type 0 where
    arrives : {c d : Connection State} (s : State) → d ≡ record c { socket_ = s } → Steps c d
    readable :
        {c d : Connection State} (calls : Calls) (ok : Bool) (e : Connection State)
        → c.polled ≡ true
        → handle_read socket sha1 base64_encode format_json calls c ≡ returns ok e
        → d ≡ handle_conn e
        → Steps c d
    writable : {c d : Connection State} → c.polled ≡ true → d ≡ handle_conn c → Steps c d

  pub data Reaches (c : Connection State) : Connection State → Type 0 where
    here : Reaches c c
    after : {d e : Connection State} → Reaches c d → Steps d e → Reaches c e

  step-IsSound : {c d : Connection State} → IsSound c → Steps c d → IsSound d
  step-IsSound {c} {d} g (arrives s e) =
      let next : IsSound (record c { socket_ = s }) = record {
        rests = g.rests;
        polled_lem = g.polled_lem;
        held_lem = g.held_lem;
        idle_lem = g.idle_lem;
        valid = g.valid;
      } in
      subst IsSound (sym e) next
  step-IsSound {c} {d} g (readable calls ok e p r h) =
      let (grown, (fine, m)) = returned c e _ _ ok (handle_read-Moves calls c) r in
      let flags = open_flags c.polled (is_open c.state_) g.polled_lem p in
      subst IsSound (sym h) (
        handle_conn-IsSound e.state_ e refl (Moves-Rests m) (grown.keeps_polled ∙ p)
          (grown.keeps_held ∙ g.held_lem ∙ flags.0) (grown.keeps_idle ∙ g.idle_lem ∙ flags.1)
          (grown.keeps_valid g.valid))
  step-IsSound {c} {d} g (writable p h) =
      let flags = open_flags c.polled (is_open c.state_) g.polled_lem p in
      subst IsSound (sym h) (
        handle_conn-IsSound c.state_ c refl g.rests p (g.held_lem ∙ flags.0) (g.idle_lem ∙ flags.1)
          g.valid)

  -- Over every sequence of events of a new connection: it rests in the states HEAD, DATA, CLOSE
  -- and ERROR only; it is in the poller, and kept alive by its channel, exactly when the
  -- state is not CLOSE and not ERROR; the loop's idle flag is set exactly when the state is one
  -- of these two; and its packet is valid.
  pub Reaches-IsSound :
      (memory : List ℕ) (s : State) {d : Connection State}
      → Reaches (new_connection memory s) d
      → IsSound d
  Reaches-IsSound memory s here = new_connection-IsSound memory s
  Reaches-IsSound memory s (after r h) = step-IsSound (Reaches-IsSound memory s r) h
