-- ===== src/Server/Connection/States.antt =====
-- The states that each block of handleRead leaves.
use dog_server.Base.{
  ℕ, ◌≡◌, refl, subst, ◌+◌, sym, ◌∙◌, ◌⊎◌, inl, inr, Bool, true, false, List, [], ◌++◌, append-nil,
  if◌then◌else◌,
}
use dog_server.Server.Socket.{Socket}
use dog_server.Server.Receive.{read_and_parse_packet}
use dog_server.Server.Receive.Valid.{read_and_parse_packet-IsValid}
use dog_server.Server.Send.{WriteCall}
use dog_server.Server.Connection.{
  ProcessState, state_head, state_start, state_data, state_finish, state_close, state_error,
  Connection, returns, Calls, after_packet, enter, is_parse_head, is_init, send_respond,
  send_error_respond, process_error, process_start, answer, process_packet, process_end, in_head,
  in_start, in_finish, in_error,
}
use dog_server.Server.Connection.Grows.{
  Stays, Succeeds, Gains, chain, gain, Grows-silent, Grows-by, after_send-Gains, touched-Gains,
  after_head-Gains, after_packet-Gains, enter-Gains, same-Gains, same-at, if-Gains,
}

-- The states between the blocks of handleRead.
abbrev pub Heads : ProcessState → Bool → ProcessState → Type 0
Heads state_head ok t = (ok ≡ true) × ((t ≡ state_start) ⊎ (t ≡ state_error))
Heads s ok t = (ok ≡ true) × (t ≡ s)

abbrev pub Starts : ProcessState → Bool → ProcessState → Type 0
Starts state_start ok t = (ok ≡ true) × (t ≡ state_data)
Starts state_data ok t = (ok ≡ true) × ((t ≡ state_data) ⊎ ((t ≡ state_finish) ⊎ (t ≡ state_error)))
Starts s ok t = (ok ≡ true) × (t ≡ s)

abbrev pub Finishes : ProcessState → Bool → ProcessState → Type 0
Finishes state_finish ok t = (ok ≡ true) × (t ≡ state_close)
Finishes s ok t = (ok ≡ true) × (t ≡ s)

module _ (socket : Socket) (sha1 base64_encode : List ℕ → List ℕ)
    (format_json : List ℕ → ℕ → List ℕ) where
  open socket use {State}

  answer-Gains :
      (n : ℕ) (calls : List WriteCall) (c : Connection State)
      → Gains c (Succeeds c.state_) (answer socket sha1 base64_encode format_json n calls c)
  unfolding answer
  answer-Gains n calls c =
      chain c (Stays c.state_) (Succeeds c.state_) _ _ (after_send-Gains c _)
        λ ok d e. same-at d c.state_ e

  process_packet-Gains :
      (calls : List WriteCall) (c : Connection State)
      → Gains c (Succeeds c.state_) (process_packet socket sha1 base64_encode format_json calls c)
  unfolding process_packet
  process_packet-Gains calls c =
      let p = c.read_packet_ in
      let stored = record c {
        this_conn_bytes_ = c.this_conn_bytes_ + p.len_;
        file = c.file ++ p.data_;
      } in
      if-Gains c _ _ _ _ (final-Gains _) (
        if-Gains c _ (is_init p.state_) _ _
          (chain c (Succeeds c.state_) (Succeeds c.state_) (returns true stored)
            (λ ok d. answer socket sha1 base64_encode format_json 0 calls d)
            (gain c stored _ true
              (Grows-by c stored [] p.data_ (sym (append-nil c.sent)) refl (λ v. v) refl refl refl)
              (refl, refl))
            (λ ok d e.
              subst
                (λ t. Gains d (Succeeds t) (answer socket sha1 base64_encode format_json 0 calls d))
                e.1 (answer-Gains 0 calls d)))
          (same-Gains c))
    where
      final-Gains :
          (b : Bool)
          → Gains c
              (Succeeds c.state_)
              (returns true (if b then record c { is_final_ = true } else c))
      final-Gains true =
          gain c _ _ true (Grows-silent c _ refl refl (λ v. v) refl refl refl) (refl, refl)
      final-Gains false = same-Gains c

  process_error-Gains :
      (calls : List WriteCall) (c : Connection State)
      → Gains c (Succeeds c.state_) (process_error socket sha1 base64_encode format_json calls c)
  unfolding process_error send_error_respond
  process_error-Gains calls c =
      if-Gains c _ (is_parse_head c.error_) _ _
        (chain c (Stays c.state_) (Succeeds c.state_) _ _ (touched-Gains c _)
          λ ok d e. same-at d c.state_ e)
        (same-Gains c)

  send_respond-Gains :
      (calls : List WriteCall) (c : Connection State)
      → Gains c (Stays c.state_) (send_respond socket sha1 base64_encode format_json calls c)
  unfolding send_respond
  send_respond-Gains calls c = touched-Gains c _

  entered :
      (next : ProcessState) (Q : Bool → ProcessState → Type 0) (ok : Bool) (c : Connection State)
      → Q true next
      → Q true state_error
      → Gains c Q (enter next ok c)
  entered next Q true c h k = gain c _ Q true (Grows-silent c _ refl refl (λ v. v) refl refl refl) h
  entered next Q false c h k =
      gain c _ Q true (Grows-silent c _ refl refl (λ v. v) refl refl refl) k

  pub in_head-Gains :
      (st : ProcessState) (calls : Calls) (c : Connection State)
      → c.state_ ≡ st
      → Gains c (Heads st) (in_head socket sha1 base64_encode format_json st calls c)
  unfolding in_head
  in_head-Gains state_head calls c e =
      chain c (Stays c.state_) (Heads state_head) _ _ (after_head-Gains c _) λ ok d f.
        if-Gains d _ ok _ _
          (chain d (Stays d.state_) (Heads state_head) _ _
            (send_respond-Gains calls.respond_writes d)
            λ ok' d' g.
              entered state_start (Heads state_head) ok' d' (refl, inl refl) (refl, inr refl))
          (entered state_start (Heads state_head) false d (refl, inl refl) (refl, inr refl))
  in_head-Gains state_start calls c e = same-at c state_start e
  in_head-Gains state_data calls c e = same-at c state_data e
  in_head-Gains state_finish calls c e = same-at c state_finish e
  in_head-Gains state_close calls c e = same-at c state_close e
  in_head-Gains state_error calls c e = same-at c state_error e

  read-Gains :
      (c : Connection State)
      → Gains c
          (Stays c.state_)
          (after_packet c (read_and_parse_packet socket c.read_packet_ c.socket_))
  read-Gains c =
      after_packet-Gains c _ (read_and_parse_packet-IsValid socket c.read_packet_ c.socket_)

  pub in_start-Gains :
      (st : ProcessState) (calls : Calls) (c : Connection State)
      → c.state_ ≡ st
      → Gains c (Starts st) (in_start socket sha1 base64_encode format_json st calls c)
  unfolding in_start process_start
  in_start-Gains state_start calls c e =
      gain c _ _ true (Grows-silent c _ refl refl (λ v. v) refl refl refl) (refl, refl)
  in_start-Gains state_data calls c e =
      chain c (Stays c.state_) (Starts state_data) _ _ (read-Gains c) λ ok d f.
        if-Gains d _ ok _ _
          (chain d (Succeeds d.state_) (Starts state_data) _ _
            (process_packet-Gains calls.packet_writes d)
            λ ok' d' g.
              entered _ (Starts state_data) ok' d'
                (final_or_data d'.is_final_ d'.state_ (g.1 ∙ f ∙ e)) (refl, inr (inr refl)))
          (entered state_data (Starts state_data) false d (refl, inl refl) (refl, inr (inr refl)))
    where
      final_or_data :
          (b : Bool) (s : ProcessState)
          → s ≡ state_data
          → Starts state_data true (if b then state_finish else s)
      final_or_data true s h = (refl, inr (inl refl))
      final_or_data false s h = (refl, inl h)
  in_start-Gains state_head calls c e = same-at c state_head e
  in_start-Gains state_finish calls c e = same-at c state_finish e
  in_start-Gains state_close calls c e = same-at c state_close e
  in_start-Gains state_error calls c e = same-at c state_error e

  pub in_finish-Gains :
      (st : ProcessState) (calls : Calls) (c : Connection State)
      → c.state_ ≡ st
      → Gains c (Finishes st) (in_finish socket sha1 base64_encode format_json st calls c)
  unfolding in_finish process_end
  in_finish-Gains state_finish calls c e =
      chain c (Succeeds c.state_) (Finishes state_finish) _ _ (answer-Gains 1 calls.end_writes c)
        λ ok d f.
          subst (λ b. Gains d (Finishes state_finish) (enter state_close b d)) (sym f.0)
            (enter-Gains state_close true d)
  in_finish-Gains state_head calls c e = same-at c state_head e
  in_finish-Gains state_start calls c e = same-at c state_start e
  in_finish-Gains state_data calls c e = same-at c state_data e
  in_finish-Gains state_close calls c e = same-at c state_close e
  in_finish-Gains state_error calls c e = same-at c state_error e

  pub in_error-Gains :
      (st : ProcessState) (calls : Calls) (c : Connection State)
      → c.state_ ≡ st
      → Gains c (Succeeds st) (in_error socket sha1 base64_encode format_json st calls c)
  unfolding in_error
  in_error-Gains state_error calls c e =
      subst
        (λ t.
          Gains c (Succeeds t)
            (process_error socket sha1 base64_encode format_json calls.error_writes c))
        e (process_error-Gains calls.error_writes c)
  in_error-Gains state_head calls c e = same-at c state_head e
  in_error-Gains state_start calls c e = same-at c state_start e
  in_error-Gains state_data calls c e = same-at c state_data e
  in_error-Gains state_finish calls c e = same-at c state_finish e
  in_error-Gains state_close calls c e = same-at c state_close e
