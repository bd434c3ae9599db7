-- ===== src/Client/Program/Senders/Moving.antt =====
-- Each step of the senders keeps what main relies on.
use dog_server.Base.{
  ℕ, ◌≡◌, ◌≢◌, ◌≤◌, ◌<◌, inl, inr, refl, sym, ap, ◌∙◌, subst, true, false, Option, none, some, [],
  ◌∷◌, ◌++◌, arith, ◌==◌, leb, set_at, Bool-cases,
}
use dog_server.Client.Program.Senders.{
  Sender, starting, taking, linking, sending, locking, asleep, closing, leaving, done, Senders,
  minus_one, put_thread, take_item, wait_round, send_step, fail_step, hang_up, hang_up_step,
  spurious_step, all_ended, time_out, Step, sends, fails, hangs_up, wakes_spuriously, times_out,
  poll_fails,
}
use dog_server.Client.Program.Senders.Known.{
  id_of, is_over, is_done, has-append, id_of_woken, is_over_woken, is_done_woken, all_ended_at,
  IsKnown, Moves, Moves-IsKnown,
}
use dog_server.Client.Program.Senders.Shared.{unsent, unsent_woken}

module _ (n list_num : ℕ) (c : Senders) (s : IsKnown n list_num c) where
  Made : ℕ → Option Senders → Type 0
  Made j none = Unit
  Made j (some d) = Moves list_num c j d

  -- A step that takes no item and sends none.
  moved :
      (j : ℕ) (p p' : Sender) (ids : ℕ → ℕ)
      → c.threads j ≡ p
      → ((i : ℕ) → i ≢ j → ids i ≡ c.thread_ids i)
      → id_of p' ≡ some j
      → (ids j ≡ 2 → is_done p' ≡ true)
      → (is_over p' ≡ true → list_num ≤ c.cur_pos)
      → ((k : ℕ) → unsent p ≡ some k → unsent p' ≡ some k)
      → is_done p ≡ false
      → Moves list_num c j (record (put_thread j p' c) { thread_ids = ids })
  moved j p p' ids e slots own slot over kept going = record {
    others = λ i o. ground arith;
    slots = slots;
    own = λ id h. ground arith;
    slot = λ h. ground (arith, slot);
    over = λ h. ground (arith, over);
    grows = omega arith;
    keeps_sent = λ k h. h;
    puts_down = λ k h. inr (ground (arith, kept k));
    takes = λ k h. inl h;
    not_done = ap is_done e ∙ going;
    same = refl;
  }

  mine_lem : (j id : ℕ) (p : Sender) → c.threads j ≡ p → id_of p ≡ some id → id ≡ j
  mine_lem j id p e h = s.own j id (ap id_of e ∙ h)

  take_item-Moves :
      (j id : ℕ) → id ≡ j → c.threads j ≡ taking id → Moves list_num c j (take_item list_num j id c)
  unfolding take_item
  take_item-Moves j id mine e = elim (Bool-cases (leb list_num c.cur_pos)) [
    | inl none_left ↦ rw none_left (
        moved j (taking id) (leaving id) (set_at c.thread_ids id minus_one) e (λ i o. ground arith)
          (ap some mine) (λ h. ground arith) (λ h. ground arith) (λ k h. ground arith) refl)
    | inr more ↦ rw more (record {
      others = λ i o. ground arith;
      slots = λ i o. ground arith;
      own = λ id h. ground arith;
      slot = λ h. ground arith;
      over = λ h. ground arith;
      grows = omega arith;
      keeps_sent = λ k h. h;
      puts_down = λ k h. absurd (ground arith);
      takes = λ k h. ground arith;
      not_done = ap is_done e;
      same = refl;
    })
  ]

  wait_round-Moves :
      (j id k : ℕ) → id ≡ j → c.threads j ≡ locking id k → Moves list_num c j (wait_round j id k c)
  unfolding wait_round
  wait_round-Moves j id k mine e = elim (Bool-cases (c.thread_ids id == 1)) [
    | inl told ↦ rw told (
        moved j (locking id k) (closing id k) (set_at c.thread_ids id minus_one) e
          (λ i o. ground arith) (ap some mine) (λ h. ground arith) (λ h. ground arith) (λ k h. h)
          refl)
    | inr untold ↦ rw untold (
        moved j (locking id k) (asleep id k) c.thread_ids e (λ i o. refl) (ap some mine)
          (λ h. ground (arith, s.slot j)) (λ h. ground arith) (λ k h. h) refl)
  ]

  sending-Moves :
      (j id k : ℕ)
      → id ≡ j
      → c.threads j ≡ sending id k
      → Moves list_num c j (record (put_thread j (locking id k) c) { sent = c.sent ++ (k ∷ []) })
  sending-Moves j id k mine e = record {
    others = λ i o. ground arith;
    slots = λ i o. refl;
    own = λ id h. ground arith;
    slot = λ h. ground (arith, s.slot j);
    over = λ h. ground arith;
    grows = omega arith;
    keeps_sent = λ x h. ground (arith, has-append x k c.sent);
    puts_down = λ x h. inl (ground (arith, has-append x k c.sent));
    takes = λ x h. inl h;
    not_done = ap is_done e;
    same = refl;
  }

  send_step-Made :
      (seen : ℕ → ℕ) (j : ℕ) (p : Sender)
      → seen j ≡ j
      → c.threads j ≡ p
      → Made j (send_step seen list_num j p c)
  unfolding Made send_step
  send_step-Made seen j starting mine e =
      moved j starting (taking (seen j)) c.thread_ids e (λ i o. refl) (ap some mine)
        (λ h. ground (arith, s.slot j)) (λ h. ground arith) (λ k h. ground arith) refl
  send_step-Made seen j (taking id) mine e = take_item-Moves j id (mine_lem j id _ e refl) e
  send_step-Made seen j (linking id k) mine e =
      moved j (linking id k) (sending id k) c.thread_ids e (λ i o. refl)
        (ap some (mine_lem j id _ e refl)) (λ h. ground (arith, s.slot j)) (λ h. ground arith)
        (λ k h. h) refl
  send_step-Made seen j (sending id k) mine e = sending-Moves j id k (mine_lem j id _ e refl) e
  send_step-Made seen j (locking id k) mine e = wait_round-Moves j id k (mine_lem j id _ e refl) e
  send_step-Made seen j (asleep id k) mine e = tt
  send_step-Made seen j (closing id k) mine e =
      moved j (closing id k) (taking id) c.thread_ids e (λ i o. refl)
        (ap some (mine_lem j id _ e refl)) (λ h. ground (arith, s.slot j)) (λ h. ground arith)
        (λ k h. ground arith) refl
  send_step-Made seen j (leaving id) mine e =
      moved j (leaving id) (done id) (set_at c.thread_ids id 2) e
        (λ i o. ground (arith, mine_lem j id _ e refl)) (ap some (mine_lem j id _ e refl))
        (λ h. refl) (λ h. s.over j (ap is_over e)) (λ k h. ground arith) refl
  send_step-Made seen j (done id) mine e = tt

  Known : Option Senders → Type 0
  Known none = Unit
  Known (some d) = IsKnown n list_num d

  Made-Known : (j : ℕ) (o : Option Senders) → j < n → Made j o → Known o
  unfolding Made Known
  Made-Known j none b m = tt
  Made-Known j (some d) b m = Moves-IsKnown n list_num c s j d b m

  hang_up-IsKnown : (id : ℕ) → IsKnown n list_num (hang_up id c)
  hang_up-IsKnown id = record {
    own = λ j i e. s.own j i (sym (id_of_woken (c.threads j)) ∙ e);
    slot = λ j e. is_done_woken (c.threads j) ∙ s.slot j (ground arith);
    over = λ j e. s.over j (sym (is_over_woken (c.threads j)) ∙ e);
    sent_or_held = λ k l. elim (s.sent_or_held k l) [
      | inl h ↦ inl h
      | inr h ↦ inr (h.0, h.1, unsent_woken (c.threads h.0) ∙ h.2)
    ];
    finished_lem = λ f j l. is_done_woken (c.threads j) ∙ s.finished_lem f j l;
  }

  hang_up_step-Known : (p : Sender) → Known (hang_up_step p c)
  unfolding hang_up_step Known
  hang_up_step-Known (sending id k) = hang_up-IsKnown id
  hang_up_step-Known (locking id k) = hang_up-IsKnown id
  hang_up_step-Known (asleep id k) = hang_up-IsKnown id
  hang_up_step-Known (closing id k) = hang_up-IsKnown id
  hang_up_step-Known _ = tt

  fail_step-Known : (p : Sender) → Known (fail_step p c)
  unfolding fail_step Known
  fail_step-Known (linking id k) = record {
    own = s.own;
    slot = s.slot;
    over = s.over;
    sent_or_held = s.sent_or_held;
    finished_lem = s.finished_lem;
  }
  fail_step-Known _ = tt

  spurious_step-Made : (j : ℕ) (p : Sender) → c.threads j ≡ p → Made j (spurious_step j p c)
  unfolding spurious_step Made
  spurious_step-Made j (asleep id k) e =
      moved j (asleep id k) (locking id k) c.thread_ids e (λ i o. refl)
        (ap some (mine_lem j id _ e refl)) (λ h. ground (arith, s.slot j)) (λ h. ground arith)
        (λ k h. h) refl
  spurious_step-Made j _ e = tt

  time_out-IsKnown : IsKnown n list_num (time_out n c)
  unfolding time_out
  time_out-IsKnown = elim (Bool-cases (all_ended c.thread_ids n)) [
    | inl ended ↦ rw ended (record {
      own = s.own;
      slot = s.slot;
      over = s.over;
      sent_or_held = s.sent_or_held;
      finished_lem = λ f j l. s.slot j (all_ended_at c.thread_ids n ended j l);
    })
    | inr going ↦ rw going s
  ]

  pub Step-IsKnown :
      (seen : ℕ → ℕ)
      → ((j : ℕ) → seen j ≡ j)
      → {d : Senders} → Step seen n list_num c d
      → IsKnown n list_num d
  unfolding Known
  Step-IsKnown seen mine (sends j b q) =
      subst Known q (Made-Known j _ b (send_step-Made seen j (c.threads j) (mine j) refl))
  Step-IsKnown seen mine (fails j b q) = subst Known q (fail_step-Known (c.threads j))
  Step-IsKnown seen mine (hangs_up j b g q) = subst Known q (hang_up_step-Known (c.threads j))
  Step-IsKnown seen mine (wakes_spuriously j b q) =
      subst Known q (Made-Known j _ b (spurious_step-Made j (c.threads j) refl))
  Step-IsKnown seen mine (times_out g) = time_out-IsKnown
  Step-IsKnown seen mine (poll_fails g) = record {
    own = s.own;
    slot = s.slot;
    over = s.over;
    sent_or_held = s.sent_or_held;
    finished_lem = s.finished_lem;
  }
