-- ===== src/Client/Program/Senders/Hangs.antt =====
-- Why main may not end: an entry of thread_ids that no thread uses.
use dog_server.Base.{
  ℕ, ◌+◌, ◌≡◌, ◌≢◌, ◌<◌, inl, inr, refl, sym, ap, ◌∙◌, subst, true, false, Option, none, some, [],
  ◌∷◌, ◌++◌, arith, ◌==◌, leb, set_at, Bool-cases,
}
use dog_server.Client.Program.Senders.{
  Sender, starting, taking, linking, sending, locking, asleep, closing, leaving, done, Senders,
  minus_one, new_senders, put_thread, mark, take_item, wait_round, send_step, fail_step, hang_up,
  hang_up_step, spurious_step, all_ended, time_out, Step, sends, fails, hangs_up, wakes_spuriously,
  times_out, poll_fails, main_loops, Reaches, here, later,
}
use dog_server.Client.Program.Senders.Known.{id_of, id_of_woken, all_ended_at}

-- No thread has the number `i`, its entry is as it was, and the test of main has failed.
record IsUnused (i v : ℕ) (c : Senders) : Type 0 where
  others : (j id : ℕ) → id_of (c.threads j) ≡ some id → id ≢ i
  left : c.thread_ids i ≡ v
  going : c.finished ≡ false

module _ (i v : ℕ) (c : Senders) (s : IsUnused i v c) where
  Kept : Option Senders → Type 0
  Kept none = Unit
  Kept (some d) = IsUnused i v d

  put-IsUnused :
      (j : ℕ) (p : Sender) (d : Senders)
      → ((id : ℕ) → id_of p ≡ some id → id ≢ i)
      → d.threads ≡ set_at c.threads j p
      → d.thread_ids i ≡ c.thread_ids i
      → d.finished ≡ c.finished
      → IsUnused i v d
  put-IsUnused j p d new t h f = record {
    others = λ k id e. ground (arith, s.others k id, new id, ap (λ g. g k) t);
    left = h ∙ s.left;
    going = f ∙ s.going;
  }

  take_item-IsUnused : (list_num j id : ℕ) → id ≢ i → IsUnused i v (take_item list_num j id c)
  unfolding take_item
  take_item-IsUnused list_num j id o = elim (Bool-cases (leb list_num c.cur_pos)) [
    | inl none_left ↦ rw none_left (
        put-IsUnused j (leaving id) (put_thread j (leaving id) (mark id minus_one c))
          (λ k e. ground arith) refl (ground arith) refl)
    | inr more ↦ rw more (
        put-IsUnused j (linking id c.cur_pos)
          (record (put_thread j (linking id c.cur_pos) (mark id minus_one c)) {
            cur_pos = c.cur_pos + 1;
            taken = c.taken ++ (c.cur_pos ∷ []);
          })
          (λ k e. ground arith) refl (ground arith) refl)
  ]

  wait_round-IsUnused : (j id k : ℕ) → id ≢ i → IsUnused i v (wait_round j id k c)
  unfolding wait_round
  wait_round-IsUnused j id k o = elim (Bool-cases (c.thread_ids id == 1)) [
    | inl told ↦ rw told (
        put-IsUnused j (closing id k) (put_thread j (closing id k) (mark id minus_one c))
          (λ x e. ground arith) refl (ground arith) refl)
    | inr untold ↦ rw untold (
        put-IsUnused j (asleep id k) (put_thread j (asleep id k) c) (λ x e. ground arith) refl refl
          refl)
  ]

  send_step-Kept :
      (seen : ℕ → ℕ) (list_num j : ℕ) (p : Sender)
      → seen j ≢ i
      → ((id : ℕ) → id_of p ≡ some id → id ≢ i)
      → Kept (send_step seen list_num j p c)
  unfolding send_step Kept
  send_step-Kept seen list_num j starting o own =
      put-IsUnused j (taking (seen j)) (put_thread j (taking (seen j)) c) (λ x e. ground arith) refl
        refl refl
  send_step-Kept seen list_num j (taking id) o own = take_item-IsUnused list_num j id (own id refl)
  send_step-Kept seen list_num j (linking id k) o own =
      put-IsUnused j (sending id k) (put_thread j (sending id k) c) own refl refl refl
  send_step-Kept seen list_num j (sending id k) o own =
      put-IsUnused j (locking id k)
        (record (put_thread j (locking id k) c) { sent = c.sent ++ (k ∷ []) }) own refl refl refl
  send_step-Kept seen list_num j (locking id k) o own = wait_round-IsUnused j id k (own id refl)
  send_step-Kept seen list_num j (asleep id k) o own = tt
  send_step-Kept seen list_num j (closing id k) o own =
      put-IsUnused j (taking id) (put_thread j (taking id) c) own refl refl refl
  send_step-Kept seen list_num j (leaving id) o own =
      put-IsUnused j (done id) (put_thread j (done id) (mark id 2 c)) own refl
        (ground (arith, own id refl)) refl
  send_step-Kept seen list_num j (done id) o own = tt

  hang_up-IsUnused : (id : ℕ) → id ≢ i → IsUnused i v (hang_up id c)
  hang_up-IsUnused id o = record {
    others = λ j x e. s.others j x (sym (id_of_woken (c.threads j)) ∙ e);
    left = ground (arith, s.left);
    going = s.going;
  }

  hang_up_step-Kept :
      (p : Sender) → ((id : ℕ) → id_of p ≡ some id → id ≢ i) → Kept (hang_up_step p c)
  unfolding hang_up_step Kept
  hang_up_step-Kept (sending id k) own = hang_up-IsUnused id (own id refl)
  hang_up_step-Kept (locking id k) own = hang_up-IsUnused id (own id refl)
  hang_up_step-Kept (asleep id k) own = hang_up-IsUnused id (own id refl)
  hang_up_step-Kept (closing id k) own = hang_up-IsUnused id (own id refl)
  hang_up_step-Kept _ own = tt

  fail_step-Kept : (p : Sender) → Kept (fail_step p c)
  unfolding fail_step Kept
  fail_step-Kept (linking id k) = record { others = s.others; left = s.left; going = s.going }
  fail_step-Kept _ = tt

  spurious_step-Kept :
      (j : ℕ) (p : Sender) → ((id : ℕ) → id_of p ≡ some id → id ≢ i) → Kept (spurious_step j p c)
  unfolding spurious_step Kept
  spurious_step-Kept j (asleep id k) own =
      put-IsUnused j (locking id k) (put_thread j (locking id k) c) own refl refl refl
  spurious_step-Kept j _ own = tt

  time_out-IsUnused : (n : ℕ) → i < n → v ≢ 2 → IsUnused i v (time_out n c)
  unfolding time_out
  time_out-IsUnused n b w = elim (Bool-cases (all_ended c.thread_ids n)) [
    | inl ended ↦ absurd (w (sym s.left ∙ all_ended_at c.thread_ids n ended i b))
    | inr going ↦ rw going s
  ]

  Step-IsUnused :
      (seen : ℕ → ℕ) (n list_num : ℕ)
      → i < n
      → v ≢ 2
      → ((j : ℕ) → seen j ≢ i)
      → {d : Senders} → Step seen n list_num c d
      → IsUnused i v d
  unfolding Kept
  Step-IsUnused seen n list_num b w o (sends j l q) =
      subst Kept q (send_step-Kept seen list_num j (c.threads j) (o j) (s.others j))
  Step-IsUnused seen n list_num b w o (fails j l q) = subst Kept q (fail_step-Kept (c.threads j))
  Step-IsUnused seen n list_num b w o (hangs_up j l g q) =
      subst Kept q (hang_up_step-Kept (c.threads j) (s.others j))
  Step-IsUnused seen n list_num b w o (wakes_spuriously j l q) =
      subst Kept q (spurious_step-Kept j (c.threads j) (s.others j))
  Step-IsUnused seen n list_num b w o (times_out g) = time_out-IsUnused n b w
  Step-IsUnused seen n list_num b w o (poll_fails g) = record {
    others = s.others;
    left = s.left;
    going = s.going;
  }

Reaches-IsUnused :
    (seen : ℕ → ℕ) (n list_num i v : ℕ)
    → i < n
    → v ≢ 2
    → ((j : ℕ) → seen j ≢ i)
    → (c : Senders) → IsUnused i v c
    → {d : Senders} → Reaches seen n list_num c d
    → IsUnused i v d
Reaches-IsUnused seen n list_num i v b w o c s here = s
Reaches-IsUnused seen n list_num i v b w o c s (later {d} r st) =
    Step-IsUnused i v d (Reaches-IsUnused seen n list_num i v b w o c s r) seen n list_num b w o st

-- If no thread finds the number `i` in param->thread_id, because main had gone on to the next thread
-- before thread `i` read it, and the entry of `i` in thread_ids does not happen to hold 2, then main
-- never leaves its loop, whatever the threads and the server do, unless epoll_wait fails; an
-- exit(-1) of a thread ends the process inside it.
pub Reaches-unfinished :
    (seen garbage : ℕ → ℕ) (n list_num i : ℕ) (c : Senders)
    → i < n
    → garbage i ≢ 2
    → ((j : ℕ) → seen j ≢ i)
    → Reaches seen n list_num (new_senders garbage) c
    → c.broken ≡ false
    → main_loops c ≡ true
Reaches-unfinished seen garbage n list_num i c b w o r f =
    let s =
      Reaches-IsUnused seen n list_num i (garbage i) b w o (new_senders garbage)
        record { others = λ j id e. absurd (ground arith); left = refl; going = refl } r in
    ground (arith, s.going)
