-- ===== src/Client/Program/Senders/Shared.antt =====
-- The list is shared out: each item to one thread, in order.
use dog_server.Base.{
  if◌then◌else◌, ◌≢◌, ℕ, zero, suc, ◌+◌, ◌≡◌, ◌≤◌, ◌<◌, inl, inr, refl, sym, ap, ◌∙◌, subst, true,
  Option, none, some, List, [], ◌∷◌, ◌++◌, arith, ◌==◌, leb, Bool-cases,
}
use dog_server.Client.Program.Senders.{
  Sender, starting, taking, linking, sending, locking, asleep, closing, leaving, done, Senders,
  minus_one, new_senders, put_thread, mark, woken, take_item, wait_round, send_step, fail_step,
  hang_up, hang_up_step, spurious_step, all_ended, time_out, Step, sends, fails, hangs_up,
  wakes_spuriously, times_out, poll_fails, poll_fails_step, Reaches, here, later,
}

-- The item that a thread has in hand.
abbrev pub item_of : Sender → Option ℕ
item_of (linking id k) = some k
item_of (sending id k) = some k
item_of (locking id k) = some k
item_of (asleep id k) = some k
item_of (closing id k) = some k
item_of _ = none

pub up_to : ℕ → List ℕ
up_to zero = []
up_to (suc n) = up_to n ++ (n ∷ [])

up_to_next : (n : ℕ) → up_to n ++ (n ∷ []) ≡ up_to (n + 1)
unfolding up_to
up_to_next n = let e : suc n ≡ n + 1 = omega arith in ap up_to e

item_of_woken : (p : Sender) → item_of (woken p) ≡ item_of p
item_of_woken p = ground arith

-- The item that a thread has taken and not yet sent.
abbrev pub unsent : Sender → Option ℕ
unsent (linking id k) = some k
unsent (sending id k) = some k
unsent _ = none

pub unsent_woken : (p : Sender) → unsent (woken p) ≡ unsent p
unsent_woken p = ground arith

-- How often an item was sent.
unfoldable pub count : ℕ → List ℕ → ℕ
count k [] = 0
count k (x ∷ xs) = (if x == k then 1 else 0) + count k xs

pub count-append :
    (k x : ℕ) (xs : List ℕ) → count k (xs ++ (x ∷ [])) ≡ count k xs + (if x == k then 1 else 0)
unfolding count
count-append k x [] = omega arith
count-append k x (y ∷ xs) = omega (arith, count-append k x xs)

-- The entry that a sleeping thread waits for.
abbrev pub asleep_on : Sender → Option ℕ
asleep_on (asleep id k) = some id
asleep_on _ = none

none_asleep : (p : Sender) → asleep_on (woken p) ≡ none
none_asleep p = ground arith

-- Every item below `cur_pos` was taken once, in order, no two threads have the same one, no thread
-- sleeps on an entry that is 1, and no item was sent twice, or before it was in hand.
pub record IsShared (list_num : ℕ) (c : Senders) : Type 0 where
  pub in_order : c.taken ≡ up_to c.cur_pos
  pub within : c.cur_pos ≤ list_num
  pub held : (j k : ℕ) → item_of (c.threads j) ≡ some k → k < c.cur_pos
  pub alone : (i j k : ℕ) → item_of (c.threads i) ≡ some k → item_of (c.threads j) ≡ some k → i ≡ j
  pub awake : (i id : ℕ) → asleep_on (c.threads i) ≡ some id → c.thread_ids id ≢ 1
  pub once : (k : ℕ) → count k c.sent ≤ 1
  pub fresh : (j k : ℕ) → unsent (c.threads j) ≡ some k → count k c.sent ≡ 0
  pub unseen : (k : ℕ) → c.cur_pos ≤ k → count k c.sent ≡ 0

module _ (seen : ℕ → ℕ) (list_num : ℕ) (c : Senders) (s : IsShared list_num c) where
  open s use {held, alone}

  -- A thread that keeps its item, or puts it down.
  keep :
      (d : Senders)
      → d.taken ≡ c.taken
      → d.cur_pos ≡ c.cur_pos
      → d.sent ≡ c.sent
      → ((i k : ℕ) → item_of (d.threads i) ≡ some k → item_of (c.threads i) ≡ some k)
      → ((i k : ℕ) → unsent (d.threads i) ≡ some k → unsent (c.threads i) ≡ some k)
      → ((i id : ℕ) → asleep_on (d.threads i) ≡ some id → d.thread_ids id ≢ 1)
      → IsShared list_num d
  keep d t p n h u w = record {
    awake = w;
    once = λ k. ground (arith, s.once k, n);
    fresh = λ j k e. ground (arith, s.fresh j k (u j k e), n);
    unseen = λ k l. ground (arith, s.unseen k, n);
    in_order = t ∙ s.in_order ∙ ap up_to (sym p);
    within = ground (arith, s.within);
    held = λ j k e. ground (arith, held j k (h j k e));
    alone = λ i j k e f. alone i j k (h i k e) (h j k f);
  }

  Kept : Option Senders → Type 0
  Kept none = Unit
  Kept (some d) = IsShared list_num d

  take_item-IsShared :
      (j id : ℕ) → c.threads j ≡ taking id → IsShared list_num (take_item list_num j id c)
  unfolding take_item up_to
  take_item-IsShared j id e = elim (Bool-cases (leb list_num c.cur_pos)) [
    | inl none_left ↦ rw none_left (
        keep (put_thread j (leaving id) (mark id minus_one c)) refl refl refl
          (λ i k h. ground arith) (λ i k h. ground arith) (λ i x h. ground (arith, s.awake i x)))
    | inr more ↦ rw more (record {
      in_order = ap (λ t. t ++ (c.cur_pos ∷ [])) s.in_order ∙ up_to_next c.cur_pos;
      within = ground arith;
      held = λ i k h. ground (arith, held i k);
      alone = λ i i' k h h'. ground (arith, alone i i' k, held i k, held i' k);
      awake = λ i x h. ground (arith, s.awake i x);
      once = s.once;
      fresh = λ i k h. ground (arith, s.fresh i k, s.unseen k);
      unseen = λ k l. s.unseen k (omega (arith, l));
    })
  ]

  wait_round-IsShared :
      (j id k : ℕ) → c.threads j ≡ locking id k → IsShared list_num (wait_round j id k c)
  unfolding wait_round
  wait_round-IsShared j id k e = elim (Bool-cases (c.thread_ids id == 1)) [
    | inl told ↦ rw told (
        keep (put_thread j (closing id k) (mark id minus_one c)) refl refl refl
          (λ i k' h. ground arith) (λ i k' h. ground arith) (λ i x h. ground (arith, s.awake i x)))
    | inr untold ↦ rw untold (
        keep (put_thread j (asleep id k) c) refl refl refl (λ i k' h. ground arith)
          (λ i k' h. ground arith) (λ i x h. ground (arith, s.awake i x)))
  ]

  sending-IsShared :
      (j id k : ℕ)
      → c.threads j ≡ sending id k
      → IsShared list_num (record (put_thread j (locking id k) c) { sent = c.sent ++ (k ∷ []) })
  sending-IsShared j id k e = record {
    in_order = s.in_order;
    within = s.within;
    held = λ i x h. ground (arith, held i x);
    alone = λ i i' x h h'. ground (arith, alone i i' x);
    awake = λ i x h. ground (arith, s.awake i x);
    once = λ x. ground (arith, s.once x, s.fresh j x, count-append x k c.sent);
    fresh = λ i x h. ground (arith, s.fresh i x, alone i j k, count-append x k c.sent);
    unseen = λ x l. ground (arith, s.unseen x, held j k, count-append x k c.sent);
  }

  send_step-IsShared : (j : ℕ) (p : Sender) → c.threads j ≡ p → Kept (send_step seen list_num j p c)
  unfolding send_step Kept wait_round
  send_step-IsShared j starting e =
      keep (put_thread j (taking (seen j)) c) refl refl refl (λ i k h. ground arith)
        (λ i k h. ground arith) (λ i x h. ground (arith, s.awake i x))
  send_step-IsShared j (taking id) e = take_item-IsShared j id e
  send_step-IsShared j (linking id k) e =
      keep _ refl refl refl (λ i k' h. ground arith) (λ i k' h. ground arith)
        (λ i x h. ground (arith, s.awake i x))
  send_step-IsShared j (sending id k) e = sending-IsShared j id k e
  send_step-IsShared j (locking id k) e = wait_round-IsShared j id k e
  send_step-IsShared j (asleep id k) e = tt
  send_step-IsShared j (closing id k) e =
      keep _ refl refl refl (λ i k' h. ground arith) (λ i k' h. ground arith)
        (λ i x h. ground (arith, s.awake i x))
  send_step-IsShared j (leaving id) e =
      keep _ refl refl refl (λ i k' h. ground arith) (λ i k' h. ground arith)
        (λ i x h. ground (arith, s.awake i x))
  send_step-IsShared j (done id) e = tt

  hang_up-IsShared : (id : ℕ) → IsShared list_num (hang_up id c)
  hang_up-IsShared id =
      keep (hang_up id c) refl refl refl (λ i k h. sym (item_of_woken (c.threads i)) ∙ h)
        (λ i k h. sym (unsent_woken (c.threads i)) ∙ h)
        (λ i x h. absurd (ground (arith, none_asleep (c.threads i))))

  hang_up_step-IsShared : (p : Sender) → Kept (hang_up_step p c)
  unfolding hang_up_step Kept
  hang_up_step-IsShared (sending id k) = hang_up-IsShared id
  hang_up_step-IsShared (locking id k) = hang_up-IsShared id
  hang_up_step-IsShared (asleep id k) = hang_up-IsShared id
  hang_up_step-IsShared (closing id k) = hang_up-IsShared id
  hang_up_step-IsShared _ = tt

  fail_step-IsShared : (p : Sender) → Kept (fail_step p c)
  unfolding fail_step Kept
  fail_step-IsShared (linking id k) =
      keep (record c { exited = true }) refl refl refl (λ i k h. h) (λ i k h. h) s.awake
  fail_step-IsShared _ = tt

  spurious_step-IsShared : (j : ℕ) (p : Sender) → c.threads j ≡ p → Kept (spurious_step j p c)
  unfolding spurious_step Kept
  spurious_step-IsShared j (asleep id k) e =
      keep (put_thread j (locking id k) c) refl refl refl (λ i k' h. ground arith)
        (λ i k' h. ground arith) (λ i x h. ground (arith, s.awake i x))
  spurious_step-IsShared j _ e = tt

  time_out-IsShared : (n : ℕ) → IsShared list_num (time_out n c)
  unfolding time_out
  time_out-IsShared n = elim (Bool-cases (all_ended c.thread_ids n)) [
    | inl ended ↦
        rw ended
          (keep (record c { finished = true }) refl refl refl (λ i k h. h) (λ i k h. h) s.awake)
    | inr going ↦ rw going s
  ]

  Step-IsShared : {n : ℕ} {d : Senders} → Step seen n list_num c d → IsShared list_num d
  unfolding Kept
  Step-IsShared (sends j b q) = subst Kept q (send_step-IsShared j (c.threads j) refl)
  Step-IsShared (fails j b q) = subst Kept q (fail_step-IsShared (c.threads j))
  Step-IsShared (hangs_up j b g q) = subst Kept q (hang_up_step-IsShared (c.threads j))
  Step-IsShared (wakes_spuriously j b q) =
      subst Kept q (spurious_step-IsShared j (c.threads j) refl)
  Step-IsShared {n} (times_out g) = time_out-IsShared n
  Step-IsShared (poll_fails g) =
      keep (poll_fails_step c) refl refl refl (λ i k h. h) (λ i k h. h) s.awake

Reaches-from :
    {seen : ℕ → ℕ} {n list_num : ℕ} {c : Senders}
    → IsShared list_num c
    → {d : Senders} → Reaches seen n list_num c d
    → IsShared list_num d
Reaches-from s here = s
Reaches-from {seen} {list_num} s (later {d} r st) =
    Step-IsShared seen list_num d (Reaches-from s r) st

-- Over every interleaving of the threads of dog-client, with any numbers found in
-- param->thread_id, failing connections, hang-ups and spurious wakes: the items that were taken
-- from the list are its first cur_pos ones, each once and in order; cur_pos stays within the
-- list; no two threads have the same item in hand; no item's file is sent twice; and no thread
-- sleeps while the entry of thread_ids that it waits for is 1.
pub Reaches-IsShared :
    (seen garbage : ℕ → ℕ) (n list_num : ℕ) (c : Senders)
    → Reaches seen n list_num (new_senders garbage) c
    → IsShared list_num c
unfolding up_to count
Reaches-IsShared seen garbage n list_num c r =
    Reaches-from
      record {
        in_order = refl;
        within = omega arith;
        held = λ j k e. absurd (ground arith);
        alone = λ i j k e f. absurd (ground arith);
        awake = λ i x h. absurd (ground arith);
        once = λ k. omega arith;
        fresh = λ j k e. refl;
        unseen = λ k l. refl;
      }
      r
