-- ===== src/Server/Loop/Wakeup.antt =====
-- No functor is lost, and none waits while the loop sleeps.
use dog_server.Base.{
  ℕ, zero, suc, ◌+◌, ◌≡◌, ◌<◌, refl, sym, ap, ◌∙◌, subst, true, false, Option, none, some, List, [],
  ◌∷◌, ◌++◌, append_assoc, append-nil, length, arith,
}
use dog_server.Server.Loop.{
  Phase, polling, handling, calling, EventLoop, new_loop, wakeup, handle_read, queue_in_loop, Event,
  queues, wakes, reports, reads_wakeup, queues_own, swaps, calls, returns, step_from, wake_one,
  step, and_then, run,
}

-- The functors that a run queues, in order.
abbrev pub queued : List Event → List ℕ
queued [] = []
queued (queues f ∷ es) = f ∷ queued es
queued (queues_own f ∷ es) = f ∷ queued es
queued (_ ∷ es) = queued es

abbrev pub queued_by : Event → List ℕ
queued_by e = queued (e ∷ [])

abbrev pub left_of : Phase → List ℕ
left_of (calling left) = left
left_of polling = []
left_of handling = []

abbrev pub all_functors : EventLoop → List ℕ
all_functors c = c.called ++ (left_of c.phase ++ c.pending_functors)

-- Outside the handlers, functors that wait come with a wakeup that is written or on its way.
abbrev pub Woken : Phase → EventLoop → Type 0
Woken handling c = c.calling_pending_functors ≡ false
Woken polling c =
    (c.calling_pending_functors ≡ false)
    × (0 < length c.pending_functors → 0 < c.wakeups + c.waking)
Woken (calling left) c =
    (c.calling_pending_functors ≡ true) × (0 < length c.pending_functors → 0 < c.wakeups + c.waking)

-- What a step leaves.
abbrev After : EventLoop → Event → Option EventLoop → Type 0
After c e none = Unit
After c e (some d) = Woken d.phase d × (all_functors d ≡ all_functors c ++ queued_by e)

step_from-After :
    (p : Phase) (e : Event) (c : EventLoop) → c.phase ≡ p → Woken p c → After c e (step_from p e c)
unfolding step_from handle_read queue_in_loop wakeup
step_from-After polling reports c h w = (w.0, simp (h, append-nil))
step_from-After handling reads_wakeup c h w = (simp h w, simp (h, append-nil))
step_from-After handling (queues_own f) c h w = rw w (simp h refl, simp (h, append_assoc))
step_from-After (calling left) (queues_own f) c h w =
    rw w.0 (simp h (refl, (λ k. omega arith)), simp (h, append_assoc))
step_from-After handling swaps c h w = ((refl, (λ k. omega arith)), simp (h, append-nil))
step_from-After (calling (f ∷ left)) calls c h w = (w, simp (h, append-nil, append_assoc))
step_from-After (calling []) returns c h w = ((refl, w.1), simp (h, append-nil))
step_from-After _ _ c h w = tt

-- A step that leaves the flag and has a wakeup written or on its way.
Woken-by :
    (p : Phase) (c d : EventLoop)
    → d.calling_pending_functors ≡ c.calling_pending_functors
    → 0 < d.wakeups + d.waking
    → Woken p c
    → Woken p d
Woken-by handling c d e h w = e ∙ w
Woken-by polling c d e h w = (e ∙ w.0, (λ k. h))
Woken-by (calling left) c d e h w = (e ∙ w.0, (λ k. h))

wake_one-After :
    (n : ℕ) (c : EventLoop) → c.waking ≡ n → Woken c.phase c → After c wakes (wake_one n c)
unfolding wakeup
wake_one-After zero c h w = tt
wake_one-After (suc n) c h w = (
  Woken-by c.phase c (wakeup (record c { waking = n })) refl (omega arith) w,
  sym (append-nil (all_functors c)),
)

step-After : (e : Event) (c : EventLoop) → Woken c.phase c → After c e (step e c)
unfolding step
step-After (queues f) c w = (Woken-by c.phase c _ refl (omega arith) w, simp append_assoc)
step-After wakes c w = wake_one-After c.waking c refl w
step-After reports c w = step_from-After c.phase reports c refl w
step-After reads_wakeup c w = step_from-After c.phase reads_wakeup c refl w
step-After (queues_own f) c w = step_from-After c.phase (queues_own f) c refl w
step-After swaps c w = step_from-After c.phase swaps c refl w
step-After calls c w = step_from-After c.phase calls c refl w
step-After returns c w = step_from-After c.phase returns c refl w

queued_cons : (e : Event) (es : List Event) → queued_by e ++ queued es ≡ queued (e ∷ es)
queued_cons (queues f) es = refl
queued_cons (queues_own f) es = refl
queued_cons wakes es = refl
queued_cons reports es = refl
queued_cons reads_wakeup es = refl
queued_cons swaps es = refl
queued_cons calls es = refl
queued_cons returns es = refl

-- The functors `fs` are called, swapped out or waiting, in this order, and none waits unheard.
pub record IsWoken (c : EventLoop) (fs : List ℕ) : Type 0 where
  pub woken : Woken c.phase c
  pub in_order : all_functors c ≡ fs

value_or : EventLoop → Option EventLoop → EventLoop
value_or c none = c
value_or c (some d) = d

after_step :
    (c d : EventLoop) (fs : List ℕ) (e : Event) (o : Option EventLoop)
    (rest : EventLoop → Option EventLoop) (P : EventLoop → Type 0)
    → After c e o
    → all_functors c ≡ fs
    → and_then o rest ≡ some d
    → ((c' : EventLoop) → IsWoken c' (fs ++ queued_by e) → rest c' ≡ some d → P d)
    → P d
after_step c d fs e none rest P a k q f = absurd (ground arith)
after_step c d fs e (some c') rest P a k q f =
    f c' record { woken = a.0; in_order = a.1 ∙ ap (λ t. t ++ queued_by e) k } q

run-from :
    (es : List Event) (c d : EventLoop) (fs : List ℕ)
    → IsWoken c fs
    → run es c ≡ some d
    → IsWoken d (fs ++ queued es)
unfolding run value_or
run-from [] c d fs s q =
    subst (λ t. IsWoken t (fs ++ [])) (ap (value_or c) q)
      (subst (IsWoken c) (sym (append-nil fs)) s)
run-from (e ∷ es) c d fs s q =
    after_step c d fs e (step e c) (run es) (λ t. IsWoken t (fs ++ queued (e ∷ es)))
      (step-After e c s.woken) s.in_order q
      λ c' s' q'.
        subst (IsWoken d)
          (append_assoc fs (queued_by e) (queued es) ∙ ap (λ t. fs ++ t) (queued_cons e es))
          (run-from es c' d (fs ++ queued_by e) s' q')

-- After every interleaving of the loop's thread with threads that queue functors: the functors
-- that were called, those that are swapped out and those that wait are together all that were
-- queued, once each and in order; and if one waits while the loop is in epoll_wait, or in
-- doPendingFunctors, then a wakeup stands in the eventfd or another thread is about to write
-- it. While doPendingFunctors runs, and only then, the flag is set.
pub run-IsWoken :
    (es : List Event) (d : EventLoop) → run es new_loop ≡ some d → IsWoken d (queued es)
run-IsWoken es d q =
    run-from es new_loop d [] record { woken = (refl, (λ k. k)); in_order = refl } q
