-- ===== src/Threads/Pool/Starts.antt =====
-- start of the pool comes to its end, with the loops of its threads in order.
use dog_server.Base.{
  ℕ, ◌+◌, ◌*◌, ◌-◌, ◌≡◌, ◌≤◌, ◌<◌, ◌⊎◌, inl, inr, refl, ap, ◌∙◌, subst, Bool, true, false, ◌||◌,
  Option, none, some, [], ◌∷◌, ◌++◌, length, length-append, Bool-cases, ◌==◌, ==_iff, arith,
}
use dog_server.Threads.{
  Caller, unstarted, has, LoopThread, thread_start, start_loop, quit_loop, call_step, step, calls,
  runs,
}
use dog_server.Threads.Sound.{IsSound}
use dog_server.Threads.Left.{
  Fits, left_in, left_in_bound, Less, calls-Less, runs-Less, Returned, can_go, goes, goes_on,
}
use dog_server.Threads.Pool.{
  LoopPool, set_thread, Goes, starts, works, pushes, ends, PoolReaches, goes_next, GoesOn, rests,
  then_goes,
}
use dog_server.Threads.Pool.Known.{below, Up, IsUp, IsPooled, PoolReaches-IsPooled}
use dog_server.Threads.Pool.Total.{total, total-less, total-bound}

abbrev unset : Bool → ℕ
unset true = 0
unset false = 1

handed_back : (p : Caller) (b : Bool) → Up p b → Returned p → (l : ℕ) × (p ≡ has l)
handed_back (has l) b u r = (l, refl)
handed_back p b u r = absurd (ground arith)

made_step : (o : Option LoopThread) → goes o ≡ true → (d : LoopThread) × (o ≡ some d)
made_step none h = absurd (ground arith)
made_step (some d) h = (d, refl)

module _ (id address : ℕ) (id_set : 0 < id) (there : 0 < address) where
  start_new : (c : LoopThread) → c.caller ≡ unstarted → goes (step id address calls c) ≡ true
  unfolding step call_step thread_start start_loop quit_loop
  start_new c e = ground arith

  begun : (p : Caller) (b : Bool) → Up p b → (p ≡ unstarted) ⊎ (b ≡ true)
  begun p b u = ground arith

  -- The thread that is being started.
  next_of :
      (c : LoopThread)
      → IsUp id address c
      → ((l : ℕ) × (c.caller ≡ has l)) ⊎ (can_go id address c ≡ true)
  next_of c s = elim (begun c.caller c.started s.up) [
    | inl e ↦ inr (ap (λ b. b || goes (step id address runs c)) (start_new c e))
    | inr b ↦ elim (goes_on id address id_set there c s.fits.sound b) [
      | inl r ↦ inl (handed_back c.caller c.started s.up r)
      | inr g ↦ inr g
    ]
  ]

module _ (ids addresses : ℕ → ℕ) (n : ℕ) (named : (j : ℕ) → 0 < ids j)
    (there : (j : ℕ) → 0 < addresses j) where
  left : LoopPool → ℕ
  left p = total n p.threads + (n - length p.loops) + unset p.started

  less_calls :
      (j : ℕ) (c d : LoopThread)
      → Fits (ids j) (addresses j) c
      → step (ids j) (addresses j) calls c ≡ some d
      → left_in d < left_in c
  less_calls j c d f q =
      subst (Less (left_in c)) q (calls-Less (ids j) (addresses j) (named j) (there j) c f)

  less_runs :
      (j : ℕ) (c d : LoopThread)
      → Fits (ids j) (addresses j) c
      → step (ids j) (addresses j) runs c ≡ some d
      → left_in d < left_in c
  less_runs j c d f q =
      subst (Less (left_in c)) q (runs-Less (ids j) (addresses j) (named j) (there j) c f)

  Goes-left :
      (p q : LoopPool) → IsPooled ids addresses n p → Goes ids addresses n p q → left q < left p
  unfolding left
  Goes-left p q s (starts {d} b e) =
      let k : ℕ = length p.loops in
      omega (arith, total-less n k p.threads d b (less_calls k (p.threads k) d (s.up k).fits e))
  Goes-left p q s (works j {d} b e) =
      omega (arith, total-less n j p.threads d b (less_runs j (p.threads j) d (s.up j).fits e))
  Goes-left p q s (pushes l b h) = omega (arith, length-append p.loops (l ∷ []))
  Goes-left p q s (ends e f) = rw f (omega arith)

  thread_step :
      (p : LoopPool)
      → length p.loops < n
      → can_go (ids (length p.loops)) (addresses (length p.loops)) (p.threads (length p.loops))
        ≡ true
      → (q : LoopPool) × Goes ids addresses n p q
  thread_step p b h =
      let k : ℕ = length p.loops in
      elim (Bool-cases (goes (step (ids k) (addresses k) calls (p.threads k)))) [
        | inl c ↦ let (d, e) = made_step _ c in (set_thread k d p, starts b e)
        | inr c ↦
            let (d, e) = made_step (step (ids k) (addresses k) runs (p.threads k)) (ground arith) in
            (set_thread k d p, works k b e)
      ]

  next_step :
      (p : LoopPool)
      → IsPooled ids addresses n p
      → (p.started ≡ true) ⊎ ((q : LoopPool) × Goes ids addresses n p q)
  next_step p s =
      let k : ℕ = length p.loops in
      elim (Bool-cases p.started) [
        | inl f ↦ inl f
        | inr f ↦ elim (Bool-cases (k == n)) [
          | inl e ↦ inr (record p { started = true }, ends ((==_iff k n).0 e) f)
          | inr o ↦
              let b : k < n = ground (arith, s.within) in
              elim (next_of (ids k) (addresses k) (named k) (there k) (p.threads k) (s.up k)) [
                | inl h ↦ inr (record p { loops = p.loops ++ (h.0 ∷ []) }, pushes h.0 b h.1)
                | inr h ↦ inr (thread_step p b h)
              ]
        ]
      ]

  GoesOn-left :
      {p : LoopPool}
      → PoolReaches ids addresses n p
      → {k : ℕ} {q : LoopPool} → GoesOn ids addresses n p k q
      → PoolReaches ids addresses n q × (k + left q ≤ left p)
  GoesOn-left r rests = (r, omega arith)
  GoesOn-left r (then_goes {k} {q} {q'} g h) =
      let (r', b) = GoesOn-left r g in
      (
        goes_next r' h,
        omega (arith, b, Goes-left q q' (PoolReaches-IsPooled ids addresses n named there r') h),
      )

  left_bound : (p : LoopPool) → IsPooled ids addresses n p → left p ≤ 72 * n + 1
  unfolding left
  left_bound p s =
      let sum = total-bound n p.threads (λ j.
        left_in_bound (ids j) (addresses j) (named j) (there j) (p.threads j) (s.up j).fits) in
      let flag : unset p.started ≤ 1 = ground arith in omega (arith, sum, flag)

-- What a started pool gives: its loops are those of its threads, in order, and each thread's
-- EventLoopThread has its loop and its identifier.
abbrev pub Serves : (ids addresses : ℕ → ℕ) → ℕ → LoopPool → ℕ → Type 0
Serves ids addresses n p j =
    (p.loops ≡ below addresses n)
    × ((p.threads j).loop ≡ addresses j)
    × ((p.threads j).tid ≡ ids j)
    × ((p.threads j).count ≡ 0)

served :
    (id address : ℕ) (c : LoopThread)
    → IsSound id address c
    → c.caller ≡ has address
    → (c.loop ≡ address) × (c.tid ≡ id) × (c.count ≡ 0)
served id address c s h = ground arith

-- However the pool's threads are interleaved with the thread in start, and whichever conditions wake
-- without a notify, with identifiers above 0 and loops whose addresses are not NULL, where no
-- pthread_create fails: once start has set started_, loops_ holds the loops of the numThreads_
-- threads in order; and each EventLoopThread has its loop in loop_, its thread's identifier in
-- tid_ and its latch at 0.
pub PoolReaches-Serves :
    (ids addresses : ℕ → ℕ) (n : ℕ)
    → ((j : ℕ) → 0 < ids j)
    → ((j : ℕ) → 0 < addresses j)
    → (p : LoopPool) → PoolReaches ids addresses n p
    → p.started ≡ true
    → (j : ℕ) → j < n
    → Serves ids addresses n p j
PoolReaches-Serves ids addresses n named there p r f j b =
    let s = PoolReaches-IsPooled ids addresses n named there r in
    let full = s.whole f in
    let (loop, tid, count) =
      served (ids j) (addresses j) (p.threads j) (s.up j).fits.sound
        (s.handed j (omega (arith, full))) in
    (s.in_order ∙ ap (below addresses) full, loop, tid, count)

-- From any state on the way, and however the steps are interleaved, with identifiers above 0 and
-- loops whose addresses are not NULL, where no pthread_create fails: the threads' own steps come
-- to an end, after at most 72 for each thread of the pool and one more, and until start has set
-- started_, there is always a next one.
pub GoesOn-started :
    (ids addresses : ℕ → ℕ) (n k : ℕ)
    → ((j : ℕ) → 0 < ids j)
    → ((j : ℕ) → 0 < addresses j)
    → (p q : LoopPool) → PoolReaches ids addresses n p
    → GoesOn ids addresses n p k q
    → (k ≤ 72 * n + 1) × ((q.started ≡ true) ⊎ ((r : LoopPool) × Goes ids addresses n q r))
GoesOn-started ids addresses n k named there p q r g =
    let (r', b) = GoesOn-left ids addresses n named there r g in
    (
      omega (
        arith,
        b,
        left_bound ids addresses n named there p
            (PoolReaches-IsPooled ids addresses n named there r),
      ),
      next_step ids addresses n named there q (PoolReaches-IsPooled ids addresses n named there r'),
    )
