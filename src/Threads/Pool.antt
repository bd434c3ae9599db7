-- ===== src/Threads/Pool.antt =====
-- EventLoopThreadPool::start (src/event-loop-thread-pool.cc): the base loop's thread starts one
-- EventLoopThread after the other, while those that it has started run.
pub mod Known
pub mod Total
pub mod Starts
use dog_server.Base.{
  ℕ, ◌+◌, ◌≡◌, ◌<◌, Bool, true, false, Option, none, some, List, [], ◌∷◌, ◌++◌, length, set_at,
}
use dog_server.Threads.{
  LoopThread, new_loop_thread, Caller, has, Turn, calls, runs, reports, wakes_spuriously, step,
}

-- `threads_` by number, `loops_` as addresses, and `started_`.
pub record LoopPool : Type 0 where
  pub threads : ℕ → LoopThread
  pub loops : List ℕ
  pub started : Bool

abbrev pub new_loop_pool : LoopPool
new_loop_pool = record { threads = λ j. new_loop_thread; loops = []; started = false }

abbrev pub set_thread : ℕ → LoopThread → LoopPool → LoopPool
set_thread j d p = record p { threads = set_at p.threads j d }

-- The system names thread `j` `ids j`, and its loop stands at `addresses j`; `n` is numThreads_.
module _ (ids addresses : ℕ → ℕ) (n : ℕ) where
  -- The steps that the threads make by themselves: startLoop of the thread that is being started, a
  -- thread that was started, push_back of the loop that startLoop has returned, and the end.
  pub data Goes (p : LoopPool) : LoopPool → Type 0 where
    starts :
        {d : LoopThread}
        → length p.loops < n
        → step
            (ids (length p.loops))
            (addresses (length p.loops))
            calls
            (p.threads (length p.loops))
          ≡ some d
        → Goes p (set_thread (length p.loops) d p)
    works :
        (j : ℕ) {d : LoopThread}
        → j < n
        → step (ids j) (addresses j) runs (p.threads j) ≡ some d
        → Goes p (set_thread j d p)
    pushes :
        (l : ℕ)
        → length p.loops < n
        → (p.threads (length p.loops)).caller ≡ has l
        → Goes p (record p { loops = p.loops ++ (l ∷ []) })
    ends : length p.loops ≡ n → p.started ≡ false → Goes p (record p { started = true })

  -- What the system may do meanwhile: a condition wakes without a notify, a poller reports.
  pub data Meets (p : LoopPool) : LoopPool → Type 0 where
    wakes :
        (j : ℕ) {d : LoopThread}
        → j < n
        → step (ids j) (addresses j) wakes_spuriously (p.threads j) ≡ some d
        → Meets p (set_thread j d p)
    polls :
        (j : ℕ) {d : LoopThread}
        → j < n
        → step (ids j) (addresses j) reports (p.threads j) ≡ some d
        → Meets p (set_thread j d p)

  pub data PoolReaches : LoopPool → Type 0 where
    here : PoolReaches new_loop_pool
    goes_next : {p q : LoopPool} → PoolReaches p → Goes p q → PoolReaches q
    meets_next : {p q : LoopPool} → PoolReaches p → Meets p q → PoolReaches q

  -- `k` steps of the threads' own.
  pub data GoesOn (p : LoopPool) : ℕ → LoopPool → Type 0 where
    rests : GoesOn p 0 p
    then_goes : {k : ℕ} {q q' : LoopPool} → GoesOn p k q → Goes q q' → GoesOn p (1 + k) q'
