-- ===== src/Tests/Pooling.antt =====
-- A pool of one thread, 7 with its loop at address 9.
use dog_server.Base.{
  ℕ, ◌+◌, ◌*◌, ◌≡◌, ◌≤◌, ◌⊎◌, refl, true, false, Bool, Option, none, some, List, [], ◌∷◌, ◌++◌,
  length, arith,
}
use dog_server.Threads.{
  LoopThread, latch_wait, count_down, thread_start, start_loop, quit_loop, call_step, run_step,
  run_in_thread, thread_func, loop_round, step, calls, runs,
}
use dog_server.Threads.Pool.{
  LoopPool, new_loop_pool, set_thread, Goes, starts, works, pushes, ends, PoolReaches, here,
  goes_next, GoesOn, rests, then_goes,
}
use dog_server.Threads.Pool.Starts.{Serves, PoolReaches-Serves, GoesOn-started}

abbrev ids : ℕ → ℕ
ids j = 7

abbrev addresses : ℕ → ℕ
addresses j = 9

-- A run that has pushed no loop yet.
record Ran : Type 0 where
  steps : ℕ
  last : LoopPool
  empty : length last.loops ≡ 0
  ran : GoesOn ids addresses 1 new_loop_pool steps last
  reach : PoolReaches ids addresses 1 last

called :
    (r : Ran) (o : Option LoopThread)
    → step 7 9 calls (r.last.threads (length r.last.loops)) ≡ o
    → Ran
called r none q = r
called r (some d) q =
    let g : Goes ids addresses 1 r.last (set_thread (length r.last.loops) d r.last) =
      starts (omega (arith, r.empty)) q in
    record {
      steps = 1 + r.steps;
      last = set_thread (length r.last.loops) d r.last;
      empty = r.empty;
      ran = then_goes r.ran g;
      reach = goes_next r.reach g;
    }

worked : (r : Ran) (o : Option LoopThread) → step 7 9 runs (r.last.threads 0) ≡ o → Ran
worked r none q = r
worked r (some d) q =
    let g : Goes ids addresses 1 r.last (set_thread 0 d r.last) = works 0 (omega arith) q in
    record {
      steps = 1 + r.steps;
      last = set_thread 0 d r.last;
      empty = r.empty;
      ran = then_goes r.ran g;
      reach = goes_next r.reach g;
    }

-- The caller's steps where `true`, the thread's where `false`.
turns : List Bool → Ran → Ran
unfolding called worked
turns [] r = r
turns (true ∷ bs) r = turns bs (called r _ refl)
turns (false ∷ bs) r = turns bs (worked r _ refl)

from_new : List Bool → Ran
unfolding turns
from_new bs =
    turns bs record { steps = 0; last = new_loop_pool; empty = refl; ran = rests; reach = here }

abbrev returned : Ran
returned =
    from_new (true ∷ true ∷ false ∷ false ∷ true ∷ true ∷ true ∷ false ∷ false ∷ true ∷ true ∷ [])

abbrev pushed : LoopPool
pushed = record returned.last { loops = returned.last.loops ++ (9 ∷ []) }

abbrev filled : LoopPool
filled = record pushed { started = true }

pushes-returned : Goes ids addresses 1 returned.last pushed
unfolding from_new turns called worked step call_step thread_start start_loop quit_loop latch_wait
    run_step run_in_thread thread_func loop_round count_down
pushes-returned = pushes 9 (omega arith) refl

ends-pushed : Goes ids addresses 1 pushed filled
unfolding from_new turns called worked step call_step thread_start start_loop quit_loop latch_wait
    run_step run_in_thread thread_func loop_round count_down
ends-pushed = ends refl refl

PoolReaches-Serves_example : Serves ids addresses 1 filled 0
PoolReaches-Serves_example =
    PoolReaches-Serves ids addresses 1 (λ j. omega arith) (λ j. omega arith) filled
      (goes_next (goes_next returned.reach pushes-returned) ends-pushed) refl 0 (omega arith)

GoesOn-started_example :
    (1 + (1 + returned.steps) ≤ 72 * 1 + 1)
    × ((filled.started ≡ true) ⊎ ((q : LoopPool) × Goes ids addresses 1 filled q))
GoesOn-started_example =
    GoesOn-started ids addresses 1 (1 + (1 + returned.steps)) (λ j. omega arith) (λ j. omega arith)
      new_loop_pool filled here (then_goes (then_goes returned.ran pushes-returned) ends-pushed)
