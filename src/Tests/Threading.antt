-- ===== src/Tests/Threading.antt =====
-- A thread 7 whose loop stands at address 9, started and destroyed in three orders.
use dog_server.Base.{
  ℕ, suc, ◌≡◌, refl, true, false, some, List, [], ◌∷◌, ◌++◌, arith, Option, none, Bool, inl,
}
use dog_server.Threads.{
  Caller, has, quitting, waking, gone, entering, polling, ended, LoopThread, new_loop_thread,
  latch_wait, count_down, thread_start, start_loop, quit_loop, destroy, call_step, destroy_step,
  run_step, run_in_thread, thread_func, loop_round, step, Turn, calls, runs, destroys, Reaches,
  here, later,
}
use dog_server.Threads.Sound.{Promise, Reaches-Promise}
use dog_server.Threads.Ends.{Runs, rests, calls_next, runs_next}
use dog_server.Threads.Lost.{Blocks, Reaches-Blocks}

-- The state that a list of events leads to; an event that is not possible is passed over.
record Reached (c : LoopThread) : Type 0 where
  last : LoopThread
  reach : Reaches 7 9 c last

taken :
    {c : LoopThread} (e : Turn) (r : Reached c) (o : Option LoopThread)
    → step 7 9 e r.last ≡ o
    → Reached c
taken e r none q = r
taken e r (some d) q = record { last = d; reach = later e r.reach q }

events : {c : LoopThread} → List Turn → Reached c → Reached c
unfolding taken
events [] r = r
events (e ∷ es) r = events es (taken e r (step 7 9 e r.last) refl)

from : (c : LoopThread) → List Turn → Reached c
unfolding events
from c es = events es record { last = c; reach = here }

abbrev from_new : List Turn → Reached new_loop_thread
from_new = from new_loop_thread

-- The same with the threads' own steps from a given state, the caller's where `true`.
record Ran (c : LoopThread) : Type 0 where
  steps : ℕ
  last : LoopThread
  ran : Runs 7 9 c steps last

called : {c : LoopThread} (r : Ran c) (o : Option LoopThread) → step 7 9 calls r.last ≡ o → Ran c
called r none q = r
called r (some d) q = record { steps = suc r.steps; last = d; ran = calls_next r.ran q }

worked : {c : LoopThread} (r : Ran c) (o : Option LoopThread) → step 7 9 runs r.last ≡ o → Ran c
worked r none q = r
worked r (some d) q = record { steps = suc r.steps; last = d; ran = runs_next r.ran q }

turns : {c : LoopThread} → List Bool → Ran c → Ran c
unfolding called worked
turns [] r = r
turns (true ∷ es) r = turns es (called r (step 7 9 calls r.last) refl)
turns (false ∷ es) r = turns es (worked r (step 7 9 runs r.last) refl)

ran_from : (c : LoopThread) → List Bool → Ran c
unfolding turns
ran_from c es = turns es record { steps = 0; last = c; ran = rests }

abbrev made : Reached new_loop_thread
made = from_new (calls ∷ [])

-- The caller sleeps on the latch and on loop_, and is woken by both.
abbrev sleepy : List Bool
sleepy = true ∷ false ∷ false ∷ true ∷ true ∷ true ∷ false ∷ false ∷ true ∷ true ∷ []

abbrev returned : LoopThread
returned = record {
  caller = has 9;
  child = entering;
  started = true;
  joined = false;
  detached = false;
  tid = 7;
  count = 0;
  loop = 9;
  quit = false;
  wakeups = 0;
}

sleepy-returned :
    ((ran_from made.last sleepy).last ≡ returned) × ((ran_from made.last sleepy).steps ≡ 10)
unfolding ran_from turns called worked from events taken step call_step thread_start start_loop
    quit_loop latch_wait run_step run_in_thread thread_func loop_round count_down
sleepy-returned = (refl, refl)

abbrev start_events : List Turn
start_events =
    calls ∷ calls ∷ runs ∷ runs ∷ calls ∷ calls ∷ calls ∷ runs ∷ runs ∷ calls ∷ calls ∷ []

Reaches-Promise_example : Promise 7 9 (has 9) returned
unfolding from events taken step call_step thread_start start_loop quit_loop latch_wait run_step
    run_in_thread thread_func loop_round count_down
Reaches-Promise_example =
    Reaches-Promise 7 9 (omega arith) (omega arith) returned (from_new start_events).reach

-- The new thread is in epoll_wait as the destructor begins.
abbrev quits : List Turn
quits = start_events ++ runs ∷ runs ∷ destroys ∷ []

abbrev asleep : LoopThread
asleep = record returned { caller = quitting; child = polling }

abbrev destroyed : LoopThread
destroyed = record returned {
  caller = gone;
  child = ended;
  joined = true;
  loop = 0;
  quit = true;
  wakeups = 0;
}

-- The destructor's store to quit_ comes before that of loop().
abbrev early : LoopThread
early = record returned { caller = waking; quit = true }

abbrev lost : LoopThread
lost = record returned { caller = Caller.joining; child = polling; joined = true; wakeups = 0 }

reaches-early : Reaches 7 9 new_loop_thread early
unfolding from events taken step call_step thread_start start_loop quit_loop latch_wait run_step
    run_in_thread thread_func loop_round count_down destroy_step destroy
reaches-early = (from_new (start_events ++ destroys ∷ calls ∷ [])).reach

early-lost : Reaches 7 9 early lost
unfolding from events taken step call_step thread_start start_loop quit_loop run_step run_in_thread
    thread_func loop_round
early-lost = (from early (calls ∷ runs ∷ runs ∷ runs ∷ runs ∷ runs ∷ [])).reach

Reaches-Blocks_example : Blocks Caller.joining
Reaches-Blocks_example = Reaches-Blocks 7 9 early lost (inl (tt, refl)) early-lost

-- The new thread sees quit_ and is gone, with its EventLoop, before quit calls wakeup on it.
abbrev woken_late : LoopThread
woken_late = record returned { caller = waking; child = ended; loop = 0; quit = true }

reaches-woken_late : Reaches 7 9 new_loop_thread woken_late
unfolding from events taken step call_step thread_start start_loop quit_loop latch_wait run_step
    run_in_thread thread_func loop_round count_down destroy_step destroy
reaches-woken_late = (from_new (start_events ++ runs ∷ destroys ∷ calls ∷ runs ∷ runs ∷ [])).reach
