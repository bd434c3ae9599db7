-- ===== src/Threads/Left.antt =====
-- What the two threads have left to do, and that they can go on.
use dog_server.Base.{
  ℕ, ◌+◌, ◌*◌, ◌≡◌, ◌≤◌, ◌<◌, ◌⊎◌, Bool, ◌||◌, true, false, Option, none, some, arith,
}
use dog_server.Threads.{
  Caller, unstarted, latching, latch_asleep, latched, looking, loop_asleep, returning, has,
  quitting, waking, joining, gone, aborted, Child, unborn, storing, counting, naming, publishing,
  entering, testing, polling, handling, clearing, ended, LoopThread, new_loop_thread, latch_wait,
  count_down, thread_start, start_loop, quit_loop, join_step, destroy, call_step, destroy_step,
  fail_step, spurious_step, Turn, report_step, run_step, run_in_thread, thread_func, loop_round,
  step, Reaches, calls, runs,
}
use dog_server.Threads.Keeps.{Keeps, Reaches-keeps}
use dog_server.Threads.Sound.{rank, IsSound, new_loop_thread-IsSound, step-IsSound}

-- What is left to do; a notify puts its caller one back.
abbrev left_to_call : Caller → ℕ
left_to_call unstarted = 70
left_to_call latching = 27
left_to_call latch_asleep = 26
left_to_call latched = 25
left_to_call looking = 24
left_to_call loop_asleep = 23
left_to_call returning = 22
left_to_call (has l) = 21
left_to_call quitting = 20
left_to_call waking = 10
left_to_call joining = 2
left_to_call gone = 1
left_to_call aborted = 0

abbrev left_to_run : Child → ℕ
left_to_run unborn = 0
left_to_run storing = 40
left_to_run counting = 38
left_to_run naming = 36
left_to_run publishing = 34
left_to_run entering = 32
left_to_run testing = 30
left_to_run polling = 29
left_to_run handling = 28
left_to_run clearing = 27
left_to_run ended = 26

abbrev pub left_in : LoopThread → ℕ
left_in c = left_to_call c.caller + left_to_run c.child + 4 * c.wakeups

-- A thread that reads the eventfd has been woken, once at most.
abbrev pub IsWoken : LoopThread → Child → Type 0
IsWoken c handling = 0 < c.wakeups
IsWoken c _ = Unit

abbrev pub wakeups_at : Caller → ℕ
wakeups_at joining = 1
wakeups_at gone = 1
wakeups_at _ = 0

-- A state that steps reach, with the thread made.
pub record Fits (id address : ℕ) (c : LoopThread) : Type 0 where
  pub sound : IsSound id address c
  pub woken : IsWoken c c.child
  pub few : c.wakeups ≤ wakeups_at c.caller

abbrev pub goes : Option LoopThread → Bool
goes none = false
goes (some d) = true

-- One of the two threads has a step of its own.
abbrev pub can_go : ℕ → ℕ → LoopThread → Bool
can_go id address d = goes (step id address calls d) || goes (step id address runs d)

abbrev pub Less : ℕ → Option LoopThread → Type 0
Less n none = Unit
Less n (some d) = left_in d < n

-- startLoop has returned.
abbrev pub Returned : Caller → Type 0
Returned (has l) = Unit
Returned quitting = Unit
Returned waking = Unit
Returned joining = Unit
Returned gone = Unit
Returned _ = ⊥

-- The destructor is to quit, or has quit, a loop that runs.
abbrev pub Told : LoopThread → Child → Type 0
Told c polling = 0 < c.wakeups
Told c _ = Unit

abbrev pub Heard : Caller → LoopThread → Type 0
Heard quitting c = 6 ≤ rank c.child
Heard waking c = (6 ≤ rank c.child) × (c.quit ≡ true)
Heard joining c = (6 ≤ rank c.child) × (c.quit ≡ true) × Told c c.child
Heard gone c = c.child ≡ ended
Heard _ c = ⊥

module _ (id address : ℕ) (id_set : 0 < id) (there : 0 < address) where
  step-woken :
      (e : Turn) (c : LoopThread)
      → Fits id address c
      → Keeps (λ d. IsWoken d d.child × (d.wakeups ≤ wakeups_at d.caller)) (step id address e c)
  unfolding step call_step thread_start start_loop quit_loop join_step latch_wait destroy_step
      destroy fail_step spurious_step report_step run_step run_in_thread thread_func loop_round
      count_down
  step-woken e c s = ground arith

  pub step-Heard :
      (e : Turn) (c : LoopThread)
      → Heard c.caller c
      → Keeps (λ d. Heard d.caller d) (step id address e c)
  unfolding step call_step thread_start start_loop quit_loop join_step latch_wait destroy_step
      destroy fail_step spurious_step report_step run_step run_in_thread thread_func loop_round
      count_down
  step-Heard e c s = ground arith

  pub step-started :
      (e : Turn) (c : LoopThread)
      → IsSound id address c
      → c.started ≡ true
      → Keeps (λ d. d.started ≡ true) (step id address e c)
  unfolding step call_step thread_start start_loop quit_loop join_step latch_wait destroy_step
      destroy fail_step spurious_step report_step run_step run_in_thread thread_func loop_round
      count_down
  step-started e c f s = ground arith

  pub calls-Less : (c : LoopThread) → Fits id address c → Less (left_in c) (step id address calls c)
  unfolding step call_step thread_start start_loop quit_loop join_step latch_wait
  calls-Less c s = ground arith

  pub runs-Less : (c : LoopThread) → Fits id address c → Less (left_in c) (step id address runs c)
  unfolding step run_step run_in_thread thread_func loop_round count_down
  runs-Less c s = ground arith

  pub goes_on :
      (c : LoopThread)
      → IsSound id address c
      → c.started ≡ true
      → Returned c.caller ⊎ (can_go id address c ≡ true)
  unfolding step call_step thread_start start_loop quit_loop join_step latch_wait run_step
      run_in_thread thread_func loop_round
  goes_on c s b = ground arith

  pub quits_on :
      (c : LoopThread)
      → IsSound id address c
      → Heard c.caller c
      → ((c.caller ≡ gone) × (c.child ≡ ended)) ⊎ (can_go id address c ≡ true)
  unfolding step call_step thread_start start_loop quit_loop join_step latch_wait run_step
      run_in_thread thread_func loop_round
  quits_on c s b = ground arith

  both :
      (o : Option LoopThread)
      → Keeps (IsSound id address) o
      → Keeps (λ d. IsWoken d d.child × (d.wakeups ≤ wakeups_at d.caller)) o
      → Keeps (Fits id address) o
  both none s w = tt
  both (some d) s w = record { sound = s; woken = w.0; few = w.1 }

  pub step-Fits :
      (e : Turn) (c : LoopThread)
      → Fits id address c
      → Keeps (Fits id address) (step id address e c)
  step-Fits e c s =
      both (step id address e c) (step-IsSound id address id_set there e c s.sound)
        (step-woken e c s)

  pub new_loop_thread-Fits : Fits id address new_loop_thread
  new_loop_thread-Fits = record {
    sound = new_loop_thread-IsSound id address id_set there;
    woken = tt;
    few = omega arith;
  }

  pub Reaches-Fits : {c : LoopThread} → Reaches id address new_loop_thread c → Fits id address c
  Reaches-Fits = Reaches-keeps id address (Fits id address) step-Fits new_loop_thread-Fits

  pub left_in_bound : (c : LoopThread) → Fits id address c → left_in c ≤ 71
  left_in_bound c f = ground arith
