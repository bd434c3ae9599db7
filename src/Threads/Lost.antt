-- ===== src/Threads/Lost.antt =====
-- Where the caller waits for ever.
use dog_server.Base.{ℕ, ◌≡◌, ◌⊎◌, Bool, false, arith, inl, inr}
use dog_server.Threads.{
  Caller, looking, loop_asleep, waking, joining, Child, unborn, entering, testing, polling,
  handling, LoopThread, latch_wait, count_down, thread_start, start_loop, quit_loop, join_step,
  destroy, call_step, destroy_step, fail_step, spurious_step, Turn, report_step, run_step,
  run_in_thread, thread_func, loop_round, step, Reaches,
}
use dog_server.Threads.Keeps.{Keeps, Reaches-keeps}

-- A caller in the destructor whose store to quit_ comes before the loop's, or was undone by it.
abbrev Missed : Child → Bool → Type 0
Missed entering b = Unit
Missed testing b = b ≡ false
Missed polling b = b ≡ false
Missed handling b = b ≡ false
Missed _ b = ⊥

abbrev pub Joins : Caller → Type 0
Joins waking = Unit
Joins joining = Unit
Joins _ = ⊥

record IsLost (c : LoopThread) : Type 0 where
  joins : Joins c.caller
  missed : Missed c.child c.quit

-- A caller of startLoop for which no thread was made.
abbrev pub Waits : Caller → Type 0
Waits looking = Unit
Waits loop_asleep = Unit
Waits _ = ⊥

record IsAlone (c : LoopThread) : Type 0 where
  waits : Waits c.caller
  nobody : c.child ≡ unborn
  no_loop : c.loop ≡ 0

module _ (id address : ℕ) where
  step-IsLost : (e : Turn) (c : LoopThread) → IsLost c → Keeps IsLost (step id address e c)
  unfolding step call_step thread_start start_loop quit_loop join_step latch_wait destroy_step
      destroy fail_step spurious_step report_step run_step run_in_thread thread_func loop_round
      count_down
  step-IsLost e c s = ground arith

  step-IsAlone : (e : Turn) (c : LoopThread) → IsAlone c → Keeps IsAlone (step id address e c)
  unfolding step call_step thread_start start_loop quit_loop join_step latch_wait destroy_step
      destroy fail_step spurious_step report_step run_step run_in_thread thread_func loop_round
      count_down
  step-IsAlone e c s = ground arith

-- The destructor has stored to quit_ while the new thread was behind its notify and before loop();
-- or pthread_create has failed under startLoop.
abbrev pub IsDoomed : LoopThread → Type 0
IsDoomed c =
    (Joins c.caller × (c.child ≡ entering)) ⊎ (Waits c.caller × (c.child ≡ unborn) × (c.loop ≡ 0))

abbrev pub Blocks : Caller → Type 0
Blocks p = Joins p ⊎ Waits p

-- If the destructor stores to quit_ after startLoop has returned but before the new thread is in
-- loop(), which resets quit_, then the destructor never returns; and if pthread_create fails, then
-- startLoop never returns: whatever happens from there on, wakeups and reports included.
pub Reaches-Blocks :
    (id address : ℕ) (c d : LoopThread) → IsDoomed c → Reaches id address c d → Blocks d.caller
Reaches-Blocks id address c d (inl (j, e)) r =
    inl
      (Reaches-keeps id address IsLost (step-IsLost id address)
        record { joins = j; missed = ground arith } r).joins
Reaches-Blocks id address c d (inr (w, u, z)) r =
    inr
      (Reaches-keeps id address IsAlone (step-IsAlone id address)
        record { waits = w; nobody = u; no_loop = z } r).waits
