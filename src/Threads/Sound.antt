-- ===== src/Threads/Sound.antt =====
-- startLoop returns the loop of a thread that runs, over every interleaving.
use dog_server.Base.{ℕ, ◌≡◌, ◌≤◌, ◌<◌, ◌⊎◌, refl, true, false, arith}
use dog_server.Threads.{
  Caller, unstarted, latching, latch_asleep, latched, looking, loop_asleep, returning, has,
  quitting, waking, joining, gone, aborted, Child, unborn, storing, counting, naming, publishing,
  entering, testing, polling, handling, clearing, ended, LoopThread, new_loop_thread, latch_wait,
  count_down, thread_start, start_loop, quit_loop, join_step, destroy, call_step, destroy_step,
  fail_step, spurious_step, Turn, report_step, run_step, run_in_thread, thread_func, loop_round,
  step, Reaches,
}
use dog_server.Threads.Keeps.{Keeps, Reaches-keeps}

-- How far the new thread is: 3 behind countDown, 5 behind its store of loop_, 6 in loop().
abbrev pub rank : Child → ℕ
rank unborn = 0
rank storing = 1
rank counting = 2
rank naming = 3
rank publishing = 4
rank entering = 5
rank testing = 6
rank polling = 6
rank handling = 6
rank clearing = 7
rank ended = 8

-- What the fields hold by the place of the new thread.
abbrev pub count_at : Child → ℕ
count_at unborn = 1
count_at storing = 1
count_at counting = 1
count_at _ = 0

abbrev pub tid_at : ℕ → Child → ℕ
tid_at id unborn = 0
tid_at id storing = 0
tid_at id _ = id

abbrev pub loop_at : ℕ → Child → ℕ
loop_at address entering = address
loop_at address testing = address
loop_at address polling = address
loop_at address handling = address
loop_at address clearing = address
loop_at address _ = 0

-- A loop that has been handed out and has not been told to quit.
abbrev Serves : LoopThread → Type 0
Serves c = (5 ≤ rank c.child) × (rank c.child ≤ 6) × (c.quit ≡ false) × (c.started ≡ true)

-- Where the new thread is by the place of the caller.
abbrev pub Place : ℕ → Caller → LoopThread → Type 0
Place address unstarted c = (rank c.child ≡ 0) × (c.quit ≡ false) × (c.started ≡ false)
Place address latching c =
    (1 ≤ rank c.child) × (rank c.child ≤ 6) × (c.quit ≡ false) × (c.started ≡ true)
Place address latch_asleep c =
    (1 ≤ rank c.child) × (rank c.child ≤ 2) × (c.quit ≡ false) × (c.started ≡ true)
Place address latched c =
    (3 ≤ rank c.child) × (rank c.child ≤ 6) × (c.quit ≡ false) × (c.started ≡ true)
Place address looking c =
    ((rank c.child ≡ 0) × (c.quit ≡ false) × (c.started ≡ false))
    ⊎ ((3 ≤ rank c.child) × (rank c.child ≤ 6) × (c.quit ≡ false) × (c.started ≡ true))
Place address loop_asleep c =
    ((rank c.child ≡ 0) × (c.quit ≡ false) × (c.started ≡ false))
    ⊎ ((3 ≤ rank c.child) × (rank c.child ≤ 4) × (c.quit ≡ false) × (c.started ≡ true))
Place address returning c = Serves c
Place address (has l) c = (l ≡ address) × Serves c
Place address quitting c = Serves c
Place address waking c = 5 ≤ rank c.child
Place address joining c = 5 ≤ rank c.child
Place address gone c = rank c.child ≡ 8
Place address aborted c = ⊥

pub record IsSound (id address : ℕ) (c : LoopThread) : Type 0 where
  pub counted : c.count ≡ count_at c.child
  pub named : c.tid ≡ tid_at id c.child
  pub stored : c.loop ≡ loop_at address c.child
  pub placed : Place address c.caller c

module _ (id address : ℕ) (id_set : 0 < id) (there : 0 < address) where
  pub step-IsSound :
      (e : Turn) (c : LoopThread)
      → IsSound id address c
      → Keeps (IsSound id address) (step id address e c)
  unfolding step call_step thread_start start_loop quit_loop join_step latch_wait destroy_step
      destroy fail_step spurious_step report_step run_step run_in_thread thread_func loop_round
      count_down
  step-IsSound e c s = ground arith

  pub new_loop_thread-IsSound : IsSound id address new_loop_thread
  new_loop_thread-IsSound = record {
    counted = refl;
    named = refl;
    stored = refl;
    placed = (refl, refl, refl);
  }

  pub Reaches-IsSound :
      {c d : LoopThread} → IsSound id address c → Reaches id address c d → IsSound id address d
  Reaches-IsSound = Reaches-keeps id address (IsSound id address) step-IsSound

-- What the caller may rely on, by its place.
abbrev pub Promise : ℕ → ℕ → Caller → LoopThread → Type 0
Promise id address aborted c = ⊥
Promise id address (has l) c =
    (l ≡ address) × (c.loop ≡ l) × (c.tid ≡ id) × (c.started ≡ true) × (c.count ≡ 0)
Promise id address gone c = (c.child ≡ ended) × (c.loop ≡ 0)
Promise id address _ c = Unit

IsSound-Promise :
    {id address : ℕ} (c : LoopThread) → IsSound id address c → Promise id address c.caller c
IsSound-Promise c s = ground arith

-- Over every interleaving of the caller with the new thread, where pthread_create may fail and
-- conditions may wake without a notify, with a thread identifier above 0 and a loop whose address
-- is not NULL: no assertion of Thread::start fails; from the return of startLoop to the destructor,
-- it has returned the address of the new thread's loop, loop_ still holds it, tid_ is the new
-- thread's identifier and the latch is at 0; and once the destructor has returned, the new thread
-- has ended and loop_ is NULL.
pub Reaches-Promise :
    (id address : ℕ)
    → 0 < id
    → 0 < address
    → (c : LoopThread) → Reaches id address new_loop_thread c
    → Promise id address c.caller c
Reaches-Promise id address id_set there c r =
    IsSound-Promise c
      (Reaches-IsSound id address id_set there (new_loop_thread-IsSound id address id_set there) r)
