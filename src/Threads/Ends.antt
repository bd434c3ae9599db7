-- ===== src/Threads/Ends.antt =====
-- The destructor of a loop that runs returns.
use dog_server.Base.{ℕ, suc, ◌≡◌, some}
use dog_server.Threads.{LoopThread, step, calls, runs}
use dog_server.Threads.Keeps.{Keeps}

-- The steps that the two threads make by themselves, `n` of them.
pub data Runs (id address : ℕ) (c : LoopThread) : ℕ → LoopThread → Type 0 where
  rests : Runs id address c 0 c
  calls_next :
      {n : ℕ} {d d' : LoopThread}
      → Runs id address c n d
      → step id address calls d ≡ some d'
      → Runs id address c (suc n) d'
  runs_next :
      {n : ℕ} {d d' : LoopThread}
      → Runs id address c n d
      → step id address runs d ≡ some d'
      → Runs id address c (suc n) d'
