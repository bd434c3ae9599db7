-- ===== src/Threads/Keeps.antt =====
-- What every step keeps holds in every state that is reached.
use dog_server.Base.{ℕ, Option, none, some, subst}
use dog_server.Threads.{LoopThread, Turn, step, Reaches, here, later}

abbrev pub Keeps : (LoopThread → Type 0) → Option LoopThread → Type 0
Keeps P none = Unit
Keeps P (some d) = P d

module _ (id address : ℕ) where
  pub Reaches-keeps :
      (P : LoopThread → Type 0)
      → ((e : Turn) (c : LoopThread) → P c → Keeps P (step id address e c))
      → {c d : LoopThread} → P c
      → Reaches id address c d
      → P d
  Reaches-keeps P k s here = s
  Reaches-keeps P k s (later {d} e r q) = subst (Keeps P) q (k e d (Reaches-keeps P k s r))
