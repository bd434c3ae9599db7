-- ===== src/Server/Pool/Serving/Spins.antt =====
-- Loops that are lost to descriptors which are refused or left.
use dog_server.Base.{
  ℕ, ◌+◌, ◌%◌, ◌≡◌, ◌<◌, ◌≤◌, refl, ap, subst, false, List, [], ◌∷◌, get_elem?, length, arith,
}
use native.Mathlib.Nat.{mod-lt}
use dog_server.Server.Pool.Serving.{
  Main, finding, Serving, new_serving, Step, reports, accepts, drained, looks_on, takes, refuses,
  stays_blocking, hands_over, closes, Reaches, here, later,
}
use dog_server.Server.Pool.Serving.Losses.{lost, IsCounted, no_idle, Reaches-IsCounted}

-- No loop is idle, and none has a connection that could close.
pub record IsLost (n : ℕ) (c : Serving) : Type 0 where
  pub no_idle : (k : ℕ) → k < n → c.idle k ≡ false
  pub no_conns : c.conns ≡ []

abbrev pub Finds : Main → Type 0
Finds (finding i fd) = Unit
Finds _ = ⊥

Step-IsLost :
    {n : ℕ} {c d : Serving}
    → 0 < n
    → IsLost n c
    → Finds c.main
    → Step n c d
    → IsLost n d × Finds d.main
Step-IsLost b s f (reports e) = absurd (subst Finds e f)
Step-IsLost b s f (accepts fd e) = absurd (subst Finds e f)
Step-IsLost b s f (drained e) = absurd (subst Finds e f)
Step-IsLost b s f (looks_on e g) = (record { no_idle = s.no_idle; no_conns = s.no_conns }, tt)
Step-IsLost {n} b s f (takes {i} e g) =
    let busy = s.no_idle (i % n) (mod-lt i b) in absurd (ground arith)
Step-IsLost b s f (refuses e l) = absurd (subst Finds e f)
Step-IsLost b s f (stays_blocking e l) = absurd (subst Finds e f)
Step-IsLost b s f (hands_over e l) = absurd (subst Finds e f)
Step-IsLost b s f (closes i q) =
    let none_there = ap (λ (t : List (ℕ × ℕ)). get_elem? t i) s.no_conns in absurd (ground arith)

Reaches-IsLost :
    (n : ℕ) (c d : Serving)
    → 0 < n
    → IsLost n c
    → Finds c.main
    → Reaches n c d
    → IsLost n d × Finds d.main
Reaches-IsLost n c d b s f here = (s, f)
Reaches-IsLost n c _ b s f (later {d} r st) =
    let (s', f') = Reaches-IsLost n c d b s f r in Step-IsLost b s' f' st

lost-IsLost : (n : ℕ) (c : Serving) → IsCounted n c → n ≤ lost c → IsLost n c
lost-IsLost n c s l = record {
  no_idle = λ k b. no_idle n k c.idle (omega (arith, s.count_lem)) b;
  no_conns = no_length c.conns (omega (arith, s.count_lem));
}
  where
    no_length : (xs : List (ℕ × ℕ)) → length xs ≡ 0 → xs ≡ []
    no_length [] e = refl
    no_length (x ∷ xs) e = absurd (omega arith)

-- From the start on, with `n` loops, however handNewConn is interleaved with connections that close:
-- in a call of getNextLoop after as many descriptors were refused for being MAXFDS or more, or left
-- after a failed setSocketNonBlocking, as there are loops, no loop is idle and no connection is
-- open, and whatever happens, it stays so and the call never returns.
pub Reaches-Finds :
    (n : ℕ) (c d : Serving)
    → 0 < n
    → Reaches n new_serving c
    → n ≤ length c.refused + length c.left
    → Finds c.main
    → Reaches n c d
    → IsLost n d × Finds d.main
Reaches-Finds n c d b r l f r' =
    Reaches-IsLost n c d b (lost-IsLost n c (Reaches-IsCounted n c b r) l) f r'
