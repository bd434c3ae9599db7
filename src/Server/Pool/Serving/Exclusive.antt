-- ===== src/Server/Pool/Serving/Exclusive.antt =====
-- No loop serves two connections at a time.
use dog_server.Base.{
  ℕ, zero, suc, ◌%◌, ◌≡◌, ◌≢◌, sym, ap, ◌∙◌, subst, Bool, true, false, Option, none, some, List, [],
  ◌∷◌, get_elem?, set_at, All, All-append, arith,
}
use dog_server.Server.Poller.Synced.{set_at-same, set_at-other}
use dog_server.Server.Pool.Assign.{Apart, Apart-append, busy_apart}
use dog_server.Server.Pool.Serving.{
  Main, polling, accepting, finding, taken, Serving, new_serving, remove, Step, reports, accepts,
  drained, looks_on, takes, refuses, stays_blocking, hands_over, closes, Reaches, here, later,
}

-- The loop that main has just taken.
abbrev pub Reserved : Main → Serving → Type 0
Reserved (taken k fd) c = (c.idle k ≡ false) × All (λ (e : ℕ × ℕ). e.0 ≢ k) c.conns
Reserved _ c = Unit

-- A loop with a connection is not idle and has only that one, and the loop that main has taken is
-- not idle and has none.
pub record IsServed (c : Serving) : Type 0 where
  pub busy : All (λ (e : ℕ × ℕ). c.idle e.0 ≡ false) c.conns
  pub apart : Apart c.conns
  pub reserved : Reserved c.main c

pub All-remove : (P : ℕ × ℕ → Type 0) (i : ℕ) (xs : List (ℕ × ℕ)) → All P xs → All P (remove i xs)
All-remove P i [] h = tt
All-remove P zero (x ∷ xs) h = h.1
All-remove P (suc i) (x ∷ xs) h = (h.0, All-remove P i xs h.1)

Apart-remove : (i : ℕ) (xs : List (ℕ × ℕ)) → Apart xs → Apart (remove i xs)
Apart-remove i [] h = tt
Apart-remove zero ((j, fd) ∷ xs) h = h.1
Apart-remove (suc i) ((j, fd) ∷ xs) h =
    (All-remove (λ (e : ℕ × ℕ). e.0 ≢ j) i xs h.0, Apart-remove i xs h.1)

pub at_entry :
    (P : ℕ × ℕ → Type 0) (i : ℕ) (e : ℕ × ℕ) (xs : List (ℕ × ℕ))
    → All P xs
    → get_elem? xs i ≡ some e
    → P e
at_entry P i e [] h q = absurd (ground arith)
at_entry P zero e (x ∷ xs) h q = subst (λ o. holds_of o) q h.0
  where
    holds_of : Option (ℕ × ℕ) → Type 0
    holds_of none = Unit
    holds_of (some y) = P y
at_entry P (suc i) e (x ∷ xs) h q = at_entry P i e xs h.1 q

loop_of : Option (ℕ × ℕ) → ℕ
loop_of none = 0
loop_of (some e) = e.0

-- The entry that is removed was the only one of its loop.
left_behind :
    (i k fd : ℕ) (xs : List (ℕ × ℕ))
    → Apart xs
    → get_elem? xs i ≡ some (k, fd)
    → All (λ (e : ℕ × ℕ). e.0 ≢ k) (remove i xs)
unfolding loop_of
left_behind i k fd [] h q = tt
left_behind zero k fd ((j, fd') ∷ xs) h q =
    subst (λ (t : ℕ). All (λ (e : ℕ × ℕ). e.0 ≢ t) xs) (ap loop_of q) h.0
left_behind (suc i) k fd ((j, fd') ∷ xs) h q = (
  (λ same. at_entry (λ (e : ℕ × ℕ). e.0 ≢ j) i (k, fd) xs h.0 q (sym same)),
  left_behind i k fd xs h.1 q,
)

-- Flags that are set for a loop without connections leave the others as they are.
still_busy :
    (k : ℕ) (b : Bool) (idle : ℕ → Bool) (xs : List (ℕ × ℕ))
    → All (λ (e : ℕ × ℕ). idle e.0 ≡ false) xs
    → All (λ (e : ℕ × ℕ). e.0 ≢ k) xs
    → All (λ (e : ℕ × ℕ). set_at idle k b e.0 ≡ false) xs
still_busy k b idle [] h a = tt
still_busy k b idle ((j, fd) ∷ xs) h a =
    (set_at-other idle k b j a.0 ∙ h.0, still_busy k b idle xs h.1 a.1)

Reserved-close :
    (m : Main) (c : Serving) (i k fd : ℕ)
    → get_elem? c.conns i ≡ some (k, fd)
    → Reserved m c
    → Reserved m (record c { idle = set_at c.idle k true; conns = remove i c.conns })
Reserved-close (taken j fd') c i k fd q h = (
  set_at-other c.idle k true j
        (λ same. at_entry (λ (e : ℕ × ℕ). e.0 ≢ j) i (k, fd) c.conns h.1 q (sym same))
      ∙ h.0,
  All-remove (λ (e : ℕ × ℕ). e.0 ≢ j) i c.conns h.1,
)
Reserved-close polling c i k fd q h = tt
Reserved-close accepting c i k fd q h = tt
Reserved-close (finding j fd') c i k fd q h = tt

Step-IsServed : {n : ℕ} {c d : Serving} → IsServed c → Step n c d → IsServed d
Step-IsServed s (reports e) = record { busy = s.busy; apart = s.apart; reserved = tt }
Step-IsServed s (accepts fd e) = record { busy = s.busy; apart = s.apart; reserved = tt }
Step-IsServed s (drained e) = record { busy = s.busy; apart = s.apart; reserved = tt }
Step-IsServed s (looks_on e f) = record { busy = s.busy; apart = s.apart; reserved = tt }
Step-IsServed {n} {c} s (takes {i} {fd} e f) =
    let (alone, busy) = busy_apart c.conns c.idle (i % n) f s.busy in
    record { busy = busy; apart = s.apart; reserved = (set_at-same c.idle (i % n) false, alone) }
Step-IsServed s (refuses e l) = record { busy = s.busy; apart = s.apart; reserved = tt }
Step-IsServed s (stays_blocking e l) = record { busy = s.busy; apart = s.apart; reserved = tt }
Step-IsServed {c} s (hands_over {k} {fd} e l) =
    let (flag, alone) = subst (λ m. Reserved m c) e s.reserved in
    record {
      busy =
          All-append (λ (x : ℕ × ℕ). c.idle x.0 ≡ false) c.conns ((k, fd) ∷ []) s.busy (flag, tt);
      apart = Apart-append c.conns k fd s.apart alone;
      reserved = tt;
    }
Step-IsServed {c} s (closes i {k} {fd} q) = record {
  busy =
      still_busy k true c.idle (remove i c.conns)
        (All-remove (λ (e : ℕ × ℕ). c.idle e.0 ≡ false) i c.conns s.busy)
        (left_behind i k fd c.conns s.apart q);
  apart = Apart-remove i c.conns s.apart;
  reserved = Reserved-close c.main c i k fd q s.reserved;
}

Reaches-from : {n : ℕ} {c d : Serving} → IsServed c → Reaches n c d → IsServed d
Reaches-from s here = s
Reaches-from s (later r st) = Step-IsServed (Reaches-from s r) st

-- However handNewConn, with getNextLoop a round at a time, is interleaved with connections that close
-- in the threads of their loops, and whatever accept and setSocketNonBlocking give: no loop has
-- two open connections, none that has one is idle, and the loop that main has taken for a
-- descriptor is not idle and has none.
pub Reaches-IsServed : (n : ℕ) (c : Serving) → Reaches n new_serving c → IsServed c
Reaches-IsServed n c r = Reaches-from record { busy = tt; apart = tt; reserved = tt } r
