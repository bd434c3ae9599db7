-- ===== src/Tests/Accepting.antt =====
-- The pool of loops.
use dog_server.Base.{
  set_at, ℕ, ◌+◌, ◌%◌, ◌≤◌, ◌<◌, ◌≡◌, refl, Bool, true, false, some, List, [], ◌∷◌, leb, arith,
}
use dog_server.Server.Pool.{get_next_loop, Pool, Accepted, take_loop}
use dog_server.Server.Pool.Serving.{
  accepting, finding, Serving, new_serving, reports, accepts, looks_on, takes, refuses, hands_over,
  closes, Reaches, here, later,
}
use dog_server.Server.Pool.Serving.Exclusive.{IsServed, Reaches-IsServed}
use dog_server.Server.Pool.Serving.Spins.{IsLost, Finds, Reaches-Finds}
use dog_server.Server.Pool.Next.{get_next_loop-idle}

-- Loop 1 of 3 gets idle in round 5.
abbrev late_flag : ℕ → ℕ → Bool
late_flag i k = leb 5 i

get_next_loop-idle_example :
    (i : ℕ) × (get_next_loop late_flag 3 0 8 ≡ some (i % 3))
    × (late_flag i (i % 3) ≡ true)
    × (i ≤ 5 + 3)
    × (i % 3 < 3)
get_next_loop-idle_example =
    get_next_loop-idle late_flag 3 1 5 8 (omega arith) (λ i h. ground arith) (omega arith)

abbrev two_loops : Pool
two_loops = record {
  num_threads = 2;
  idle = λ k. true;
  queued = [];
  closed = [];
  accepting = false;
}

-- The second descriptor is too large.
abbrev two_accepts : List Accepted
two_accepts =
    record { fd = 9; non_blocking = true } ∷ record { fd = 100000; non_blocking = true } ∷ []

abbrev both_taken : Pool
both_taken = record (take_loop 1 (take_loop 0 two_loops)) {
  queued = (0, 9) ∷ [];
  closed = 100000 ∷ [];
  accepting = true;
}

-- One loop: descriptor 9 is served and closed, then one that is too large takes the loop for good.
abbrev served : Serving
served = record {
  main = accepting;
  idle = set_at (λ k. true) 0 false;
  conns = (0, 9) ∷ [];
  refused = [];
  left = [];
}

reaches-served : Reaches 1 new_serving served
reaches-served =
    later (later (later (later here (reports refl)) (accepts 9 refl)) (takes refl refl))
      (hands_over refl (omega arith))

abbrev left_alone : Serving
left_alone = record served { idle = set_at served.idle 0 true; conns = [] }

reaches-left_alone : Reaches 1 new_serving left_alone
reaches-left_alone = later reaches-served (closes 0 refl)

Reaches-IsServed_example : IsServed left_alone
Reaches-IsServed_example = Reaches-IsServed 1 left_alone reaches-left_alone

abbrev stuck : ℕ → Serving
stuck i = record left_alone {
  main = finding i 10;
  idle = set_at left_alone.idle 0 false;
  refused = 100000 ∷ [];
}

reaches-stuck : Reaches 1 new_serving (stuck 0)
reaches-stuck =
    later
      (later (later (later reaches-left_alone (accepts 100000 refl)) (takes refl refl))
        (refuses refl (omega arith)))
      (accepts 10 refl)

Reaches-Finds_example : IsLost 1 (stuck 1) × Finds (finding 1 10)
Reaches-Finds_example =
    Reaches-Finds 1 (stuck 0) (stuck 1) (omega arith) reaches-stuck (omega arith) tt
      (later here (looks_on refl refl))
