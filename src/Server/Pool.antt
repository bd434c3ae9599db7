-- ===== src/Server/Pool.antt =====
-- EventLoopThreadPool::getNextLoop (src/event-loop-thread-pool.cc) and Server::handNewConn
-- (src/server.cc).
pub mod Next
pub mod Assign
pub mod Accounts
pub mod Serving
use dog_server.Base.{
  set_at, ℕ, zero, suc, ◌+◌, ◌%◌, Bool, true, false, Option, none, some, List, [], ◌∷◌, ◌++◌, leb,
  ◌==◌, if◌then◌else◌,
}
use dog_server.Server.Poller.{maxfds}

-- The loop of getNextLoop over `num_threads` loops; `idle i k` is what round `i` finds in the flag of
-- loop `k`, which the loops' threads set meanwhile. `none` where the fuel is out.
unfoldable pub get_next_loop : (ℕ → ℕ → Bool) → ℕ → ℕ → ℕ → Option ℕ
get_next_loop idle num_threads i zero = none
get_next_loop idle num_threads i (suc fuel) =
    let more = get_next_loop idle num_threads (i + 1) fuel in
    if idle i (i % num_threads) then some (i % num_threads) else more

-- What handNewConn works on: the flags, the functors queued as loop and descriptor, the descriptors
-- closed, and whether the accepting channel asks for events again.
pub record Pool : Type 0 where
  pub num_threads : ℕ
  pub idle : ℕ → Bool
  pub queued : List (ℕ × ℕ)
  pub closed : List ℕ
  pub accepting : Bool

-- One call of accept that gives a descriptor, and whether setSocketNonBlocking succeeds on it.
pub record Accepted : Type 0 where
  pub fd : ℕ
  pub non_blocking : Bool

-- The end of handNewConn: behind its loop, at the return inside it, or in getNextLoop where no
-- loop is idle.
pub data Handled : Type 0 where
  handled : Pool → Handled
  returned : Pool → Handled
  spins : Pool → Handled

abbrev pub take_loop : ℕ → Pool → Pool
take_loop k p = record p { idle = set_at p.idle k false }

abbrev pub with_loop : Accepted → Pool → Option ℕ → (Pool → Handled) → Handled
with_loop a p none next = spins p
with_loop a p (some k) next =
    let q = take_loop k p in
    if leb maxfds a.fd
    then next (record q { closed = q.closed ++ (a.fd ∷ []) })
    else if a.non_blocking
    then next (record q { queued = q.queued ++ ((k, a.fd) ∷ []) })
    else returned q

-- handNewConn on the descriptors that accept gives, the flags changing by its own hand only.
unfoldable pub hand_new_conn : List Accepted → Pool → Handled
hand_new_conn [] p = handled (record p { accepting = true })
hand_new_conn (a ∷ accepts) p =
    with_loop a p (get_next_loop (λ i k. p.idle k) p.num_threads 0 p.num_threads)
      (hand_new_conn accepts)
