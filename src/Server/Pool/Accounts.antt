-- ===== src/Server/Pool/Accounts.antt =====
-- How many loops handNewConn takes.
use dog_server.Base.{
  ℕ, ◌+◌, ◌<◌, ◌≡◌, refl, sym, ap, ◌∙◌, subst, Bool-cases, inl, inr, true, false, Option, none,
  some, List, [], ◌∷◌, ◌++◌, append_assoc, append-nil, length, leb, if◌then◌else◌, arith,
}
use dog_server.Server.Poller.{maxfds}
use dog_server.Server.Pool.{
  Pool, Accepted, Handled, handled, returned, spins, take_loop, with_loop, hand_new_conn,
}
use dog_server.Server.Pool.Assign.{idle_count, idle_count-set_at, get_next_loop_sound}

abbrev pub descriptors : List (ℕ × ℕ) → List ℕ
descriptors [] = []
descriptors ((k, fd) ∷ queued) = fd ∷ descriptors queued

-- The descriptors that fit the poller's array, and those that do not.
abbrev pub fitting : List Accepted → List ℕ
fitting [] = []
fitting (a ∷ accepts) = if leb maxfds a.fd then fitting accepts else a.fd ∷ fitting accepts

abbrev pub refused : List Accepted → List ℕ
refused [] = []
refused (a ∷ accepts) = if leb maxfds a.fd then a.fd ∷ refused accepts else refused accepts

descriptors-append :
    (queued : List (ℕ × ℕ)) (k fd : ℕ)
    → descriptors (queued ++ ((k, fd) ∷ [])) ≡ descriptors queued ++ (fd ∷ [])
descriptors-append [] k fd = refl
descriptors-append ((j, fd') ∷ queued) k fd =
    ap (λ (t : List ℕ). fd' ∷ t) (descriptors-append queued k fd)

abbrev Adds : List Accepted → Pool → Pool → Type 0
Adds accepts p q =
    (idle_count p.num_threads q.idle + length accepts ≡ idle_count p.num_threads p.idle)
    × (descriptors q.queued ≡ descriptors p.queued ++ fitting accepts)
    × (q.closed ≡ p.closed ++ refused accepts)
    × (q.accepting ≡ true)

abbrev AddsIf : List Accepted → Pool → Handled → Type 0
AddsIf accepts p (handled q) = Adds accepts p q
AddsIf accepts p _ = Unit

module _ (a : Accepted) (accepts : List Accepted) (p : Pool) (k : ℕ) (below : k < p.num_threads)
    (free : p.idle k ≡ true) where
  abbrev one_less : Pool
  one_less = take_loop k p

  AddsIf-refused :
      leb maxfds a.fd ≡ true
      → (h : Handled) → AddsIf accepts (record one_less { closed = p.closed ++ (a.fd ∷ []) }) h
      → AddsIf (a ∷ accepts) p h
  AddsIf-refused large (handled q) (count, kept, out, on) = (
    omega (arith, count, idle_count-set_at p.num_threads k p.idle below free),
    kept ∙ ap (λ (t : List ℕ). descriptors p.queued ++ t) (rw large refl),
    out
        ∙ append_assoc p.closed (a.fd ∷ []) (refused accepts)
        ∙ ap (λ (t : List ℕ). p.closed ++ t) (rw large refl),
    on,
  )
  AddsIf-refused large (returned q) h = tt
  AddsIf-refused large (spins q) h = tt

  AddsIf-fitting :
      leb maxfds a.fd ≡ false
      → (h : Handled) → AddsIf accepts (record one_less { queued = p.queued ++ ((k, a.fd) ∷ []) }) h
      → AddsIf (a ∷ accepts) p h
  AddsIf-fitting small (handled q) (count, kept, out, on) = (
    omega (arith, count, idle_count-set_at p.num_threads k p.idle below free),
    kept
        ∙ ap (λ (t : List ℕ). t ++ fitting accepts) (descriptors-append p.queued k a.fd)
        ∙ append_assoc (descriptors p.queued) (a.fd ∷ []) (fitting accepts)
        ∙ ap (λ (t : List ℕ). descriptors p.queued ++ t) (rw small refl),
    out ∙ ap (λ (t : List ℕ). p.closed ++ t) (rw small refl),
    on,
  )
  AddsIf-fitting small (returned q) h = tt
  AddsIf-fitting small (spins q) h = tt

with_loop-AddsIf :
    (a : Accepted) (accepts : List Accepted) (p : Pool) (o : Option ℕ) (next : Pool → Handled)
    → ((k : ℕ) → o ≡ some k → (p.idle k ≡ true) × (k < p.num_threads))
    → ((q : Pool) → q.num_threads ≡ p.num_threads → AddsIf accepts q (next q))
    → AddsIf (a ∷ accepts) p (with_loop a p o next)
with_loop-AddsIf a accepts p none next idle on = tt
with_loop-AddsIf a accepts p (some k) next idle on =
    let (free, below) = idle k refl in
    elim (Bool-cases (leb maxfds a.fd)) [
      | inl large ↦
          let q = record (take_loop k p) { closed = p.closed ++ (a.fd ∷ []) } in
          rw large (AddsIf-refused a accepts p k below free large (next q) (on q refl))
      | inr small ↦ elim (Bool-cases a.non_blocking) [
        | inl ok ↦
            let q = record (take_loop k p) { queued = p.queued ++ ((k, a.fd) ∷ []) } in
            rw (small, ok) (AddsIf-fitting a accepts p k below free small (next q) (on q refl))
        | inr failed ↦ rw (small, failed) tt
      ]
    ]

hand_new_conn-AddsIf :
    (accepts : List Accepted) (p : Pool)
    → 0 < p.num_threads
    → AddsIf accepts p (hand_new_conn accepts p)
unfolding hand_new_conn
hand_new_conn-AddsIf [] p h =
    (omega arith, sym (append-nil (descriptors p.queued)), sym (append-nil p.closed), refl)
hand_new_conn-AddsIf (a ∷ accepts) p h =
    with_loop-AddsIf a accepts p _ (hand_new_conn accepts)
      (λ k e. get_next_loop_sound p.idle p.num_threads 0 p.num_threads k e h)
      (λ q same. hand_new_conn-AddsIf accepts q (omega (arith, same)))

-- Where handNewConn comes to the end of its loop, in a pool with loops: the connections with a
-- descriptor below MAXFDS are queued in their order, the others are closed, the accepting channel
-- asks for events again, and there are as many idle loops fewer as connections were accepted: a
-- connection that is closed at once costs a loop as well.
pub hand_new_conn-handled :
    (accepts : List Accepted) (p q : Pool)
    → 0 < p.num_threads
    → hand_new_conn accepts p ≡ handled q
    → (idle_count p.num_threads q.idle + length accepts ≡ idle_count p.num_threads p.idle)
      × (descriptors q.queued ≡ descriptors p.queued ++ fitting accepts)
      × (q.closed ≡ p.closed ++ refused accepts)
      × (q.accepting ≡ true)
hand_new_conn-handled accepts p q h e =
    subst (AddsIf accepts p) e (hand_new_conn-AddsIf accepts p h)
