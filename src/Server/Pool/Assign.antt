-- ===== src/Server/Pool/Assign.antt =====
-- Who gets which loop from handNewConn.
use dog_server.Base.{
  set_at, ℕ, zero, suc, ◌+◌, ◌%◌, ◌≤◌, ◌<◌, ◌≡◌, ◌≢◌, refl, sym, ap, ◌∙◌, Bool, Bool-cases, inl,
  inr, true, false, Option, none, some, List, [], ◌∷◌, ◌++◌, leb, ◌==◌, if◌then◌else◌, All,
  All-append, arith,
}
use native.Mathlib.Nat.{mod-lt}
use dog_server.Server.Poller.{maxfds}
use dog_server.Server.Poller.Synced.{set_at-same, set_at-other}
use dog_server.Server.Pool.{
  get_next_loop, Pool, Accepted, Handled, handled, returned, spins, take_loop, with_loop,
  hand_new_conn,
}

abbrev pub idle_count : ℕ → (ℕ → Bool) → ℕ
idle_count zero idle = 0
idle_count (suc n) idle = (if idle n then 1 else 0) + idle_count n idle

idle_count-put_above :
    (n k : ℕ) (idle : ℕ → Bool) → n ≤ k → idle_count n (set_at idle k false) ≡ idle_count n idle
idle_count-put_above zero k idle h = refl
idle_count-put_above (suc n) k idle h =
    rw (set_at-other idle k false n (omega arith), idle_count-put_above n k idle (omega arith)) refl

pub idle_count-set_at :
    (n k : ℕ) (idle : ℕ → Bool)
    → k < n
    → idle k ≡ true
    → idle_count n (set_at idle k false) + 1 ≡ idle_count n idle
idle_count-set_at zero k idle h e = absurd (omega arith)
idle_count-set_at (suc n) k idle h e = elim (Bool-cases (n == k)) [
  | inl same ↦
      let at : n ≡ k = ground arith in
      let now : set_at idle k false n ≡ false =
        ap (set_at idle k false) at ∙ set_at-same idle k false in
      let before : idle n ≡ true = ap idle at ∙ e in
      let above = idle_count-put_above n k idle (omega arith) in
      rw (now, before) (omega (arith, above))
  | inr apart ↦
      let away : n ≢ k = ground arith in
      let kept = set_at-other idle k false n away in
      let rest = idle_count-set_at n k idle (omega arith) e in rw kept (omega (arith, rest))
]

-- The loop that getNextLoop finds was idle.
pub get_next_loop_sound :
    (idle : ℕ → Bool) (n i fuel k : ℕ)
    → get_next_loop (λ (j : ℕ). idle) n i fuel ≡ some k
    → 0 < n
    → (idle k ≡ true) × (k < n)
unfolding get_next_loop
get_next_loop_sound idle n i zero k e h = absurd (ground arith)
get_next_loop_sound idle n i (suc fuel) k e h = elim (Bool-cases (idle (i % n))) [
  | inl now ↦
      let its : some (i % n) ≡ some k = rw now at e in
      let it : i % n ≡ k = ground arith in (ap idle (sym it) ∙ now, omega (arith, it, mod-lt i h))
  | inr busy ↦ get_next_loop_sound idle n (i + 1) fuel k (rw busy at e) h
]

abbrev pub Apart : List (ℕ × ℕ) → Type 0
Apart [] = Unit
Apart ((k, fd) ∷ queued) = All (λ (e : ℕ × ℕ). e.0 ≢ k) queued × Apart queued

-- No loop has two of the connections, and no loop that has one is idle.
abbrev pub IsExclusive : Pool → Type 0
IsExclusive p = All (λ (e : ℕ × ℕ). p.idle e.0 ≡ false) p.queued × Apart p.queued

pub Apart-append :
    (queued : List (ℕ × ℕ)) (k fd : ℕ)
    → Apart queued
    → All (λ (e : ℕ × ℕ). e.0 ≢ k) queued
    → Apart (queued ++ ((k, fd) ∷ []))
Apart-append [] k fd h away = (tt, tt)
Apart-append ((j, fd') ∷ queued) k fd h away = (
  All-append (λ (e : ℕ × ℕ). e.0 ≢ j) queued ((k, fd) ∷ []) h.0 ((λ same. away.0 (sym same)), tt),
  Apart-append queued k fd h.1 away.1,
)

pub busy_apart :
    (queued : List (ℕ × ℕ)) (idle : ℕ → Bool) (k : ℕ)
    → idle k ≡ true
    → All (λ (e : ℕ × ℕ). idle e.0 ≡ false) queued
    → All (λ (e : ℕ × ℕ). e.0 ≢ k) queued
      × All (λ (e : ℕ × ℕ). set_at idle k false e.0 ≡ false) queued
busy_apart [] idle k e h = (tt, tt)
busy_apart ((j, fd) ∷ queued) idle k e h =
    let away : j ≢ k = λ same.
      let wrong : true ≡ false = sym e ∙ ap idle (sym same) ∙ h.0 in absurd (ground arith) in
    let (apart, busy) = busy_apart queued idle k e h.1 in
    ((away, apart), (set_at-other idle k false j away ∙ h.0, busy))

abbrev pub final : Handled → Pool
final (handled p) = p
final (returned p) = p
final (spins p) = p

take_loop-IsExclusive :
    (p : Pool) (k : ℕ) → p.idle k ≡ true → IsExclusive p → IsExclusive (take_loop k p)
take_loop-IsExclusive p k e h = ((busy_apart p.queued p.idle k e h.0).1, h.1)

queue-IsExclusive :
    (p : Pool) (k fd : ℕ)
    → p.idle k ≡ true
    → IsExclusive p
    → IsExclusive (record (take_loop k p) { queued = p.queued ++ ((k, fd) ∷ []) })
queue-IsExclusive p k fd e h =
    let (apart, busy) = busy_apart p.queued p.idle k e h.0 in
    (
      All-append (λ (x : ℕ × ℕ). set_at p.idle k false x.0 ≡ false) p.queued ((k, fd) ∷ []) busy
          (set_at-same p.idle k false, tt),
      Apart-append p.queued k fd h.1 apart,
    )

with_loop-IsExclusive :
    (a : Accepted) (p : Pool) (o : Option ℕ) (next : Pool → Handled)
    → IsExclusive p
    → ((k : ℕ) → o ≡ some k → p.idle k ≡ true)
    → ((q : Pool) → q.num_threads ≡ p.num_threads → IsExclusive q → IsExclusive (final (next q)))
    → IsExclusive (final (with_loop a p o next))
with_loop-IsExclusive a p none next h idle on = h
with_loop-IsExclusive a p (some k) next h idle on =
    let e = idle k refl in
    elim (Bool-cases (leb maxfds a.fd)) [
      | inl large ↦ rw large (on _ refl (take_loop-IsExclusive p k e h))
      | inr small ↦ elim (Bool-cases a.non_blocking) [
        | inl ok ↦ rw (small, ok) (on _ refl (queue-IsExclusive p k a.fd e h))
        | inr failed ↦ rw (small, failed) (take_loop-IsExclusive p k e h)
      ]
    ]

-- From a pool with loops, in which no loop has two connections and none that has one is idle:
-- however handNewConn ends, and whatever accept and setSocketNonBlocking give it, the same holds
-- after it: each connection has a loop of its own.
pub hand_new_conn-IsExclusive :
    (accepts : List Accepted) (p : Pool)
    → 0 < p.num_threads
    → IsExclusive p
    → IsExclusive (final (hand_new_conn accepts p))
unfolding hand_new_conn
hand_new_conn-IsExclusive [] p some_loop h = h
hand_new_conn-IsExclusive (a ∷ accepts) p some_loop h =
    with_loop-IsExclusive a p _ (hand_new_conn accepts) h
      (λ k e. (get_next_loop_sound p.idle p.num_threads 0 p.num_threads k e some_loop).0)
      (λ q same k. hand_new_conn-IsExclusive accepts q (omega (arith, same)) k)
