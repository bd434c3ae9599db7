-- ===== src/Server/Pool/Serving/Losses.antt =====
-- Every loop is idle, taken, serves a connection, or is lost to a descriptor.
use dog_server.Base.{
  ℕ, zero, suc, ◌+◌, ◌%◌, ◌≡◌, ◌<◌, refl, ap, subst, Bool, true, false, some, List, [], ◌∷◌,
  get_elem?, set_at, length, length-append, All, All-append, arith,
}
use native.Mathlib.Nat.{mod-lt}
use dog_server.Server.Poller.Synced.{set_at-same}
use dog_server.Server.Pool.Assign.{idle_count, idle_count-set_at}
use dog_server.Server.Pool.Serving.{
  Main, taken, Serving, new_serving, remove, Step, reports, accepts, drained, looks_on, takes,
  refuses, stays_blocking, hands_over, closes, Reaches, here, later,
}
use dog_server.Server.Pool.Serving.Exclusive.{IsServed, All-remove, at_entry, Reaches-IsServed}

-- The loop that main has taken, counted and within the pool.
abbrev pub held : Main → ℕ
held (taken k fd) = 1
held _ = 0

abbrev IsWithin : ℕ → Main → Type 0
IsWithin n (taken k fd) = k < n
IsWithin n _ = Unit

-- The loops that are lost: one for each descriptor that was refused or left blocking.
abbrev pub lost : Serving → ℕ
lost c = length c.refused + length c.left

pub record IsCounted (n : ℕ) (c : Serving) : Type 0 where
  pub count_lem : idle_count n c.idle + length c.conns + held c.main + lost c ≡ n
  pub within : All (λ (e : ℕ × ℕ). e.0 < n) c.conns
  pub main_within : IsWithin n c.main

idle_count-ext : (n : ℕ) (f g : ℕ → Bool) → ((k : ℕ) → f k ≡ g k) → idle_count n f ≡ idle_count n g
idle_count-ext zero f g h = refl
idle_count-ext (suc n) f g h = rw (h n, idle_count-ext n f g h) refl

idle_count-freed :
    (n k : ℕ) (idle : ℕ → Bool)
    → k < n
    → idle k ≡ false
    → idle_count n (set_at idle k true) ≡ idle_count n idle + 1
idle_count-freed n k idle h e =
    let back =
      idle_count-ext n (set_at (set_at idle k true) k false) idle (λ x. ground (arith, e)) in
    let one = idle_count-set_at n k (set_at idle k true) h (set_at-same idle k true) in
    omega (arith, back, one)

length-remove :
    (i : ℕ) (e : ℕ × ℕ) (xs : List (ℕ × ℕ))
    → get_elem? xs i ≡ some e
    → length (remove i xs) + 1 ≡ length xs
length-remove i e [] q = absurd (ground arith)
length-remove zero e (x ∷ xs) q = omega arith
length-remove (suc i) e (x ∷ xs) q = omega (arith, length-remove i e xs q)

idle_count-all : (n : ℕ) → idle_count n (λ k. true) ≡ n
idle_count-all zero = refl
idle_count-all (suc n) = omega (arith, idle_count-all n)

pub no_idle : (n k : ℕ) (idle : ℕ → Bool) → idle_count n idle ≡ 0 → k < n → idle k ≡ false
no_idle zero k idle e h = absurd (omega arith)
no_idle (suc n) k idle e h = ground (arith, no_idle n k idle)

pub Step-IsCounted :
    {n : ℕ} {c d : Serving} → 0 < n → IsServed c → IsCounted n c → Step n c d → IsCounted n d
Step-IsCounted b v s (reports e) = record {
  count_lem = ground (arith, s.count_lem, ap held e);
  within = s.within;
  main_within = tt;
}
Step-IsCounted b v s (accepts fd e) = record {
  count_lem = ground (arith, s.count_lem, ap held e);
  within = s.within;
  main_within = tt;
}
Step-IsCounted b v s (drained e) = record {
  count_lem = ground (arith, s.count_lem, ap held e);
  within = s.within;
  main_within = tt;
}
Step-IsCounted b v s (looks_on e f) = record {
  count_lem = ground (arith, s.count_lem, ap held e);
  within = s.within;
  main_within = tt;
}
Step-IsCounted {n} {c} b v s (takes {i} {fd} e f) =
    let less = idle_count-set_at n (i % n) c.idle (mod-lt i b) f in
    record {
      count_lem = omega (arith, s.count_lem, ap held e, less);
      within = s.within;
      main_within = mod-lt i b;
    }
Step-IsCounted {n} {c} b v s (refuses {k} {fd} e l) = record {
  count_lem = omega (arith, s.count_lem, ap held e, length-append c.refused (fd ∷ []));
  within = s.within;
  main_within = tt;
}
Step-IsCounted {n} {c} b v s (stays_blocking {k} {fd} e l) = record {
  count_lem = omega (arith, s.count_lem, ap held e, length-append c.left (fd ∷ []));
  within = s.within;
  main_within = tt;
}
Step-IsCounted {n} {c} b v s (hands_over {k} {fd} e l) = record {
  count_lem = omega (arith, s.count_lem, ap held e, length-append c.conns ((k, fd) ∷ []));
  within =
      All-append (λ (x : ℕ × ℕ). x.0 < n) c.conns ((k, fd) ∷ []) s.within
        (subst (IsWithin n) e s.main_within, tt);
  main_within = tt;
}
Step-IsCounted {n} {c} b v s (closes i {k} {fd} q) =
    let below = at_entry (λ (x : ℕ × ℕ). x.0 < n) i (k, fd) c.conns s.within q in
    let flag = at_entry (λ (x : ℕ × ℕ). c.idle x.0 ≡ false) i (k, fd) c.conns v.busy q in
    let more = idle_count-freed n k c.idle below flag in
    record {
      count_lem = omega (arith, s.count_lem, more, length-remove i (k, fd) c.conns q);
      within = All-remove (λ (x : ℕ × ℕ). x.0 < n) i c.conns s.within;
      main_within = s.main_within;
    }

pub Reaches-IsCounted : (n : ℕ) (c : Serving) → 0 < n → Reaches n new_serving c → IsCounted n c
Reaches-IsCounted n c b here = record {
  count_lem = omega (arith, idle_count-all n);
  within = tt;
  main_within = tt;
}
Reaches-IsCounted n _ b (later {d} r st) =
    Step-IsCounted b (Reaches-IsServed n d r) (Reaches-IsCounted n d b r) st
