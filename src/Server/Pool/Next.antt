-- ===== src/Server/Pool/Next.antt =====
-- getNextLoop returns where a loop stays idle.
use dog_server.Base.{
  ℕ, zero, suc, ◌+◌, ◌-◌, ◌*◌, ◌/◌, ◌%◌, ◌≤◌, ◌<◌, ◌≡◌, refl, sym, ap, ◌∙◌, Bool, Bool-cases, inl,
  inr, true, some, arith,
}
use native.Mathlib.Nat.{
  div-add-mod, mod-lt, add-mod-mod, add-mul-mod_self_left, add-mod_right, mod-eq_of_lt,
}
use dog_server.Server.Pool.{get_next_loop}

-- The first idle flag that comes by.
next-found :
    (idle : ℕ → ℕ → Bool) (n i wait fuel : ℕ)
    → idle (i + wait) ((i + wait) % n) ≡ true
    → wait < fuel
    → (j : ℕ) × (get_next_loop idle n i fuel ≡ some (j % n))
      × (idle j (j % n) ≡ true)
      × (j ≤ i + wait)
unfolding get_next_loop
next-found idle n i wait zero h enough = absurd (omega arith)
next-found idle n i zero (suc fuel) h enough =
    let same : i + 0 ≡ i = omega arith in
    let now : idle i (i % n) ≡ true = ap (λ (k : ℕ). idle k (k % n)) (sym same) ∙ h in
    (i, rw now refl, now, omega arith)
next-found idle n i (suc wait) (suc fuel) h enough =
    let same : i + suc wait ≡ i + 1 + wait = omega arith in
    let later : idle (i + 1 + wait) ((i + 1 + wait) % n) ≡ true =
      ap (λ (k : ℕ). idle k (k % n)) (sym same) ∙ h in
    let (j, run, here, bound) = next-found idle n (i + 1) wait fuel later (omega arith) in
    elim (Bool-cases (idle i (i % n))) [
      | inl now ↦ (i, rw now refl, now, omega arith)
      | inr busy ↦ (j, rw busy run, here, omega (arith, bound))
    ]

-- The first round from `since` on that looks at loop `k` comes within `n` rounds.
turn_of : (n k since : ℕ) → k < n → (wait : ℕ) × (wait < n) × ((since + wait) % n ≡ k)
turn_of n k since small =
    let positive : 0 < n = omega arith in
    let x : ℕ = k + (n - since % n) in
    let split = div-add-mod since n in
    let below = mod-lt since positive in
    let sum : since + x ≡ k + n + n * (since / n) = omega (arith, split, below) in
    (
      x % n,
      mod-lt x positive,
      add-mod-mod since x n
          ∙ ap (λ (t : ℕ). t % n) sum
          ∙ add-mul-mod_self_left (k + n) n (since / n)
          ∙ add-mod_right k n
          ∙ mod-eq_of_lt small,
    )

-- A loop of the pool that is idle in every round from `since` on: getNextLoop returns in round
-- `since` plus the number of loops at the latest, with a loop of the pool that was idle as it looked.
pub get_next_loop-idle :
    (idle : ℕ → ℕ → Bool) (num_threads k since fuel : ℕ)
    → k < num_threads
    → ((i : ℕ) → since ≤ i → idle i k ≡ true)
    → since + num_threads ≤ fuel
    → (i : ℕ) × (get_next_loop idle num_threads 0 fuel ≡ some (i % num_threads))
      × (idle i (i % num_threads) ≡ true)
      × (i ≤ since + num_threads)
      × (i % num_threads < num_threads)
get_next_loop-idle idle n k since fuel small stays enough =
    let (wait, short, turn) = turn_of n k since small in
    let at : 0 + (since + wait) ≡ since + wait = omega arith in
    let ready : idle (0 + (since + wait)) ((0 + (since + wait)) % n) ≡ true =
      ap (λ (t : ℕ). idle t (t % n)) at
      ∙ ap (idle (since + wait)) turn
      ∙ stays (since + wait) (omega arith) in
    let (i, run, flag, bound) =
      next-found idle n 0 (since + wait) fuel ready (omega (arith, short)) in
    (i, run, flag, omega (arith, bound, short), mod-lt i (omega arith))
