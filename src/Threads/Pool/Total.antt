-- ===== src/Threads/Pool/Total.antt =====
-- The steps that the threads of a pool have left, added up.
use dog_server.Base.{
  ℕ, zero, suc, ◌+◌, ◌*◌, ◌≡◌, ◌≤◌, ◌<◌, inl, inr, refl, sym, subst, false, set_at, Bool-cases,
  ◌==◌, ==_iff, arith,
}
use dog_server.Threads.{LoopThread}
use dog_server.Threads.Left.{left_in}

-- What the threads below `n` have left to do.
unfoldable pub total : ℕ → (ℕ → LoopThread) → ℕ
total zero f = 0
total (suc n) f = total n f + left_in (f n)

total-same :
    (n j : ℕ) (f : ℕ → LoopThread) (d : LoopThread) → n ≤ j → total n (set_at f j d) ≡ total n f
unfolding total
total-same zero j f d h = refl
total-same (suc n) j f d h =
    let other : (n == j) ≡ false = ground arith in rw (total-same n j f d (omega arith), other) refl

pub total-less :
    (n j : ℕ) (f : ℕ → LoopThread) (d : LoopThread)
    → j < n
    → left_in d < left_in (f j)
    → total n (set_at f j d) < total n f
unfolding total
total-less zero j f d h l = absurd (omega arith)
total-less (suc n) j f d h l = elim (Bool-cases (n == j)) [
  | inl e ↦
      let same : n ≡ j = (==_iff n j).0 e in
      rw (e, total-same n j f d (omega arith))
        (subst (λ t. total n f + left_in d < total n f + left_in (f t)) (sym same) (omega arith))
  | inr o ↦ rw o (omega (arith, total-less n j f d (ground arith) l))
]

pub total-bound : (n : ℕ) (f : ℕ → LoopThread) → ((j : ℕ) → left_in (f j) ≤ 71) → total n f ≤ 71 * n
unfolding total
total-bound zero f h = omega arith
total-bound (suc n) f h = omega (arith, total-bound n f h, h n)
