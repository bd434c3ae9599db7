-- ===== src/Threads/Pool/Known.antt =====
-- What holds of a pool while its threads are started.
use dog_server.Base.{
  ℕ, zero, suc, ◌≡◌, ◌≤◌, ◌<◌, inl, inr, refl, sym, ap, ◌∙◌, subst, Bool, true, some, List, [], ◌∷◌,
  ◌++◌, length, length-append, set_at-All, Bool-cases, ◌==◌, ==_iff, arith,
}
use dog_server.Threads.{
  Caller, unstarted, latching, latch_asleep, latched, looking, loop_asleep, returning, has,
  LoopThread, latch_wait, count_down, thread_start, start_loop, quit_loop, join_step, call_step,
  spurious_step, Turn, report_step, run_step, run_in_thread, thread_func, loop_round, step, calls,
  runs, destroys, create_fails, wakes_spuriously, reports,
}
use dog_server.Threads.Keeps.{Keeps}
use dog_server.Threads.Sound.{IsSound}
use dog_server.Threads.Left.{Fits, step-Fits, new_loop_thread-Fits}
use dog_server.Threads.Pool.{
  LoopPool, set_thread, Goes, starts, works, pushes, ends, Meets, wakes, polls, PoolReaches, here,
  goes_next, meets_next,
}

-- The addresses of the first `n` loops.
pub below : (ℕ → ℕ) → ℕ → List ℕ
below addresses zero = []
below addresses (suc n) = below addresses n ++ (addresses n ∷ [])

-- A thread that is not started yet, or is being started, or is, and is not destroyed.
abbrev pub Up : Caller → Bool → Type 0
Up unstarted b = Unit
Up latching b = b ≡ true
Up latch_asleep b = b ≡ true
Up latched b = b ≡ true
Up looking b = b ≡ true
Up loop_asleep b = b ≡ true
Up returning b = b ≡ true
Up (has l) b = b ≡ true
Up _ b = ⊥

abbrev IsOwn : Turn → Type 0
IsOwn destroys = ⊥
IsOwn create_fails = ⊥
IsOwn _ = Unit

pub record IsUp (id address : ℕ) (c : LoopThread) : Type 0 where
  pub fits : Fits id address c
  pub up : Up c.caller c.started

module _ (id address : ℕ) (id_set : 0 < id) (there : 0 < address) where
  step-Up :
      (e : Turn) (c : LoopThread)
      → IsOwn e
      → IsSound id address c
      → Up c.caller c.started
      → Keeps (λ d. Up d.caller d.started) (step id address e c)
  unfolding step call_step thread_start start_loop quit_loop join_step latch_wait spurious_step
      report_step run_step run_in_thread thread_func loop_round count_down
  step-Up e c o s u = ground arith

  step-stays :
      (e : Turn) (c : LoopThread) (l : ℕ)
      → IsOwn e
      → c.caller ≡ has l
      → Keeps (λ d. d.caller ≡ has l) (step id address e c)
  unfolding step call_step thread_start start_loop quit_loop join_step latch_wait spurious_step
      report_step run_step run_in_thread thread_func loop_round count_down
  step-stays e c l o h = ground arith

  pub has-address : (c : LoopThread) (l : ℕ) → IsSound id address c → c.caller ≡ has l → l ≡ address
  has-address c l s h = ground arith

  pub step-IsUp :
      (e : Turn) (c d : LoopThread)
      → IsOwn e
      → IsUp id address c
      → step id address e c ≡ some d
      → IsUp id address d
  step-IsUp e c d o s q = record {
    fits = subst (Keeps (Fits id address)) q (step-Fits id address id_set there e c s.fits);
    up = subst (Keeps (λ d. Up d.caller d.started)) q (step-Up e c o s.fits.sound s.up);
  }

pub record IsPooled (ids addresses : ℕ → ℕ) (n : ℕ) (p : LoopPool) : Type 0 where
  pub up : (j : ℕ) → IsUp (ids j) (addresses j) (p.threads j)
  pub in_order : p.loops ≡ below addresses (length p.loops)
  pub handed : (j : ℕ) → j < length p.loops → (p.threads j).caller ≡ has (addresses j)
  pub within : length p.loops ≤ n
  pub whole : p.started ≡ true → length p.loops ≡ n

module _ (ids addresses : ℕ → ℕ) (n : ℕ) (named : (j : ℕ) → 0 < ids j)
    (there : (j : ℕ) → 0 < addresses j) where
  set_thread-IsPooled :
      (p : LoopPool) (e : Turn) (j : ℕ) (d : LoopThread)
      → IsPooled ids addresses n p
      → IsOwn e
      → step (ids j) (addresses j) e (p.threads j) ≡ some d
      → IsPooled ids addresses n (set_thread j d p)
  set_thread-IsPooled p e j d s o q = record {
    up =
        set_at-All (λ i c. IsUp (ids i) (addresses i) c) p.threads j d s.up
          (step-IsUp (ids j) (addresses j) (named j) (there j) e (p.threads j) d o (s.up j) q);
    in_order = s.in_order;
    handed =
        set_at-All (λ i c. i < length p.loops → c.caller ≡ has (addresses i)) p.threads j d s.handed
          (λ l. subst (Keeps (λ c. c.caller ≡ has (addresses j))) q (
            step-stays (ids j) (addresses j) (named j) (there j) e (p.threads j) (addresses j) o
              (s.handed j l)));
    within = s.within;
    whole = s.whole;
  }

  below_next : (k : ℕ) → below addresses k ++ (addresses k ∷ []) ≡ below addresses (suc k)
  unfolding below
  below_next k = refl

  push_handed :
      (p : LoopPool) (l : ℕ)
      → IsPooled ids addresses n p
      → l ≡ addresses (length p.loops)
      → (p.threads (length p.loops)).caller ≡ has l
      → (j : ℕ) → j < suc (length p.loops)
      → (p.threads j).caller ≡ has (addresses j)
  push_handed p l s a h j b = elim (Bool-cases (j == length p.loops)) [
    | inl e ↦
        subst (λ i. (p.threads i).caller ≡ has (addresses i))
          (sym ((==_iff j (length p.loops)).0 e)) (h ∙ ap has a)
    | inr o ↦ s.handed j (ground arith)
  ]

  push-IsPooled :
      (p : LoopPool) (l : ℕ)
      → IsPooled ids addresses n p
      → length p.loops < n
      → (p.threads (length p.loops)).caller ≡ has l
      → IsPooled ids addresses n (record p { loops = p.loops ++ (l ∷ []) })
  push-IsPooled p l s b h =
      let k : ℕ = length p.loops in
      let next : length (p.loops ++ (l ∷ [])) ≡ suc k =
        length-append p.loops (l ∷ []) ∙ omega arith in
      let address : l ≡ addresses k =
        has-address (ids k) (addresses k) (named k) (there k) (p.threads k) l (s.up k).fits.sound
          h in
      record {
        up = s.up;
        in_order =
            ap (λ t. t ++ (l ∷ [])) s.in_order
            ∙ ap (λ a. below addresses k ++ (a ∷ [])) address
            ∙ below_next k
            ∙ ap (below addresses) (sym next);
        handed = λ j b'. push_handed p l s address h j (omega (arith, b', next));
        within = omega (arith, next);
        whole = λ f. absurd (omega (arith, s.whole f));
      }

  Goes-IsPooled :
      {p q : LoopPool}
      → Goes ids addresses n p q
      → IsPooled ids addresses n p
      → IsPooled ids addresses n q
  Goes-IsPooled {p} (starts b e) s = set_thread-IsPooled p calls (length p.loops) _ s tt e
  Goes-IsPooled {p} (works j b e) s = set_thread-IsPooled p runs j _ s tt e
  Goes-IsPooled {p} (pushes l b h) s = push-IsPooled p l s b h
  Goes-IsPooled (ends e f) s = record {
    up = s.up;
    in_order = s.in_order;
    handed = s.handed;
    within = s.within;
    whole = λ g. e;
  }

  Meets-IsPooled :
      {p q : LoopPool}
      → Meets ids addresses n p q
      → IsPooled ids addresses n p
      → IsPooled ids addresses n q
  Meets-IsPooled {p} (wakes j b e) s = set_thread-IsPooled p wakes_spuriously j _ s tt e
  Meets-IsPooled {p} (polls j b e) s = set_thread-IsPooled p reports j _ s tt e

  pub PoolReaches-IsPooled :
      {p : LoopPool} → PoolReaches ids addresses n p → IsPooled ids addresses n p
  unfolding below
  PoolReaches-IsPooled here = record {
    up = λ j. record {
      fits = new_loop_thread-Fits (ids j) (addresses j) (named j) (there j);
      up = tt;
    };
    in_order = refl;
    handed = λ j b. absurd (omega arith);
    within = omega arith;
    whole = λ f. absurd (ground arith);
  }
  PoolReaches-IsPooled (goes_next r g) = Goes-IsPooled g (PoolReaches-IsPooled r)
  PoolReaches-IsPooled (meets_next r m) = Meets-IsPooled m (PoolReaches-IsPooled r)
