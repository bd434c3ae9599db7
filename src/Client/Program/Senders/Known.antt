-- ===== src/Client/Program/Senders/Known.antt =====
-- What main may rely on while the threads of dog-client send, and how one step keeps it.
use dog_server.Base.{
  ℕ, zero, suc, ◌≡◌, ◌≢◌, ◌≤◌, ◌<◌, ◌⊎◌, inl, inr, sym, ap, ◌∙◌, subst, Bool, true, false, Option,
  none, some, List, [], ◌∷◌, ◌++◌, arith, ◌==◌, ◌||◌,
}
use dog_server.Client.Program.Senders.{
  Sender, starting, taking, linking, sending, locking, asleep, closing, leaving, done, Senders,
  woken, all_ended,
}
use dog_server.Client.Program.Senders.Shared.{unsent, count}

abbrev pub id_of : Sender → Option ℕ
id_of starting = none
id_of (taking id) = some id
id_of (linking id k) = some id
id_of (sending id k) = some id
id_of (locking id k) = some id
id_of (asleep id k) = some id
id_of (closing id k) = some id
id_of (leaving id) = some id
id_of (done id) = some id

abbrev pub is_over : Sender → Bool
is_over (leaving id) = true
is_over (done id) = true
is_over _ = false

abbrev pub is_done : Sender → Bool
is_done (done id) = true
is_done _ = false

pub has : ℕ → List ℕ → Bool
has k [] = false
has k (x ∷ xs) = (x == k) || has k xs

pub has-append : (k x : ℕ) (xs : List ℕ) → has k (xs ++ (x ∷ [])) ≡ (has k xs || (x == k))
unfolding has
has-append k x [] = ground arith
has-append k x (y ∷ xs) = ground (arith, has-append k x xs)

pub has-count : (k : ℕ) (xs : List ℕ) → has k xs ≡ true → 1 ≤ count k xs
unfolding has count
has-count k [] h = absurd (ground arith)
has-count k (x ∷ xs) h = ground (arith, has-count k xs)

-- What the loop of main relies on: each thread uses its own entry of thread_ids, which holds 2 only
-- when it is done; and every item that is taken has been sent or is in hand.
pub record IsKnown (n list_num : ℕ) (c : Senders) : Type 0 where
  pub own : (j id : ℕ) → id_of (c.threads j) ≡ some id → id ≡ j
  pub slot : (j : ℕ) → c.thread_ids j ≡ 2 → is_done (c.threads j) ≡ true
  pub over : (j : ℕ) → is_over (c.threads j) ≡ true → list_num ≤ c.cur_pos
  pub sent_or_held :
      (k : ℕ)
      → k < c.cur_pos
      → (has k c.sent ≡ true) ⊎ ((j : ℕ) × (j < n) × (unsent (c.threads j) ≡ some k))
  pub finished_lem : c.finished ≡ true → (j : ℕ) → j < n → is_done (c.threads j) ≡ true

-- A step of thread `j`, which is not done.
pub record Moves (list_num : ℕ) (c : Senders) (j : ℕ) (d : Senders) : Type 0 where
  pub others : (i : ℕ) → i ≢ j → d.threads i ≡ c.threads i
  pub slots : (i : ℕ) → i ≢ j → d.thread_ids i ≡ c.thread_ids i
  pub own : (id : ℕ) → id_of (d.threads j) ≡ some id → id ≡ j
  pub slot : d.thread_ids j ≡ 2 → is_done (d.threads j) ≡ true
  pub over : is_over (d.threads j) ≡ true → list_num ≤ d.cur_pos
  pub grows : c.cur_pos ≤ d.cur_pos
  pub keeps_sent : (k : ℕ) → has k c.sent ≡ true → has k d.sent ≡ true
  pub puts_down :
      (k : ℕ)
      → unsent (c.threads j) ≡ some k
      → (has k d.sent ≡ true) ⊎ (unsent (d.threads j) ≡ some k)
  pub takes : (k : ℕ) → k < d.cur_pos → (k < c.cur_pos) ⊎ (unsent (d.threads j) ≡ some k)
  pub not_done : is_done (c.threads j) ≡ false
  pub same : d.finished ≡ c.finished

pub id_of_woken : (p : Sender) → id_of (woken p) ≡ id_of p
id_of_woken p = ground arith

pub is_over_woken : (p : Sender) → is_over (woken p) ≡ is_over p
is_over_woken p = ground arith

pub is_done_woken : (p : Sender) → is_done (woken p) ≡ is_done p
is_done_woken p = ground arith

same_or_other : (i j : ℕ) → (i ≡ j) ⊎ (i ≢ j)
same_or_other i j = ground arith

pub all_ended_at : (ids : ℕ → ℕ) (n : ℕ) → all_ended ids n ≡ true → (j : ℕ) → j < n → ids j ≡ 2
unfolding all_ended
all_ended_at ids zero h j l = absurd (omega arith)
all_ended_at ids (suc n) h j l = elim (same_or_other j n) [
  | inl e ↦ ground arith
  | inr o ↦ all_ended_at ids n (ground arith) j (omega (arith, o))
]

module _ (n list_num : ℕ) (c : Senders) (s : IsKnown n list_num c) where
  module _ (j : ℕ) (d : Senders) (b : j < n) (m : Moves list_num c j d) where
    done_lem : (i : ℕ) → is_done (c.threads i) ≡ true → is_done (d.threads i) ≡ true
    done_lem i h = elim (same_or_other i j) [
      | inl e ↦ absurd (ground (arith, m.not_done))
      | inr o ↦ ground (arith, m.others i o)
    ]

    held_lem :
        (k i : ℕ)
        → i < n
        → unsent (c.threads i) ≡ some k
        → (has k d.sent ≡ true) ⊎ ((i : ℕ) × (i < n) × (unsent (d.threads i) ≡ some k))
    held_lem k i l h = elim (same_or_other i j) [
      | inl e ↦ elim (m.puts_down k (subst (λ t. unsent (c.threads t) ≡ some k) e h)) [
        | inl g ↦ inl g
        | inr g ↦ inr (j, b, g)
      ]
      | inr o ↦ inr (i, l, ap unsent (m.others i o) ∙ h)
    ]

    before :
        (k : ℕ)
        → k < c.cur_pos
        → (has k d.sent ≡ true) ⊎ ((i : ℕ) × (i < n) × (unsent (d.threads i) ≡ some k))
    before k l = elim (s.sent_or_held k l) [
      | inl h ↦ inl (m.keeps_sent k h)
      | inr h ↦ held_lem k h.0 h.1 h.2
    ]

    pub Moves-IsKnown : IsKnown n list_num d
    Moves-IsKnown = record {
      own = λ i id e. ground (arith, same_or_other i j, m.others i, m.own id, s.own i id);
      slot = λ i e. ground (arith, same_or_other i j, m.others i, m.slots i, m.slot, s.slot i);
      over = λ i e. ground (arith, same_or_other i j, m.others i, m.over, s.over i, m.grows);
      sent_or_held =
          λ k l. elim (m.takes k l) [ inl old ↦ before k old | inr new ↦ inr (j, b, new) ];
      finished_lem = λ f i l. done_lem i (s.finished_lem (sym m.same ∙ f) i l);
    }
