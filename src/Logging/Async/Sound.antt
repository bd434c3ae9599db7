-- ===== src/Logging/Async/Sound.antt =====
-- The assertions of threadFunc.
use dog_server.Base.{
  ℕ, ◌≡◌, ◌⊎◌, ◌≤◌, refl, ap, ◌∙◌, Option, none, some, List, [], ◌∷◌, ◌++◌, ltb, length,
  length-append, Bool-cases, inl, inr, take, arith,
}
use dog_server.Logging.Async.{
  Buffer, Phase, collecting, writing, Logging, started, append, avail, collect, refill, fill_next,
  take_back, kept, many, written, write, turn_from, Event, logs, turns, ◌>>=◌, step, run,
}

-- The number of buffers that threadFunc needs to get back.
abbrev pub Ready : Phase → Option Buffer → Option Buffer → List Buffer → Type 0
Ready collecting new1 new2 taken = (new1 ≡ some []) × (new2 ≡ some []) × (taken ≡ [])
Ready writing new1 new2 taken =
    (new1 ≡ none) × (1 ≤ length taken) × ((new2 ≡ some []) ⊎ ((new2 ≡ none) × (2 ≤ length taken)))

-- A next buffer that is there is empty, and one that is not there has been put into the list.
abbrev pub Spare : Option Buffer → List Buffer → Type 0
Spare none buffers = 1 ≤ length buffers
Spare (some b) buffers = b ≡ []

pub record IsSound (c : Logging) : Type 0 where
  pub ready : Ready c.phase c.new_buffer1 c.new_buffer2 c.buffers_to_write
  pub spare : Spare c.next_buffer c.buffers

pub started-IsSound : IsSound started
started-IsSound = record { ready = (refl, refl, refl); spare = refl }

pub append-IsSound :
    (size : ℕ) (line : List ℕ) (c : Logging) → IsSound c → IsSound (append size line c)
unfolding append
append-IsSound size line c h = elim (Bool-cases (ltb (length line) (avail size c.current_buffer))) [
  | inl fits ↦ rw fits record { ready = h.ready; spare = h.spare }
  | inr full ↦ rw full record {
    ready = h.ready;
    spare = omega (arith, length-append c.buffers (c.current_buffer ∷ []));
  }
]

fill_next-Spare :
    (next : Option Buffer) (buffers : List Buffer) (b : Buffer)
    → Spare next buffers
    → Spare (fill_next next (some [])).0 []
      × (((fill_next next (some [])).1 ≡ some [])
          ⊎ (((fill_next next (some [])).1 ≡ none) × (2 ≤ length (buffers ++ (b ∷ [])))))
fill_next-Spare none buffers b h = (refl, inr (refl, omega (arith, length-append buffers (b ∷ []))))
fill_next-Spare (some x) buffers b h = (h, inl refl)

-- A step that fails no assertion.
abbrev pub Passes : Option Logging → Type 0
Passes o = (d : Logging) × (o ≡ some d) × IsSound d

pub collect-IsSound :
    (c : Logging) → Spare c.next_buffer c.buffers → Passes (collect (some []) (some []) [] c)
unfolding collect
collect-IsSound c h =
    let (spare, two) = fill_next-Spare c.next_buffer c.buffers c.current_buffer h in
    (
      _,
      refl,
      record {
        ready = (refl, omega (arith, length-append c.buffers (c.current_buffer ∷ [])), two);
        spare = spare;
      },
    )

take-kept : (bs : List Buffer) → take 2 (kept bs) ≡ take 2 bs
take-kept [] = refl
take-kept (b ∷ []) = refl
take-kept (b ∷ b2 ∷ bs) = elim (Bool-cases (many (b ∷ b2 ∷ bs))) [
  | inl e ↦ rw e refl
  | inr e ↦ rw e refl
]

module _ (notice : ℕ → List ℕ) where
  pub write-take_back :
      (c : Logging) (bs : List Buffer)
      → Ready writing c.new_buffer1 c.new_buffer2 bs
      → write notice bs c
        ≡ some (record c {
          phase = collecting;
          new_buffer1 = some [];
          new_buffer2 = some [];
          buffers_to_write = [];
          output = c.output ++ written notice bs;
        })
  unfolding write take_back refill
  write-take_back c [] h = absurd (omega (arith, h.1))
  write-take_back c (b ∷ bs) (gone, some_left, inl back) =
      (λ i.
        take_back (gone i) (back i) (take-kept (b ∷ bs) i) (c.output ++ written notice (b ∷ bs)) c)
      ∙ one bs
    where
      one :
          (ds : List Buffer)
          → take_back none (some []) (take 2 (b ∷ ds)) (c.output ++ written notice (b ∷ bs)) c
            ≡ some (record c {
              phase = collecting;
              new_buffer1 = some [];
              new_buffer2 = some [];
              buffers_to_write = [];
              output = c.output ++ written notice (b ∷ bs);
            })
      one [] = refl
      one (d ∷ ds) = refl
  write-take_back c (b ∷ []) (gone, some_left, inr (gone2, two)) = absurd (omega arith)
  write-take_back c (b ∷ b2 ∷ bs) (gone, some_left, inr (gone2, two)) = λ i.
      take_back (gone i) (gone2 i) (take-kept (b ∷ b2 ∷ bs) i)
        (c.output ++ written notice (b ∷ b2 ∷ bs)) c

  -- The step of threadFunc, with what it leaves.
  pub collect-turn :
      (c : Logging)
      → Ready collecting c.new_buffer1 c.new_buffer2 c.buffers_to_write
      → turn_from notice collecting c ≡ collect (some []) (some []) [] c
  unfolding turn_from
  collect-turn c (one, two, none_left) = λ i. collect (one i) (two i) (none_left i) c

  turn_from-IsSound :
      (p : Phase) (c : Logging)
      → Ready p c.new_buffer1 c.new_buffer2 c.buffers_to_write
      → Spare c.next_buffer c.buffers
      → Passes (turn_from notice p c)
  unfolding turn_from
  turn_from-IsSound collecting c r s =
      let (d, e, h) = collect-IsSound c s in (d, collect-turn c r ∙ e, h)
  turn_from-IsSound writing c r s =
      (_, write-take_back c c.buffers_to_write r, record { ready = (refl, refl, refl); spare = s })

  pub step-IsSound :
      (size : ℕ) (e : Event) (c : Logging) → IsSound c → Passes (step notice size e c)
  unfolding step
  step-IsSound size (logs line) c h = (_, refl, append-IsSound size line c h)
  step-IsSound size turns c h = turn_from-IsSound c.phase c h.ready h.spare

  run-from : (size : ℕ) (es : List Event) (c : Logging) → IsSound c → Passes (run notice size es c)
  unfolding run
  run-from size [] c h = (c, refl, h)
  run-from size (e ∷ es) c h =
      let (d, ran, sound) = step-IsSound size e c h in
      let (d', ran', sound') = run-from size es d sound in
      (d', ap (λ o. o >>= run notice size es) ran ∙ ran', sound')

  -- Whatever the threads log and however their calls fall between the steps of threadFunc, none
  -- of threadFunc's assertions fails: at the head of its loop it has two empty buffers and
  -- nothing to write, after the block under the mutex there is a buffer to write, and
  -- there are enough buffers to take back both that it gave away.
  pub run-IsSound :
      (size : ℕ) (es : List Event)
      → (d : Logging) × (run notice size es started ≡ some d) × IsSound d
  run-IsSound size es = run-from size es started started-IsSound
