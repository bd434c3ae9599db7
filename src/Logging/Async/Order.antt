-- ===== src/Logging/Async/Order.antt =====
-- What is logged and what is written.
use dog_server.Base.{
  ℕ, ◌≡◌, ◌<◌, refl, sym, ap, ◌∙◌, Option, none, some, List, [], ◌∷◌, ◌++◌, append_assoc,
  append-nil, ltb, length, Bool-cases, inl, inr, true, false, All, subst, Bool, not, ◌&&◌, arith,
}
use dog_server.Logging.Async.{
  Buffer, Phase, collecting, writing, Logging, started, append, put, avail, fresh_buffer, collect,
  concat, many, turn_from, Event, logs, turns, ◌>>=◌, step, run,
}
use dog_server.Logging.Async.Sound.{
  Ready, Spare, IsSound, started-IsSound, step-IsSound, collect-turn, write-take_back,
}

-- What is written and what waits in the buffers, in order.
abbrev pub pending : Logging → List ℕ
pending c = c.output ++ (concat c.buffers_to_write ++ (concat c.buffers ++ c.current_buffer))

abbrev pub logged : List Event → List ℕ
logged [] = []
logged (logs line ∷ es) = line ++ logged es
logged (turns ∷ es) = logged es

concat-append : (bs cs : List Buffer) → concat (bs ++ cs) ≡ concat bs ++ concat cs
concat-append [] cs = refl
concat-append (b ∷ bs) cs =
    ap (λ t. b ++ t) (concat-append bs cs) ∙ sym (append_assoc b (concat bs) (concat cs))

pub concat-end : (bs : List Buffer) (b : Buffer) → concat (bs ++ (b ∷ [])) ≡ concat bs ++ b
concat-end bs b = concat-append bs (b ∷ []) ∙ ap (λ t. concat bs ++ t) (append-nil b)

put-fits :
    (size : ℕ) (line b : List ℕ)
    → ltb (length line) (avail size b) ≡ true
    → put size line b ≡ b ++ line
unfolding put
put-fits size line b e = rw e refl

fresh-put :
    (size : ℕ) (line : List ℕ) (next : Option Buffer) (buffers : List Buffer)
    → length line < size
    → Spare next buffers
    → put size line (fresh_buffer next) ≡ line
fresh-put size line none buffers h s = put-fits size line [] (unfold avail in ground arith)
fresh-put size line (some []) buffers h s = put-fits size line [] (unfold avail in ground arith)
fresh-put size line (some (x ∷ b)) buffers h s = absurd (ground (arith, s))

pending-append :
    (size : ℕ) (line : List ℕ) (c : Logging)
    → length line < size
    → IsSound c
    → pending (append size line c) ≡ pending c ++ line
unfolding append
pending-append size line c h s =
    elim (Bool-cases (ltb (length line) (avail size c.current_buffer))) [
      | inl fits ↦ rw (fits, put-fits size line c.current_buffer fits) (simp append_assoc)
      | inr full ↦
          rw
            (
              full,
              fresh-put size line c.next_buffer c.buffers h s.spare,
              concat-end c.buffers c.current_buffer,
            )
            (simp append_assoc)
    ]

-- A line that a buffer has room for.
abbrev pub Short : ℕ → Event → Type 0
Short size (logs line) = length line < size
Short size turns = Unit

-- A step that drops nothing: threadFunc does not have more than 25 buffers to write.
abbrev pub drops : Phase → List Buffer → Event → Bool
drops writing bs turns = many bs
drops collecting bs turns = false
drops _ bs (logs line) = false

abbrev Holds : (Logging → Type 0) → Option Logging → Type 0
Holds P none = ⊥
Holds P (some d) = P d

abbrev and_then : Option Logging → (Logging → Bool) → Bool
and_then none k = false
and_then (some d) k = k d

both : (a b : Bool) → (not a && b) ≡ true → (a ≡ false) × (b ≡ true)
both true b h = absurd (ground arith)
both false b h = (refl, h)

some_path : (P : Logging → Type 0) (o : Option Logging) (d : Logging) → o ≡ some d → Holds P o → P d
some_path P o d e h = subst (Holds P) e h

module _ (notice : ℕ → List ℕ) where
  -- No step of the run drops anything.
  unfoldable pub calm : ℕ → List Event → Logging → Bool
  calm size [] c = true
  calm size (e ∷ es) c =
      let rest = and_then (step notice size e c) (calm size es) in
      not (drops c.phase c.buffers_to_write e) && rest

  pending-turn :
      (p : Phase) (c : Logging)
      → Ready p c.new_buffer1 c.new_buffer2 c.buffers_to_write
      → drops p c.buffers_to_write turns ≡ false
      → Holds (λ d. pending d ≡ pending c) (turn_from notice p c)
  unfolding collect turn_from
  pending-turn collecting c r q =
      subst (Holds (λ d. pending d ≡ pending c)) (sym (collect-turn notice c r))
        (rw (r.2, concat-end c.buffers c.current_buffer) (simp append-nil))
  pending-turn writing c r q =
      subst (Holds (λ d. pending d ≡ pending c))
        (sym (write-take_back notice c c.buffers_to_write r))
        (rw q (
          append_assoc c.output (concat c.buffers_to_write) (concat c.buffers ++ c.current_buffer)))

  pending-step :
      (size : ℕ) (e : Event) (c : Logging)
      → IsSound c
      → Short size e
      → drops c.phase c.buffers_to_write e ≡ false
      → Holds (λ d. pending d ≡ pending c ++ logged (e ∷ [])) (step notice size e c)
  unfolding step
  pending-step size (logs line) c s h q =
      pending-append size line c h s ∙ ap (λ t. pending c ++ t) (sym (append-nil line))
  pending-step size turns c s h q =
      subst (λ t. Holds (λ d. pending d ≡ t) (turn_from notice c.phase c))
        (sym (append-nil (pending c))) (pending-turn c.phase c s.ready q)

  logged_cons : (e : Event) (es : List Event) → logged (e ∷ []) ++ logged es ≡ logged (e ∷ es)
  logged_cons (logs line) es = ap (λ t. t ++ logged es) (append-nil line)
  logged_cons turns es = refl

  run-pending :
      (size : ℕ) (es : List Event) (c : Logging)
      → IsSound c
      → All (Short size) es
      → calm size es c ≡ true
      → (d : Logging) × (run notice size es c ≡ some d) × (pending d ≡ pending c ++ logged es)
  unfolding run calm
  run-pending size [] c s h q = (c, refl, sym (append-nil (pending c)))
  run-pending size (e ∷ es) c s h q =
      let (d, ran, sound) = step-IsSound notice size e c s in
      let (quiet, rest) = both (drops c.phase c.buffers_to_write e) _ q in
      let kept_on = some_path _ _ d ran (pending-step size e c s h.0 quiet) in
      let (d', ran', kept') = run-pending size es d sound h.1 (rw ran at rest) in
      (
        d',
        ap (λ o. o >>= run notice size es) ran ∙ ran',
        kept'
            ∙ ap (λ t. t ++ logged es) kept_on
            ∙ append_assoc (pending c) _ (logged es)
            ∙ ap (λ t. pending c ++ t) (logged_cons e es),
      )

  -- If every line is shorter than a buffer, and threadFunc never has more than 25 buffers to
  -- write, then after every interleaving of calls of append with the steps of threadFunc, what
  -- is written and what waits in the buffers are together exactly the lines, in the order in
  -- which they were logged.
  pub run-logged :
      (size : ℕ) (es : List Event)
      → All (Short size) es
      → calm size es started ≡ true
      → (d : Logging) × (run notice size es started ≡ some d) × (pending d ≡ logged es)
  run-logged size es h q = run-pending size es started started-IsSound h q
