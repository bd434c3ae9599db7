-- ===== src/Logging/Async/Stopping/Ended.antt =====
-- What is in the log when stop has returned.
use dog_server.Base.{
  ℕ, ◌≡◌, ◌⊎◌, inl, inr, refl, sym, ap, ◌∙◌, subst, false, Option, none, some, List, [], ◌∷◌, ◌++◌,
  ltb, length, Bool-cases, arith, if◌then◌else◌,
}
use dog_server.Logging.Async.{
  Buffer, Phase, writing, Logging, append, avail, written, turn_from, write, ◌>>=◌,
}
use dog_server.Logging.Async.Sound.{Ready, IsSound, write-take_back}
use dog_server.Logging.Async.Stopping.{
  Place, testing, inside, ended, Running, stop, Act, logs, goes, thread_step, act, acts,
  place_after,
}

-- The part of the log that append leaves alone.
abbrev Locals : Type 0
Locals = Phase × (List Buffer × (List ℕ × (Option Buffer × Option Buffer)))

abbrev locals : Logging → Locals
locals c = (c.phase, (c.buffers_to_write, (c.output, (c.new_buffer1, c.new_buffer2))))

append-locals : (size : ℕ) (line : List ℕ) (c : Logging) → locals (append size line c) ≡ locals c
unfolding append
append-locals size line c = elim (Bool-cases (ltb (length line) (avail size c.current_buffer))) [
  | inl fits ↦ rw fits refl
  | inr full ↦ rw full refl
]

module _ (notice : ℕ → List ℕ) (bs : List Buffer) (out : List ℕ) (new1 new2 : Option Buffer) where
  -- The log's thread writes its last buffers, or has written them.
  abbrev Late : Place → Locals → Type 0
  Late inside l = l ≡ (writing, (bs, (out, (new1, new2))))
  Late testing l = l.1.1.0 ≡ out ++ written notice bs
  Late ended l = l.1.1.0 ≡ out ++ written notice bs

  record IsLate (s : Running) : Type 0 where
    stopped : s.running ≡ false
    late : Late s.place (locals s.log)

  Keeps : Option Running → Type 0
  Keeps none = Unit
  Keeps (some d) = IsLate d

  write-IsLate :
      (s : Running)
      → Ready writing new1 new2 bs
      → s.running ≡ false
      → Late inside (locals s.log)
      → Keeps (thread_step notice inside s)
  unfolding thread_step Keeps turn_from
  write-IsLate s r f l =
      let spare =
        subst (λ (t : Option Buffer × Option Buffer). Ready writing t.0 t.1 bs)
          (sym (ap (λ (t : Locals). t.1.1.1) l)) r in
      let turn =
        ap (λ p. turn_from notice p s.log) (ap (λ (t : Locals). t.0) l)
        ∙ ap (λ b. write notice b s.log) (ap (λ (t : Locals). t.1.0) l)
        ∙ write-take_back notice s.log bs spare in
      subst (λ o. Keeps (o >>= (λ d. some (record s { log = d; place = place_after d.phase }))))
        (sym turn)
        record { stopped = f; late = ap (λ (t : Locals). t.1.1.0 ++ written notice bs) l }

  thread_step-Keeps :
      (p : Place) (s : Running)
      → Ready writing new1 new2 bs
      → s.running ≡ false
      → Late p (locals s.log)
      → Keeps (thread_step notice p s)
  unfolding thread_step Keeps
  thread_step-Keeps testing s r f l = record {
    stopped = f;
    late = subst (λ b. Late (if b then inside else ended) (locals s.log)) (sym f) l;
  }
  thread_step-Keeps inside s r f l = write-IsLate s r f l
  thread_step-Keeps ended s r f l = tt

  act-Keeps :
      (size : ℕ) (a : Act) (s : Running)
      → Ready writing new1 new2 bs
      → IsLate s
      → Keeps (act notice size a s)
  unfolding act Keeps
  act-Keeps size (logs line) s r h = record {
    stopped = h.stopped;
    late = subst (Late s.place) (sym (append-locals size line s.log)) h.late;
  }
  act-Keeps size goes s r h = thread_step-Keeps s.place s r h.stopped h.late

  first_act :
      (o : Option Running) (next : Running → Option Running) (d : Running)
      → Keeps o
      → (o >>= next) ≡ some d
      → (s : Running) × (IsLate s × (next s ≡ some d))
  unfolding Keeps
  first_act none next d k q = absurd (ground arith)
  first_act (some s) next d k q = (s, (k, q))

  value_or : Running → Option Running → Running
  value_or s none = s
  value_or s (some d) = d

  acts-IsLate :
      (size : ℕ) (es : List Act) (s d : Running)
      → Ready writing new1 new2 bs
      → IsLate s
      → acts notice size es s ≡ some d
      → IsLate d
  unfolding acts value_or
  acts-IsLate size [] s d r h q = subst IsLate (ap (value_or s) q) h
  acts-IsLate size (a ∷ es) s d r h q =
      let (s', (h', q')) =
        first_act (act notice size a s) (acts notice size es) d (act-Keeps size a s r h) q in
      acts-IsLate size es s' d r h' q'

  Late-output :
      (p : Place) (l : Locals) → Late p l → (l.1.1.0 ≡ out) ⊎ (l.1.1.0 ≡ out ++ written notice bs)
  Late-output inside l h = inl (ap (λ (t : Locals). t.1.1.0) h)
  Late-output testing l h = inr h
  Late-output ended l h = inr h

-- If stop comes while the log's thread writes the buffers that it has taken, then whatever is logged
-- and done from there on, the log holds what it held, or that and what the thread writes of those
-- buffers: the lines that stood in the other buffers as stop was called are not written, nor is
-- any later line.
pub acts-stop :
    (notice : ℕ → List ℕ) (size : ℕ) (es : List Act) (s d : Running)
    → IsSound s.log
    → s.place ≡ inside
    → s.log.phase ≡ writing
    → acts notice size es (stop s) ≡ some d
    → (d.log.output ≡ s.log.output)
      ⊎ (d.log.output ≡ s.log.output ++ written notice s.log.buffers_to_write)
acts-stop notice size es s d sound here phase q =
    let c = s.log in
    let late =
      acts-IsLate notice c.buffers_to_write c.output c.new_buffer1 c.new_buffer2 size es (stop s) d
        (subst (λ p. Ready p c.new_buffer1 c.new_buffer2 c.buffers_to_write) phase sound.ready)
        record {
          stopped = refl;
          late =
              subst
                (λ p.
                  Late notice c.buffers_to_write c.output c.new_buffer1 c.new_buffer2 p (locals c))
                (sym here)
                (ap
                  (λ (p : Phase).
                    (p, (c.buffers_to_write, (c.output, (c.new_buffer1, c.new_buffer2)))))
                  phase);
        }
        q in
    Late-output notice c.buffers_to_write c.output c.new_buffer1 c.new_buffer2 d.place
      (locals d.log) late.late
