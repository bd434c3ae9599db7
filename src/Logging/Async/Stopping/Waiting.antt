-- ===== src/Logging/Async/Stopping/Waiting.antt =====
-- A stop that finds the log's thread waiting.
use dog_server.Base.{
  ℕ, ◌≡◌, ◌≤◌, inl, inr, refl, sym, ap, subst, false, Option, none, some, List, [], ◌∷◌, ◌++◌,
  length, length-append, arith,
}
use dog_server.Logging.Async.{
  Buffer, collecting, writing, Logging, collect, concat, many, written, turn_from,
}
use dog_server.Logging.Async.Sound.{Ready, IsSound, Spare, write-take_back}
use dog_server.Logging.Async.Order.{pending, concat-end}
use dog_server.Logging.Async.Stopping.{inside, ended, Running, stop, goes, thread_step, act, acts}

module _ (notice : ℕ → List ℕ) (size : ℕ) where
  -- The last buffers are written, and the loop is left.
  finish :
      (c : Logging)
      → Ready writing c.new_buffer1 c.new_buffer2 c.buffers_to_write
      → acts notice size
          (goes ∷ goes ∷ [])
          record { log = record c { phase = writing }; running = false; place = inside }
        ≡ some record {
          log = record c {
            phase = collecting;
            new_buffer1 = some [];
            new_buffer2 = some [];
            buffers_to_write = [];
            output = c.output ++ written notice c.buffers_to_write;
          };
          running = false;
          place = ended;
        }
  unfolding acts act thread_step turn_from
  finish c r = rw (write-take_back notice (record c { phase = writing }) c.buffers_to_write r) refl

  written-few :
      (current : Buffer) (buffers : List Buffer)
      → length buffers ≤ 24
      → written notice (buffers ++ (current ∷ [])) ≡ concat buffers ++ current
  written-few current buffers few =
      let size = length-append buffers (current ∷ []) in
      let calm : many (buffers ++ (current ∷ [])) ≡ false = ground (arith, size) in
      rw calm (concat-end buffers current)

  -- The thread has ended, with all that was pending in the log.
  Ends : Logging → Type 0
  Ends c =
      (d : Running) × (acts notice size (goes ∷ goes ∷ goes ∷ [])
          record { log = c; running = false; place = inside }
        ≡ some d)
      × (d.place ≡ ended)
      × (d.log.output ≡ pending c)

  waiting :
      (current : Buffer) (next : Option Buffer) (buffers : List Buffer) (out : List ℕ)
      → Spare next buffers
      → length buffers ≤ 24
      → Ends record {
        current_buffer = current;
        next_buffer = next;
        buffers = buffers;
        phase = collecting;
        new_buffer1 = some [];
        new_buffer2 = some [];
        buffers_to_write = [];
        output = out;
      }
  unfolding Ends acts act thread_step turn_from collect
  waiting current none buffers out h few =
      let size = length-append buffers (current ∷ []) in
      let c : Logging = record {
        current_buffer = [];
        next_buffer = some [];
        buffers = [];
        phase = writing;
        new_buffer1 = none;
        new_buffer2 = none;
        buffers_to_write = buffers ++ (current ∷ []);
        output = out;
      } in
      (
        _,
        finish c (refl, omega (arith, size), inr (refl, omega (arith, size, h))),
        refl,
        ap (λ t. out ++ t) (written-few current buffers few),
      )
  waiting current (some b) buffers out h few =
      let size = length-append buffers (current ∷ []) in
      let c : Logging = record {
        current_buffer = [];
        next_buffer = some b;
        buffers = [];
        phase = writing;
        new_buffer1 = none;
        new_buffer2 = some [];
        buffers_to_write = buffers ++ (current ∷ []);
        output = out;
      } in
      (
        _,
        finish c (refl, omega (arith, size), inl refl),
        refl,
        ap (λ t. out ++ t) (written-few current buffers few),
      )

as_waiting :
    (c : Logging)
    → c.phase ≡ collecting
    → c.new_buffer1 ≡ some []
    → c.new_buffer2 ≡ some []
    → c.buffers_to_write ≡ []
    → c ≡ record {
      current_buffer = c.current_buffer;
      next_buffer = c.next_buffer;
      buffers = c.buffers;
      phase = collecting;
      new_buffer1 = some [];
      new_buffer2 = some [];
      buffers_to_write = [];
      output = c.output;
    }
as_waiting c phase one two taken = λ i. record c {
  phase = phase i;
  new_buffer1 = one i;
  new_buffer2 = two i;
  buffers_to_write = taken i;
}

-- If stop comes while the log's thread waits for the mutex or for its condition, with at most 24
-- full buffers, then its next three steps end it, and everything that was logged before is in the log.
pub acts-waiting :
    (notice : ℕ → List ℕ) (size : ℕ) (s : Running)
    → IsSound s.log
    → s.place ≡ inside
    → s.log.phase ≡ collecting
    → length s.log.buffers ≤ 24
    → (d : Running) × (acts notice size (goes ∷ goes ∷ goes ∷ []) (stop s) ≡ some d)
      × (d.place ≡ ended)
      × (d.log.output ≡ pending s.log)
acts-waiting notice size s sound here phase few =
    let c = s.log in
    let (one, two, taken) =
      subst (λ p. Ready p c.new_buffer1 c.new_buffer2 c.buffers_to_write) phase sound.ready in
    let ended_log =
      subst (Ends notice size) (sym (as_waiting c phase one two taken))
        (waiting notice size c.current_buffer c.next_buffer c.buffers c.output sound.spare few) in
    subst
      (λ p.
        (d : Running) × (acts notice size (goes ∷ goes ∷ goes ∷ [])
            record { log = c; running = false; place = p }
          ≡ some d)
        × (d.place ≡ ended)
        × (d.log.output ≡ pending c))
      (sym here) (unfold Ends in ended_log)
