-- ===== src/Tests/Stops.antt =====
-- The log is stopped in two places, with buffers of four bytes.
use dog_server.Base.{ℕ, ◌≡◌, ◌⊎◌, refl, true, false, some, none, List, [], ◌∷◌, ◌++◌, inl, arith}
use dog_server.Logging.Async.{
  started, collecting, writing, avail, put, append, collect, refill, take_back, write, turn_from,
  written,
}
use dog_server.Logging.Async.Stopping.{
  inside, ended, Running, start, stop, Act, logs, goes, thread_step, act, acts,
}
use dog_server.Logging.Async.Stopping.Ended.{acts-stop}
use dog_server.Logging.Async.Stopping.Waiting.{acts-waiting}

abbrev no_notice : ℕ → List ℕ
no_notice n = []

-- A line has been taken to be written, and another one has been logged since.
abbrev busy : Running
busy = record {
  log = record {
    current_buffer = 3 ∷ [];
    next_buffer = some [];
    buffers = [];
    phase = writing;
    new_buffer1 = none;
    new_buffer2 = some [];
    buffers_to_write = (1 ∷ 2 ∷ []) ∷ [];
    output = [];
  };
  running = true;
  place = inside;
}

abbrev to_busy : List Act
to_busy = logs (1 ∷ 2 ∷ []) ∷ goes ∷ goes ∷ logs (3 ∷ []) ∷ []

start-busy : acts no_notice 4 to_busy start ≡ some busy
unfolding acts act thread_step append avail put turn_from collect
start-busy = refl

abbrev lost : Running
lost = record {
  log = record busy.log {
    phase = collecting;
    new_buffer1 = some [];
    buffers_to_write = [];
    output = 1 ∷ 2 ∷ [];
  };
  running = false;
  place = ended;
}

busy-lost : acts no_notice 4 (goes ∷ goes ∷ []) (stop busy) ≡ some lost
unfolding acts act thread_step turn_from write take_back refill
busy-lost = refl

acts-stop_example :
    (lost.log.output ≡ busy.log.output)
    ⊎ (lost.log.output ≡ busy.log.output ++ written no_notice busy.log.buffers_to_write)
acts-stop_example =
    acts-stop no_notice 4 (goes ∷ goes ∷ []) busy lost
      record { ready = (refl, omega arith, inl refl); spare = refl } refl refl busy-lost

abbrev idle : Running
idle = record {
  log = record started { current_buffer = 1 ∷ 2 ∷ [] };
  running = true;
  place = inside;
}

start-idle : acts no_notice 4 (logs (1 ∷ 2 ∷ []) ∷ goes ∷ []) start ≡ some idle
unfolding acts act thread_step append avail put
start-idle = refl

acts-waiting_example :
    (d : Running) × (acts no_notice 4 (goes ∷ goes ∷ goes ∷ []) (stop idle) ≡ some d)
    × (d.place ≡ ended)
    × (d.log.output ≡ 1 ∷ 2 ∷ [])
acts-waiting_example =
    acts-waiting no_notice 4 idle record { ready = (refl, refl, refl); spare = refl } refl refl
      (omega arith)
