-- ===== src/Logging/Async/Stopping.antt =====
-- AsyncLogging::start and stop (src/async-logging.cc): running_, and the loop of threadFunc around
-- the steps of Async.
pub mod Ended
pub mod Waiting
use dog_server.Base.{ℕ, Bool, true, false, Option, none, some, List, [], ◌∷◌, if◌then◌else◌}
use dog_server.Logging.Async.{
  Phase, collecting, writing, Logging, started, append, turn_from, ◌>>=◌,
}

-- The log's thread at the test of its while, in the body, or behind the loop and the last flush.
pub data Place : Type 0 where
  testing inside ended : Place

pub record Running : Type 0 where
  pub log : Logging
  pub running : Bool
  pub place : Place

-- start: running_ is set before the thread, and the latch is at 0 once the locals of threadFunc
-- are set.
abbrev pub start : Running
start = record { log = started; running = true; place = testing }

-- The store of stop; its notify lets the body go on, and join waits for `ended`.
abbrev pub stop : Running → Running
stop s = record s { running = false }

abbrev place_after : Phase → Place
place_after writing = inside
place_after collecting = testing

-- What happens: a thread logs a line, or the log's thread makes its next step.
pub data Act : Type 0 where
  logs : List ℕ → Act
  goes : Act

module _ (notice : ℕ → List ℕ) where
  unfoldable pub thread_step : Place → Running → Option Running
  thread_step testing s = some (record s { place = if s.running then inside else ended })
  thread_step inside s = do
    d ← turn_from notice s.log.phase s.log
    some (record s { log = d; place = place_after d.phase })
  thread_step ended s = none

  unfoldable pub act : ℕ → Act → Running → Option Running
  act size (logs line) s = some (record s { log = append size line s.log })
  act size goes s = thread_step s.place s

  unfoldable pub acts : ℕ → List Act → Running → Option Running
  acts size [] s = some s
  acts size (a ∷ next) s = do d ← act size a s; acts size next d
