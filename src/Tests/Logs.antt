-- ===== src/Tests/Logs.antt =====
-- The log with buffers of four bytes.
use dog_server.Base.{ℕ, ◌≡◌, refl, true, some, List, [], ◌∷◌, arith}
use dog_server.Logging.Async.{
  Logging, started, avail, put, append, collect, refill, take_back, write, turn_from, Event, logs,
  turns, step, run,
}
use dog_server.Logging.Async.Sound.{IsSound, run-IsSound}
use dog_server.Logging.Async.Order.{pending, logged, calm, run-logged}

abbrev no_notice : ℕ → List ℕ
no_notice n = []

abbrev events : List Event
events =
    logs (1 ∷ 2 ∷ [])
    ∷ turns
    ∷ logs (3 ∷ 4 ∷ 5 ∷ [])
    ∷ logs (6 ∷ [])
    ∷ turns
    ∷ turns
    ∷ logs (7 ∷ 8 ∷ [])
    ∷ turns
    ∷ []

calm-events : calm no_notice 4 events started ≡ true
unfolding calm step append put avail turn_from collect write take_back refill
calm-events = refl

run-IsSound_example : (d : Logging) × (run no_notice 4 events started ≡ some d) × IsSound d
run-IsSound_example = run-IsSound no_notice 4 events

run-logged_example :
    (d : Logging) × (run no_notice 4 events started ≡ some d) × (pending d ≡ logged events)
run-logged_example = run-logged no_notice 4 events (omega arith) calm-events
