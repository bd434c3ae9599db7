-- ===== src/Tests/Loops.antt =====
-- A loop with one functor from another thread and one of its own.
use dog_server.Base.{ℕ, ◌≡◌, refl, false, some, List, [], ◌∷◌, arith}
use dog_server.Server.Loop.{
  polling, EventLoop, new_loop, wakeup, handle_read, queue_in_loop, Event, queues, wakes, reports,
  reads_wakeup, queues_own, swaps, calls, returns, step_from, step, run,
}
use dog_server.Server.Send.{wrote, eintr, eagain}
use dog_server.Server.Loop.Descriptor.{gives, interrupted, counted, writen, readn}
use dog_server.Server.Loop.Descriptor.Whole.{readn-writen}
use dog_server.Server.Loop.Wakeup.{queued, IsWoken, run-IsWoken}

abbrev round : List Event
round =
    queues 5
    ∷ wakes
    ∷ reports
    ∷ reads_wakeup
    ∷ swaps
    ∷ queues_own 6
    ∷ queues 7
    ∷ calls
    ∷ returns
    ∷ []

abbrev after_round : EventLoop
after_round = record {
  pending_functors = 6 ∷ 7 ∷ [];
  calling_pending_functors = false;
  phase = polling;
  wakeups = 1;
  waking = 1;
  called = 5 ∷ [];
}

run-round : run round new_loop ≡ some after_round
unfolding run step step_from wakeup handle_read queue_in_loop
run-round = refl

run-IsWoken_example : IsWoken after_round (queued round)
run-IsWoken_example = run-IsWoken round after_round run-round

-- The number 1 of wakeup, in eight bytes.
abbrev one : List ℕ
one = 1 ∷ 0 ∷ 0 ∷ 0 ∷ 0 ∷ 0 ∷ 0 ∷ 0 ∷ []

readn-writen_example :
    (writen [] one (eintr ∷ wrote 8 ∷ []) ≡ counted one)
    × (readn [] 8 (gives (1 ∷ 0 ∷ 0 ∷ []) ∷ interrupted ∷ gives (0 ∷ 0 ∷ 0 ∷ 0 ∷ 0 ∷ []) ∷ [])
        ≡ counted one)
readn-writen_example =
    readn-writen one (eintr ∷ wrote 8 ∷ [])
      (gives (1 ∷ 0 ∷ 0 ∷ []) ∷ interrupted ∷ gives (0 ∷ 0 ∷ 0 ∷ 0 ∷ 0 ∷ []) ∷ []) (tt, (tt, tt))
      (omega arith) (tt, (tt, (tt, tt))) refl

-- A full eventfd makes writen return the number of the bytes that it has written.
writen-full : writen [] one (eagain ∷ []) ≡ counted []
unfolding writen
writen-full = refl
