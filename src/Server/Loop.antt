-- ===== src/Server/Loop.antt =====
-- EventLoop (src/event-loop.cc): loop, queueInLoop, wakeup, handleRead and doPendingFunctors, with
-- the threads that queue functors from outside.
pub mod Wakeup
pub mod Descriptor
use dog_server.Base.{
  ℕ, zero, suc, ◌+◌, Bool, true, false, Option, none, some, List, [], ◌∷◌, ◌++◌, if◌then◌else◌,
}

-- Where the loop's thread stands: before or in epoll_wait; in the handlers of what it reported; or
-- in doPendingFunctors with the functors that it has swapped out.
pub data Phase : Type 0 where
  polling handling : Phase
  calling : List ℕ → Phase

-- A functor is a number here. `wakeups` is the counter of the eventfd, `waking` the number of other
-- threads that have queued a functor and not yet written to the eventfd, `called` what has been
-- called.
pub record EventLoop : Type 0 where
  pub pending_functors : List ℕ
  pub calling_pending_functors : Bool
  pub phase : Phase
  pub wakeups : ℕ
  pub waking : ℕ
  pub called : List ℕ

abbrev pub new_loop : EventLoop
new_loop = record {
  pending_functors = [];
  calling_pending_functors = false;
  phase = polling;
  wakeups = 0;
  waking = 0;
  called = [];
}

-- writen of 1 to the eventfd.
unfoldable pub wakeup : EventLoop → EventLoop
wakeup c = record c { wakeups = suc c.wakeups }

-- readn from the eventfd, which takes the whole counter.
unfoldable pub handle_read : EventLoop → EventLoop
handle_read c = record c { wakeups = 0 }

-- queueInLoop in the loop's own thread.
unfoldable pub queue_in_loop : ℕ → EventLoop → EventLoop
queue_in_loop f c =
    let d = record c { pending_functors = c.pending_functors ++ (f ∷ []) } in
    if d.calling_pending_functors then wakeup d else d

-- What one thread does next. Another thread's queueInLoop is two steps: the functor under the
-- mutex, and the wakeup.
pub data Event : Type 0 where
  queues : ℕ → Event
  wakes : Event
  reports : Event
  reads_wakeup : Event
  queues_own : ℕ → Event
  swaps : Event
  calls : Event
  returns : Event

-- The steps of the loop's thread by its phase, `none` where a step is not the next.
unfoldable pub step_from : Phase → Event → EventLoop → Option EventLoop
step_from polling reports c = some (record c { phase = handling })
step_from handling reads_wakeup c = some (handle_read c)
step_from handling (queues_own f) c = some (queue_in_loop f c)
step_from (calling left) (queues_own f) c = some (queue_in_loop f c)
step_from handling swaps c = some (record c {
  calling_pending_functors = true;
  pending_functors = [];
  phase = calling c.pending_functors;
})
step_from (calling (f ∷ left)) calls c =
    some (record c { phase = calling left; called = c.called ++ (f ∷ []) })
step_from (calling []) returns c =
    some (record c { calling_pending_functors = false; phase = polling })
step_from _ _ c = none

abbrev pub wake_one : ℕ → EventLoop → Option EventLoop
wake_one zero c = none
wake_one (suc n) c = some (wakeup (record c { waking = n }))

unfoldable pub step : Event → EventLoop → Option EventLoop
step (queues f) c =
    some (record c { pending_functors = c.pending_functors ++ (f ∷ []); waking = suc c.waking })
step wakes c = wake_one c.waking c
step reports c = step_from c.phase reports c
step reads_wakeup c = step_from c.phase reads_wakeup c
step (queues_own f) c = step_from c.phase (queues_own f) c
step swaps c = step_from c.phase swaps c
step calls c = step_from c.phase calls c
step returns c = step_from c.phase returns c

abbrev pub and_then : Option EventLoop → (EventLoop → Option EventLoop) → Option EventLoop
and_then none k = none
and_then (some c) k = k c

unfoldable pub run : List Event → EventLoop → Option EventLoop
run [] c = some c
run (e ∷ es) c = and_then (step e c) (run es)
