-- ===== src/Threads.antt =====
-- Thread and ThreadData (src/cur-thread.cc), CountDownLatch (src/countdown-latch.cc), and
-- EventLoopThread (src/event-loop-thread.cc) with loop and quit (src/event-loop.cc): the thread that
-- makes an EventLoopThread, starts and destroys it, and the thread that it starts, interleaved.
pub mod Keeps
pub mod Sound
pub mod Left
pub mod Ends
pub mod Lost
pub mod Pool
use dog_server.Base.{
  ℕ, suc, ◌-◌, ◌≡◌, Bool, true, false, Option, none, some, ltb, ◌==◌, if◌then◌else◌,
}

-- Where the calling thread stands. `unstarted`: before startLoop. `latching`, `latch_asleep`: at the
-- test and in condition_.wait() of the latch. `latched`: behind latch_.wait(). `looking`,
-- `loop_asleep`: at the test and in cond_.wait() of startLoop. `returning`: at its return. `has l`:
-- startLoop has returned `l`. `quitting`, `waking`, `joining`: in the destructor. `aborted`: an
-- assertion has failed.
pub data Caller : Type 0 where
  unstarted latching latch_asleep latched looking loop_asleep returning : Caller
  has : ℕ → Caller
  quitting waking joining gone aborted : Caller

-- Where the new thread stands. `storing`, `counting`, `naming`: in runInThread before func_.
-- `publishing`: at the block of threadFunc under the mutex. `entering`: at the call of loop(), before
-- it resets quit_. `testing`: at the test of its while. `polling`: in epoll_wait. `handling`: reading
-- the eventfd. `clearing`: behind loop(). `ended`: the thread has returned.
pub data Child : Type 0 where
  unborn storing counting naming publishing entering testing polling handling clearing ended : Child

-- `tid_`, `started_`, `joined_` and `count_` of the Thread and its latch, `detached` by its
-- destructor; `loop_` with 0 for NULL; `quit_` of the loop, and the counter of its eventfd.
pub record LoopThread : Type 0 where
  pub caller : Caller
  pub child : Child
  pub started : Bool
  pub joined : Bool
  pub detached : Bool
  pub tid : ℕ
  pub count : ℕ
  pub loop : ℕ
  pub quit : Bool
  pub wakeups : ℕ

abbrev pub new_loop_thread : LoopThread
new_loop_thread = record {
  caller = Caller.unstarted;
  child = Child.unborn;
  started = false;
  joined = false;
  detached = false;
  tid = 0;
  count = 1;
  loop = 0;
  quit = false;
  wakeups = 0;
}

abbrev go : Caller → LoopThread → LoopThread
go p c = record c { caller = p }

-- One round of CountDownLatch::wait under its mutex.
unfoldable pub latch_wait : LoopThread → LoopThread
latch_wait c = if ltb 0 c.count then go latch_asleep c else go latched c

-- What notifyAll of the latch and notify of startLoop's condition do to the caller.
abbrev pub notify_latch : Caller → Caller
notify_latch latch_asleep = latching
notify_latch p = p

abbrev pub notify_loop : Caller → Caller
notify_loop loop_asleep = looking
notify_loop p = p

-- CountDownLatch::countDown.
unfoldable pub count_down : LoopThread → LoopThread
count_down c =
    let d = record c { count = c.count - 1 } in
    if d.count == 0 then go (notify_latch d.caller) d else d

-- The caller in Thread::start, where pthread_create succeeds, up to the assertion behind the latch.
unfoldable pub thread_start : Caller → LoopThread → Option LoopThread
thread_start unstarted c = some (record c { caller = latching; child = storing; started = true })
thread_start latching c = some (latch_wait c)
thread_start latched c = some (if ltb 0 c.tid then go looking c else go aborted c)
thread_start _ c = none

-- The caller in startLoop behind thread_.start().
unfoldable pub start_loop : Caller → LoopThread → Option LoopThread
start_loop looking c = some (if c.loop == 0 then go loop_asleep c else go returning c)
start_loop returning c = some (go (has c.loop) c)
start_loop _ c = none

-- quit from another thread than the loop's: the store, then the wakeup, behind which the destructor
-- calls join.
unfoldable pub quit_loop : Caller → LoopThread → Option LoopThread
quit_loop quitting c = some (record c { caller = waking; quit = true })
quit_loop waking c = some (record c { caller = joining; joined = true; wakeups = suc c.wakeups })
quit_loop _ c = none

abbrev pub has_ended : Child → Bool
has_ended ended = true
has_ended _ = false

-- pthread_join, which returns when the thread has.
unfoldable pub join_step : LoopThread → Option LoopThread
join_step c = if has_ended c.child then some (go gone c) else none

-- ~EventLoopThread up to its call of quit, then ~Thread where it does not join.
unfoldable pub destroy : LoopThread → LoopThread
destroy c = if c.loop == 0 then record c { caller = gone; detached = c.started } else go quitting c

-- The caller's next step; `none` where it waits or is at its end.
unfoldable pub call_step : Caller → LoopThread → Option LoopThread
call_step unstarted c = thread_start unstarted c
call_step latching c = thread_start latching c
call_step latched c = thread_start latched c
call_step looking c = start_loop looking c
call_step returning c = start_loop returning c
call_step quitting c = quit_loop quitting c
call_step waking c = quit_loop waking c
call_step joining c = join_step c
call_step _ c = none

unfoldable pub destroy_step : Caller → LoopThread → Option LoopThread
destroy_step (has l) c = some (destroy c)
destroy_step _ c = none

-- Thread::start where pthread_create fails: the latch is not waited for.
unfoldable pub fail_step : Caller → LoopThread → Option LoopThread
fail_step unstarted c = some (record c { caller = looking; started = false })
fail_step _ c = none

-- A wait of a condition may return without a notify.
unfoldable pub spurious_step : Caller → LoopThread → Option LoopThread
spurious_step latch_asleep c = some (go latching c)
spurious_step loop_asleep c = some (go looking c)
spurious_step _ c = none

-- The new thread in EventLoop::loop, with handleRead of the eventfd.
unfoldable pub loop_round : Child → LoopThread → Option LoopThread
loop_round entering c = some (record c { child = testing; quit = false })
loop_round testing c = some (record c { child = if c.quit then clearing else polling })
loop_round polling c = if ltb 0 c.wakeups then some (record c { child = handling }) else none
loop_round handling c = some (record c { child = testing; wakeups = 0 })
loop_round _ c = none

-- What happens next: a step of the caller or of the new thread, and what the system does.
pub data Turn : Type 0 where
  calls runs destroys create_fails wakes_spuriously reports : Turn

-- epoll_wait that reports other descriptors only.
unfoldable pub report_step : Child → LoopThread → Option LoopThread
report_step polling c = some (record c { child = testing })
report_step _ c = none

module _ (id address : ℕ) where
  -- The new thread in runInThread before func_; the system names it `id`.
  unfoldable pub run_in_thread : Child → LoopThread → Option LoopThread
  run_in_thread storing c = some (record c { child = counting; tid = id })
  run_in_thread counting c = some (record (count_down c) { child = naming })
  run_in_thread naming c = some (record c { child = publishing })
  run_in_thread _ c = none

  -- The new thread in threadFunc around loop(); its EventLoop stands at `address`.
  unfoldable pub thread_func : Child → LoopThread → Option LoopThread
  thread_func publishing c =
      some (record c { child = entering; loop = address; caller = notify_loop c.caller })
  thread_func clearing c = some (record c { child = ended; loop = 0 })
  thread_func _ c = none

  -- The new thread's next step.
  unfoldable pub run_step : Child → LoopThread → Option LoopThread
  run_step storing c = run_in_thread storing c
  run_step counting c = run_in_thread counting c
  run_step naming c = run_in_thread naming c
  run_step publishing c = thread_func publishing c
  run_step clearing c = thread_func clearing c
  run_step entering c = loop_round entering c
  run_step testing c = loop_round testing c
  run_step polling c = loop_round polling c
  run_step handling c = loop_round handling c
  run_step _ c = none

  unfoldable pub step : Turn → LoopThread → Option LoopThread
  step calls c = call_step c.caller c
  step runs c = run_step c.child c
  step destroys c = destroy_step c.caller c
  step create_fails c = fail_step c.caller c
  step wakes_spuriously c = spurious_step c.caller c
  step reports c = report_step c.child c

  -- The states that steps lead to.
  pub data Reaches (c : LoopThread) : LoopThread → Type 0 where
    here : Reaches c c
    later : {d d' : LoopThread} (e : Turn) → Reaches c d → step e d ≡ some d' → Reaches c d'
