-- ===== src/Client/Program/Senders.antt =====
-- The threads of bin/dog-client.cc: SendThread on the shared list, and the loop of main that ends
-- when every thread has, or when epoll_wait fails. What main does behind its loop is not modelled:
-- the threads go on.
pub mod Shared
pub mod Known
pub mod Moving
pub mod Finished
pub mod Hangs
use dog_server.Base.{
  set_at, ℕ, zero, suc, ◌+◌, ◌-◌, ◌^◌, ◌≡◌, ◌<◌, Bool, true, false, not, Option, none, some, List,
  [], ◌∷◌, ◌++◌, ◌&&◌, leb, ◌==◌, if◌then◌else◌,
}

-- Where a sender stands, with its thread_id and the place of its item in the list. `starting`:
-- before it reads param->thread_id. `taking`: before the first block under the mutex. `linking`:
-- before webSocket_clientLinkToServer. `sending`: registered in epfd, before the file is sent.
-- `locking`, `asleep`: at the test of thread_ids and in pthread_cond_wait. `closing`: before
-- EPOLL_CTL_DEL. `leaving`: behind the loop.
pub data Sender : Type 0 where
  starting : Sender
  taking : (id : ℕ) → Sender
  linking sending locking asleep closing : (id item : ℕ) → Sender
  leaving done : (id : ℕ) → Sender

-- `cur_pos` of the FileList; thread_ids, an int as a word of 32 bits; `sent`, the places of the
-- items whose file has been sent; `exited` by exit(-1); `finished` by the break of main's loop at
-- its test of thread_ids, and `broken` by the one at a failing epoll_wait.
pub record Senders : Type 0 where
  pub cur_pos : ℕ
  pub thread_ids : ℕ → ℕ
  pub threads : ℕ → Sender
  pub taken : List ℕ
  pub sent : List ℕ
  pub exited : Bool
  pub finished : Bool
  pub broken : Bool

abbrev pub minus_one : ℕ
minus_one = 2 ^ 32 - 1

-- Before any thread runs; `garbage` is what `new int[threadNum]` holds.
abbrev pub new_senders : (ℕ → ℕ) → Senders
new_senders garbage = record {
  cur_pos = 0;
  thread_ids = garbage;
  threads = λ j. starting;
  taken = [];
  sent = [];
  exited = false;
  finished = false;
  broken = false;
}

abbrev pub put_thread : ℕ → Sender → Senders → Senders
put_thread j p c = record c { threads = set_at c.threads j p }

abbrev pub mark : ℕ → ℕ → Senders → Senders
mark i v c = record c { thread_ids = set_at c.thread_ids i v }

-- pthread_cond_broadcast.
abbrev pub woken : Sender → Sender
woken (asleep id k) = locking id k
woken p = p

-- The block of SendThread that takes the next item.
unfoldable pub take_item : ℕ → ℕ → ℕ → Senders → Senders
take_item list_num j id c =
    if leb list_num c.cur_pos
    then put_thread j (leaving id) (mark id minus_one c)
    else record (put_thread j (linking id c.cur_pos) (mark id minus_one c)) {
      cur_pos = c.cur_pos + 1;
      taken = c.taken ++ (c.cur_pos ∷ []);
    }

-- One round of its wait for the server to hang up.
unfoldable pub wait_round : ℕ → ℕ → ℕ → Senders → Senders
wait_round j id k c =
    if c.thread_ids id == 1
    then put_thread j (closing id k) (mark id minus_one c)
    else put_thread j (asleep id k) c

-- The next step of thread `j`, which finds `seen j` in param->thread_id; `none` where it waits or has
-- returned.
unfoldable pub send_step : (ℕ → ℕ) → ℕ → ℕ → Sender → Senders → Option Senders
send_step seen list_num j starting c = some (put_thread j (taking (seen j)) c)
send_step seen list_num j (taking id) c = some (take_item list_num j id c)
send_step seen list_num j (linking id k) c = some (put_thread j (sending id k) c)
send_step seen list_num j (sending id k) c =
    some (record (put_thread j (locking id k) c) { sent = c.sent ++ (k ∷ []) })
send_step seen list_num j (locking id k) c = some (wait_round j id k c)
send_step seen list_num j (asleep id k) c = none
send_step seen list_num j (closing id k) c = some (put_thread j (taking id) c)
send_step seen list_num j (leaving id) c = some (put_thread j (done id) (mark id 2 c))
send_step seen list_num j (done id) c = none

-- webSocket_clientLinkToServer or epoll_ctl fails.
unfoldable pub fail_step : Sender → Senders → Option Senders
fail_step (linking id k) c = some (record c { exited = true })
fail_step _ c = none

abbrev pub hang_up : ℕ → Senders → Senders
hang_up id c = record (mark id 1 c) { threads = λ j. woken (c.threads j) }

-- EPOLLRDHUP for the connection of a thread.
unfoldable pub hang_up_step : Sender → Senders → Option Senders
hang_up_step (sending id k) c = some (hang_up id c)
hang_up_step (locking id k) c = some (hang_up id c)
hang_up_step (asleep id k) c = some (hang_up id c)
hang_up_step (closing id k) c = some (hang_up id c)
hang_up_step _ c = none

unfoldable pub spurious_step : ℕ → Sender → Senders → Option Senders
spurious_step j (asleep id k) c = some (put_thread j (locking id k) c)
spurious_step j _ c = none

-- Whether main finds 2 for each of its threads.
unfoldable pub all_ended : (ℕ → ℕ) → ℕ → Bool
all_ended thread_ids zero = true
all_ended thread_ids (suc n) = all_ended thread_ids n && (thread_ids n == 2)

-- epoll_wait reports nothing in 2000 ms.
unfoldable pub time_out : ℕ → Senders → Senders
time_out n c = if all_ended c.thread_ids n then record c { finished = true } else c

-- Whether main is in its loop.
abbrev pub main_loops : Senders → Bool
main_loops c = not c.finished && not c.broken

-- epoll_wait gives -1, also where a signal interrupts it.
abbrev pub poll_fails_step : Senders → Senders
poll_fails_step c = record c { broken = true }

-- `n` threads on a list of `list_num` items.
pub data Step (seen : ℕ → ℕ) (n list_num : ℕ) (c : Senders) : Senders → Type 0 where
  sends :
      (j : ℕ) {d : Senders}
      → j < n
      → send_step seen list_num j (c.threads j) c ≡ some d
      → Step seen n list_num c d
  fails :
      (j : ℕ) {d : Senders} → j < n → fail_step (c.threads j) c ≡ some d → Step seen n list_num c d
  hangs_up :
      (j : ℕ) {d : Senders}
      → j < n
      → main_loops c ≡ true
      → hang_up_step (c.threads j) c ≡ some d
      → Step seen n list_num c d
  wakes_spuriously :
      (j : ℕ) {d : Senders}
      → j < n
      → spurious_step j (c.threads j) c ≡ some d
      → Step seen n list_num c d
  times_out : main_loops c ≡ true → Step seen n list_num c (time_out n c)
  poll_fails : main_loops c ≡ true → Step seen n list_num c (poll_fails_step c)

pub data Reaches (seen : ℕ → ℕ) (n list_num : ℕ) (c : Senders) : Senders → Type 0 where
  here : Reaches seen n list_num c c
  later :
      {d d' : Senders}
      → Reaches seen n list_num c d
      → Step seen n list_num d d'
      → Reaches seen n list_num c d'
