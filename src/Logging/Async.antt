-- ===== src/Logging/Async.antt =====
-- FixedBuffer (src/fixed-buffer.h) and AsyncLogging (src/async-logging.cc): the buffers that
-- append fills under the mutex and threadFunc empties.
pub mod Sound
pub mod Order
pub mod Stopping
use dog_server.Base.{
  ℕ, suc, ◌+◌, ◌-◌, Bool, true, false, Option, none, some, List, [], ◌∷◌, ◌++◌, ltb, if◌then◌else◌,
  length, take,
}

-- A buffer is the bytes that stand in it. `size` is the template's SIZE, kLargeBuffer here.
abbrev pub Buffer : Type 0
Buffer = List ℕ

unfoldable pub avail : ℕ → Buffer → ℕ
avail size b = size - length b

-- FixedBuffer::append, which writes nothing where there is no room.
unfoldable pub put : ℕ → List ℕ → Buffer → Buffer
put size line b = if ltb (length line) (avail size b) then b ++ line else b

-- Where threadFunc stands: about to take the mutex, or about to write what it took.
pub data Phase : Type 0 where
  collecting writing : Phase

-- The members of the log, the locals of threadFunc, and what `output` has been given.
pub record Logging : Type 0 where
  pub current_buffer : Buffer
  pub next_buffer : Option Buffer
  pub buffers : List Buffer
  pub phase : Phase
  pub new_buffer1 : Option Buffer
  pub new_buffer2 : Option Buffer
  pub buffers_to_write : List Buffer
  pub output : List ℕ

-- The log when threadFunc enters its loop.
abbrev pub started : Logging
started = record {
  current_buffer = [];
  next_buffer = some [];
  buffers = [];
  phase = collecting;
  new_buffer1 = some [];
  new_buffer2 = some [];
  buffers_to_write = [];
  output = [];
}

-- std::move(nextBuffer_), or a new buffer.
abbrev pub fresh_buffer : Option Buffer → Buffer
fresh_buffer none = []
fresh_buffer (some b) = b

-- AsyncLogging::append.
unfoldable pub append : ℕ → List ℕ → Logging → Logging
append size line c =
    if ltb (length line) (avail size c.current_buffer)
    then record c { current_buffer = put size line c.current_buffer }
    else record c {
      buffers = c.buffers ++ (c.current_buffer ∷ []);
      current_buffer = put size line (fresh_buffer c.next_buffer);
      next_buffer = none;
    }

abbrev pub is_empty : {A : Type 0} → List A → Bool
is_empty [] = true
is_empty (x ∷ xs) = false

abbrev pub fill_next : Option Buffer → Option Buffer → Option Buffer × Option Buffer
fill_next none new2 = (new2, none)
fill_next (some b) new2 = (some b, new2)

-- The assertions at the head of the loop, and the block under the mutex; `none` if an assertion
-- fails.
unfoldable pub collect : Option Buffer → Option Buffer → List Buffer → Logging → Option Logging
collect (some []) (some []) [] c =
    let (next, new2) = fill_next c.next_buffer (some []) in
    some (record c {
      current_buffer = [];
      next_buffer = next;
      buffers = [];
      phase = writing;
      new_buffer1 = none;
      new_buffer2 = new2;
      buffers_to_write = c.buffers ++ (c.current_buffer ∷ []);
    })
collect _ _ _ c = none

-- if (!newBuffer) { newBuffer = buffersToWrite.back(); … reset(); }
unfoldable pub refill : Option Buffer → List Buffer → Option (Option Buffer × List Buffer)
refill (some b) left = some (some b, left)
refill none [] = none
refill none (b ∷ left) = some (some [], left)

abbrev pub concat : List Buffer → List ℕ
concat [] = []
concat (b ∷ bs) = b ++ concat bs

-- What happens to the log: a thread logs a line, or threadFunc goes on to its next step.
pub data Event : Type 0 where
  logs : List ℕ → Event
  turns : Event

infixl 5 ◌>>=◌
abbrev pub ◌>>=◌ : {A : Type 0} {B : Type 0} → Option A → (A → Option B) → Option B
some x >>= rest = rest x
none >>= rest = none

-- The end of the loop's body: `left` is what is left of the buffers that were written.
unfoldable pub take_back :
    Option Buffer → Option Buffer → List Buffer → List ℕ → Logging → Option Logging
take_back new1 new2 left out c = do
  (back1, left1) ← refill new1 left
  (back2, left2) ← refill new2 left1
  some (record c {
    phase = collecting;
    new_buffer1 = back1;
    new_buffer2 = back2;
    buffers_to_write = [];
    output = out;
  })

abbrev pub many : List Buffer → Bool
many bs = ltb 25 (length bs)

-- What stays of more than 25 buffers.
abbrev pub kept : List Buffer → List Buffer
kept bs = if many bs then take 2 bs else bs

-- From the assertion behind the block on. The buffers that are kept for reuse are emptied, so only
-- their number matters, and they are taken from the front. `notice` is the text that
-- snprintf makes of the number of buffers that are dropped.
module _ (notice : ℕ → List ℕ) where
  abbrev pub written : List Buffer → List ℕ
  written bs = (if many bs then notice (length bs - 2) else []) ++ concat (kept bs)

  unfoldable pub write : List Buffer → Logging → Option Logging
  write [] c = none
  write (b ∷ bs) c =
      take_back c.new_buffer1 c.new_buffer2 (take 2 (kept (b ∷ bs))) (c.output ++ written (b ∷ bs))
        c

  unfoldable pub turn_from : Phase → Logging → Option Logging
  turn_from collecting c = collect c.new_buffer1 c.new_buffer2 c.buffers_to_write c
  turn_from writing c = write c.buffers_to_write c

  unfoldable pub step : ℕ → Event → Logging → Option Logging
  step size (logs line) c = some (append size line c)
  step size turns c = turn_from c.phase c

  unfoldable pub run : ℕ → List Event → Logging → Option Logging
  run size [] c = some c
  run size (e ∷ es) c = do d ← step size e c; run size es d
