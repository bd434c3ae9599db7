-- ===== src/Server/Channel.antt =====
-- Channel (src/channel.h, src/channel.cc): handleEvents and the members that the poller reads.
pub mod Handlers
use dog_server.Base.{
  ℕ, ◌+◌, bit_and, Bool, true, false, ◌&&◌, not, List, [], ◌∷◌, ◌++◌, ◌==◌, if◌then◌else◌,
}

pub record Channel : Type 0 where
  pub fd : ℕ
  pub events : ℕ
  pub revents : ℕ
  pub last_events : ℕ

-- Channel::Channel; `revents` is what the memory held.
abbrev pub new_channel : ℕ → ℕ → Channel
new_channel fd held = record { fd = fd; events = 0; revents = held; last_events = 0 }

abbrev pub epollin : ℕ
epollin = 0x1

abbrev pub epollpri : ℕ
epollpri = 0x2

abbrev pub epollout : ℕ
epollout = 0x4

abbrev pub epollerr : ℕ
epollerr = 0x8

abbrev pub epollhup : ℕ
epollhup = 0x10

abbrev pub epollrdhup : ℕ
epollrdhup = 0x2000

-- EqualAndUpdateLastEvents: the comparison, and the update.
abbrev pub events_are_last : Channel → Bool
events_are_last c = c.last_events == c.events

abbrev pub update_last_events : Channel → Channel
update_last_events c = record c { last_events = c.events }

-- Which of the handlers are set.
pub record HandlerSet : Type 0 where
  pub read_handler : Bool
  pub write_handler : Bool
  pub error_handler : Bool
  pub conn_handler : Bool

pub data Handler : Type 0 where
  reads writes errs conns : Handler

abbrev pub has_bit : ℕ → ℕ → Bool
has_bit revents bits = not (bit_and revents bits == 0)

-- handleRead, handleWrite, handleConn: the handler, where there is one.
abbrev pub called_if : Bool → Handler → List Handler
called_if true h = h ∷ []
called_if false h = []

-- The handlers that handleEvents calls, in their order.
unfoldable pub handlers_called : HandlerSet → ℕ → List Handler
handlers_called set revents =
    if has_bit revents epollhup && not (has_bit revents epollin)
    then []
    else if has_bit revents epollerr
    then called_if set.error_handler errs
    else (if has_bit revents (epollin + epollpri + epollrdhup)
        then called_if set.read_handler reads
        else [])
      ++ ((if has_bit revents epollout then called_if set.write_handler writes else [])
          ++ called_if set.conn_handler conns)
