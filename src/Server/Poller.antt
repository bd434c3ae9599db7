-- ===== src/Server/Poller.antt =====
-- Epoll (src/cur-epoll.cc): the channels by their descriptors, and the calls of epoll_ctl.
pub mod Synced
pub mod Events
pub mod Polls
pub mod Runs
use dog_server.Base.{
  set_at, ℕ, ◌≡◌, ◌≢◌, Bool, true, false, Option, none, some, List, [], ◌∷◌, leb, ◌==◌,
  if◌then◌else◌,
}
use dog_server.Server.Channel.{Channel, events_are_last, update_last_events}

pub data Ctl : Type 0 where
  ctl_add ctl_mod ctl_del : Ctl

-- What one epoll instance of the kernel watches for each descriptor, and what epoll_ctl does to it.
pub record Kernel : Type 1 where
  pub State : Type 0
  pub interest : State → ℕ → Option ℕ
  pub epoll_ctl : State → Ctl → ℕ → ℕ → Bool × State
  pub ctl-add :
      (s : State) (fd events : ℕ)
      → (epoll_ctl s ctl_add fd events).0 ≡ true
      → interest (epoll_ctl s ctl_add fd events).1 fd ≡ some events
  pub ctl-mod :
      (s : State) (fd events : ℕ)
      → (epoll_ctl s ctl_mod fd events).0 ≡ true
      → interest (epoll_ctl s ctl_mod fd events).1 fd ≡ some events
  -- A call is about its descriptor only.
  pub ctl-other :
      (s : State) (op : Ctl) (fd events other : ℕ)
      → other ≢ fd
      → interest (epoll_ctl s op fd events).1 other ≡ interest s other

-- A channel is known by a number, as the object that the shared pointers point to.
pub record Poller (K : Type 0) : Type 0 where
  pub kernel : K
  pub fd2chan : ℕ → Option ℕ
  pub channels : ℕ → Channel

abbrev pub maxfds : ℕ
maxfds = 100000

module _ (kernel : Kernel) where
  open kernel use {State, epoll_ctl}

  -- fd2chan_[fd] = chan; `none` is an index behind the array.
  abbrev pub store : ℕ → Option ℕ → Poller State → Option (Poller State)
  store fd chan p =
      if leb maxfds fd then none else some (record p { fd2chan = set_at p.fd2chan fd chan })

  abbrev pub touch : ℕ → Poller State → Poller State
  touch c p = record p { channels = set_at p.channels c (update_last_events (p.channels c)) }

  abbrev pub call_ctl : Ctl → ℕ → ℕ → Poller State → Poller State
  call_ctl op fd events p = record p { kernel = (epoll_ctl p.kernel op fd events).1 }

  unfoldable pub epoll_add : ℕ → Poller State → Option (Poller State)
  epoll_add c p =
      let fd = (p.channels c).fd in
      let events = (p.channels c).events in
      let called = call_ctl ctl_add fd events (touch c p) in
      if (epoll_ctl p.kernel ctl_add fd events).0
      then store fd (some c) called
      else store fd none called

  unfoldable pub epoll_mod : ℕ → Poller State → Option (Poller State)
  epoll_mod c p =
      let fd = (p.channels c).fd in
      let events = (p.channels c).events in
      let called = call_ctl ctl_mod fd events (touch c p) in
      if events_are_last (p.channels c)
      then some (touch c p)
      else if (epoll_ctl p.kernel ctl_mod fd events).0
      then some called
      else store fd none called

  unfoldable pub epoll_del : ℕ → Poller State → Option (Poller State)
  epoll_del c p =
      let fd = (p.channels c).fd in store fd none (call_ctl ctl_del fd (p.channels c).last_events p)

  abbrev pub report : ℕ → ℕ → Poller State → Poller State
  report c revents p = record p {
    channels = set_at p.channels c (record (p.channels c) { revents = revents; events = 0 });
  }

  abbrev pub push : ℕ → Option (List ℕ × Poller State) → Option (List ℕ × Poller State)
  push c none = none
  push c (some (cs, p)) = some (c ∷ cs, p)

  abbrev pub request :
      Option ℕ
      → ℕ
      → Poller State
      → (Poller State → Option (List ℕ × Poller State))
      → Option (List ℕ × Poller State)
  request none revents p next = next p
  request (some c) revents p next = push c (next (report c revents p))

  -- getEventsRequest on the descriptors and events that epoll_wait gives.
  unfoldable pub get_events_request : List (ℕ × ℕ) → Poller State → Option (List ℕ × Poller State)
  get_events_request [] p = some ([], p)
  get_events_request ((fd, revents) ∷ events) p =
      let next = request (p.fd2chan fd) revents p (get_events_request events) in
      if leb maxfds fd then none else next

  -- How poll ends: the channels to handle; a descriptor behind the array; or epoll_wait goes on.
  pub data Polled : Type 0 where
    polled : List ℕ → Poller State → Polled
    fault : Polled
    waits : Polled

  abbrev pub or_again : Option (List ℕ × Poller State) → (Poller State → Polled) → Polled
  or_again none next = fault
  or_again (some ([], p)) next = next p
  or_again (some (c ∷ cs, p)) next = polled (c ∷ cs) p

  -- poll, on what epoll_wait gives call after call; an error gives no events.
  unfoldable pub poll : List (List (ℕ × ℕ)) → Poller State → Polled
  poll [] p = waits
  poll (events ∷ more) p = or_again (get_events_request events p) (poll more)
