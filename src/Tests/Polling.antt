-- ===== src/Tests/Polling.antt =====
-- The poller over a kernel that watches what it is told.
use dog_server.Base.{
  set_at, ℕ, ◌≡◌, ◌≢◌, refl, inl, inr, Bool, Bool-cases, true, false, Option, none, some, List, [],
  ◌∷◌, ◌++◌, if◌then◌else◌, arith,
}
use dog_server.Server.Channel.{Channel, new_channel, HandlerSet}
use dog_server.Server.Poller.{
  polled, poll, Ctl, ctl_add, ctl_mod, ctl_del, Kernel, Poller, touch, call_ctl, epoll_add,
  epoll_mod,
}
use dog_server.Server.Poller.Synced.{IsSynced, set_at-same, set_at-other}
use dog_server.Server.Poller.Events.{Delivered}
use dog_server.Server.Poller.Polls.{poll-Delivered}
use dog_server.Server.Poller.Runs.{
  PollerOp, adds, mods, sets_events, step, run, AllOwn, run-IsSynced, set_events, new_poller,
  new_poller-IsSynced,
}

abbrev admits : Ctl → Option ℕ → Bool
admits ctl_add none = true
admits ctl_add (some events) = false
admits ctl_mod none = false
admits ctl_mod (some events) = true
admits ctl_del none = false
admits ctl_del (some events) = true

abbrev watched : Ctl → ℕ → Option ℕ
watched ctl_add events = some events
watched ctl_mod events = some events
watched ctl_del events = none

abbrev watch : (ℕ → Option ℕ) → Ctl → ℕ → ℕ → ℕ → Option ℕ
watch s op fd events = if admits op (s fd) then set_at s fd (watched op events) else s

watch-done :
    (s : ℕ → Option ℕ) (op : Ctl) (fd events : ℕ)
    → admits op (s fd) ≡ true
    → watch s op fd events fd ≡ watched op events
watch-done s op fd events e = rw e (set_at-same s fd (watched op events))

watch-other :
    (s : ℕ → Option ℕ) (op : Ctl) (fd events other : ℕ)
    → other ≢ fd
    → watch s op fd events other ≡ s other
watch-other s op fd events other h = elim (Bool-cases (admits op (s fd))) [
  | inl yes_it_does ↦ rw yes_it_does (set_at-other s fd (watched op events) other h)
  | inr refuses ↦ rw refuses refl
]

abbrev watching : Kernel
watching = record {
  State = ℕ → Option ℕ;
  interest = λ s fd. s fd;
  epoll_ctl = λ s op fd events. (admits op (s fd), watch s op fd events);
  ctl-add = λ s fd events e. watch-done s ctl_add fd events e;
  ctl-mod = λ s fd events e. watch-done s ctl_mod fd events e;
  ctl-other = λ s op fd events other h. watch-other s op fd events other h;
}

-- Channel `c` is for descriptor `c`.
abbrev own_channels : ℕ → Channel
own_channels c = new_channel c 0

abbrev empty : Poller (ℕ → Option ℕ)
empty = new_poller {K = ℕ → Option ℕ} (λ fd. none) own_channels

abbrev some_ops : List PollerOp
some_ops = sets_events 5 1 ∷ adds 5 ∷ sets_events 5 4 ∷ mods 5 ∷ mods 5 ∷ []

abbrev added : Poller (ℕ → Option ℕ)
added =
    let p = call_ctl watching ctl_add 5 1 (touch watching 5 (set_events watching 5 1 empty)) in
    record p { fd2chan = set_at p.fd2chan 5 (some 5) }

abbrev modified : Poller (ℕ → Option ℕ)
modified =
    touch watching 5
      (call_ctl watching ctl_mod 5 4 (touch watching 5 (set_events watching 5 4 added)))

run-IsSynced_example : IsSynced watching modified
run-IsSynced_example =
    run-IsSynced watching some_ops empty modified
      (new_poller-IsSynced watching (λ fd. none) own_channels)
      (unfold AllOwn step epoll_add epoll_mod in (tt, (tt, (tt, (inr refl, (inr refl, tt))))))
      (unfold run step epoll_add epoll_mod in refl)

modified-IsSynced : IsSynced watching modified
modified-IsSynced =
    run-IsSynced watching some_ops empty modified
      (new_poller-IsSynced watching (λ fd. none) own_channels)
      (unfold AllOwn step epoll_add epoll_mod in (tt, (tt, (tt, (inr refl, (inr refl, tt))))))
      (unfold run step epoll_add epoll_mod in refl)

-- Descriptor 7 has no channel.
abbrev some_reports : List (ℕ × ℕ)
some_reports = (7, 1) ∷ (5, 4) ∷ []

poll-Delivered_example :
    (q : Poller (ℕ → Option ℕ)) × (poll watching
        ((((7, 1) ∷ []) ∷ []) ++ (some_reports ∷ []))
        modified
      ≡ polled (5 ∷ []) q)
    × Delivered q.channels modified.fd2chan some_reports
    × IsSynced watching q
    × (q.fd2chan ≡ modified.fd2chan)
poll-Delivered_example =
    poll-Delivered watching (((7, 1) ∷ []) ∷ []) some_reports [] modified 5 [] modified-IsSynced
      ((((omega arith, tt), (tt, tt)), refl), tt) (omega arith, omega arith) refl

-- A connection sets the handlers for reading and for itself.
abbrev connection_handlers : HandlerSet
connection_handlers = record {
  read_handler = true;
  write_handler = false;
  error_handler = false;
  conn_handler = true;
}
