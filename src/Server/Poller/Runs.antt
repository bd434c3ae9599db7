-- ===== src/Server/Poller/Runs.antt =====
-- The poller over any sequence of its operations.
use dog_server.Base.{set_at, ℕ, ◌≡◌, ◌⊎◌, refl, subst, Option, none, some, List, [], ◌∷◌, arith}
use dog_server.Server.Channel.{Channel}
use dog_server.Server.Poller.{Kernel, Poller, epoll_add, epoll_mod, epoll_del}
use dog_server.Server.Poller.Synced.{
  IsSyncedAt, IsSynced, AllSynced, update-IsSynced, epoll_add-AllSynced, epoll_mod-AllSynced,
  epoll_del-AllSynced,
}

-- addToPoller, updatePoller, removeFromPoller, and setEvents.
pub data PollerOp : Type 0 where
  adds mods dels : ℕ → PollerOp
  sets_events : ℕ → ℕ → PollerOp

module _ (kernel : Kernel) where
  open kernel use {State}

  abbrev pub set_events : ℕ → ℕ → Poller State → Poller State
  set_events c events p = record p {
    channels = set_at p.channels c (record (p.channels c) { events = events });
  }

  unfoldable pub step : PollerOp → Poller State → Option (Poller State)
  step (adds c) p = epoll_add kernel c p
  step (mods c) p = epoll_mod kernel c p
  step (dels c) p = epoll_del kernel c p
  step (sets_events c events) p = some (set_events c events p)

  abbrev and_then :
      Option (Poller State) → (Poller State → Option (Poller State)) → Option (Poller State)
  and_then none k = none
  and_then (some p) k = k p

  unfoldable pub run : List PollerOp → Poller State → Option (Poller State)
  run [] p = some p
  run (op ∷ ops) p = and_then (step op p) (run ops)

  -- A channel is modified only where no other stands under its descriptor.
  abbrev pub IsOwn : PollerOp → Poller State → Type 0
  IsOwn (mods c) p = (p.fd2chan (p.channels c).fd ≡ none) ⊎ (p.fd2chan (p.channels c).fd ≡ some c)
  IsOwn _ p = Unit

  abbrev pub Then : Option (Poller State) → (Poller State → Type 0) → Type 0
  Then none P = Unit
  Then (some p) P = P p

  unfoldable pub AllOwn : List PollerOp → Poller State → Type 0
  AllOwn [] p = Unit
  AllOwn (op ∷ ops) p = IsOwn op p × Then (step op p) (AllOwn ops)

  step-AllSynced :
      (op : PollerOp) (p : Poller State)
      → IsSynced kernel p
      → IsOwn op p
      → AllSynced kernel (step op p)
  unfolding step
  step-AllSynced (adds c) p h own = epoll_add-AllSynced kernel p h c
  step-AllSynced (mods c) p h own = epoll_mod-AllSynced kernel p h c own
  step-AllSynced (dels c) p h own = epoll_del-AllSynced kernel p h c
  step-AllSynced (sets_events c events) p h own = update-IsSynced kernel p c _ refl refl h

  and_then-AllSynced :
      (ops : List PollerOp) (o : Option (Poller State))
      → ((q : Poller State) → IsSynced kernel q → AllOwn ops q → AllSynced kernel (run ops q))
      → AllSynced kernel o
      → Then o (AllOwn ops)
      → AllSynced kernel (and_then o (run ops))
  and_then-AllSynced ops none k s t = tt
  and_then-AllSynced ops (some q) k s t = k q s t

  run-AllSynced :
      (ops : List PollerOp) (p : Poller State)
      → IsSynced kernel p
      → AllOwn ops p
      → AllSynced kernel (run ops p)
  unfolding run AllOwn
  run-AllSynced [] p h own = h
  run-AllSynced (op ∷ ops) p h own =
      and_then-AllSynced ops (step op p) (run-AllSynced ops) (step-AllSynced op p h own.0) own.1

  -- From a poller that agrees with the kernel, through any adding, modifying and removing of
  -- channels and setting of their events, with any answers of epoll_ctl, where no operation leaves
  -- the array and none modifies a channel while another stands under its descriptor: the kernel
  -- still watches each descriptor for exactly the last events of the channel that stands under it,
  -- so that leaving out epoll_ctl for equal events loses nothing.
  pub run-IsSynced :
      (ops : List PollerOp) (p q : Poller State)
      → IsSynced kernel p
      → AllOwn ops p
      → run ops p ≡ some q
      → IsSynced kernel q
  run-IsSynced ops p q h own e = subst (AllSynced kernel) e (run-AllSynced ops p h own)

-- No channel is in the array yet.
abbrev pub new_poller : {K : Type 0} → K → (ℕ → Channel) → Poller K
new_poller k channels = record { kernel = k; fd2chan = λ fd. none; channels = channels }

pub new_poller-IsSynced :
    (kernel : Kernel) (k : kernel.State) (channels : ℕ → Channel)
    → IsSynced kernel (new_poller k channels)
new_poller-IsSynced kernel k channels = unfold IsSyncedAt in λ fd c e. absurd (ground arith)
