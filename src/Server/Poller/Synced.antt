-- ===== src/Server/Poller/Synced.antt =====
-- The poller and the kernel agree.
use dog_server.Base.{
  set_at, ℕ, ◌≡◌, ◌≢◌, ◌⊎◌, inl, inr, refl, sym, ap, ◌∙◌, subst, Bool-cases, true, false, Option,
  none, some, leb, ◌==◌, arith,
}
use dog_server.Server.Channel.{Channel, events_are_last, update_last_events}
use dog_server.Server.Poller.{
  Ctl, ctl_add, ctl_mod, ctl_del, Kernel, Poller, maxfds, store, touch, call_ctl, epoll_add,
  epoll_mod, epoll_del,
}

module _ {ℓ} {A : Type ℓ} where
  pub set_at-same : (f : ℕ → A) (k : ℕ) (v : A) → set_at f k v k ≡ v
  set_at-same f k v = let e : (k == k) ≡ true = ground arith in rw e refl

  pub set_at-other : (f : ℕ → A) (k : ℕ) (v : A) (x : ℕ) → x ≢ k → set_at f k v x ≡ f x
  set_at-other f k v x h = let e : (x == k) ≡ false = ground arith in rw e refl

  -- A member that the new value has in common with the old one is kept everywhere.
  pub set_at-member {κ} :
      {B : Type κ} (g : A → B) (f : ℕ → A) (k : ℕ) (v : A) (x : ℕ)
      → g v ≡ g (f k)
      → g (set_at f k v x) ≡ g (f x)
  set_at-member g f k v x e = elim (Bool-cases (x == k)) [
    | inl same ↦ let at : x ≡ k = ground arith in rw same (e ∙ ap (λ (y : ℕ). g (f y)) (sym at))
    | inr apart ↦ rw apart refl
  ]

module _ (kernel : Kernel) where
  open kernel use {State, interest, epoll_ctl, ctl-add, ctl-mod, ctl-other}

  -- The channel that stands under a descriptor is the descriptor's, and the kernel watches the
  -- descriptor for the channel's last events.
  unfoldable pub IsSyncedAt : Poller State → ℕ → Type 0
  IsSyncedAt p fd =
      (c : ℕ)
      → p.fd2chan fd ≡ some c
      → ((p.channels c).fd ≡ fd) × (interest p.kernel fd ≡ some (p.channels c).last_events)

  abbrev pub IsSynced : Poller State → Type 0
  IsSynced p = (fd : ℕ) → IsSyncedAt p fd

  abbrev pub AllSynced : Option (Poller State) → Type 0
  AllSynced none = Unit
  AllSynced (some p) = IsSynced p

  -- The place of one descriptor is written over.
  set_at-IsSynced :
      (q : Poller State) (fd : ℕ) (chan : Option ℕ)
      → ((other : ℕ) → other ≢ fd → IsSyncedAt q other)
      → IsSyncedAt (record q { fd2chan = set_at q.fd2chan fd chan }) fd
      → IsSynced (record q { fd2chan = set_at q.fd2chan fd chan })
  unfolding IsSyncedAt
  set_at-IsSynced q fd chan others here other d e = elim (Bool-cases (other == fd)) [
    | inl same ↦
        let at : other ≡ fd = ground arith in
        let (owner, watched) = here d (ap (set_at q.fd2chan fd chan) (sym at) ∙ e) in
        (owner ∙ sym at, ap (interest q.kernel) at ∙ watched)
    | inr apart ↦
        let away : other ≢ fd = ground arith in
        others other away d (sym (set_at-other q.fd2chan fd chan other away) ∙ e)
  ]

  store-AllSynced :
      (q : Poller State) (fd : ℕ) (chan : Option ℕ)
      → ((other : ℕ) → other ≢ fd → IsSyncedAt q other)
      → IsSyncedAt (record q { fd2chan = set_at q.fd2chan fd chan }) fd
      → AllSynced (store kernel fd chan q)
  store-AllSynced q fd chan others here = elim (Bool-cases (leb maxfds fd)) [
    | inl large ↦ rw large tt
    | inr small ↦ rw small (set_at-IsSynced q fd chan others here)
  ]

  cleared :
      (q : Poller State) (fd : ℕ) → IsSyncedAt (record q { fd2chan = set_at q.fd2chan fd none }) fd
  unfolding IsSyncedAt
  cleared q fd d e =
      let wrong : none ≡ some d = sym (set_at-same q.fd2chan fd none) ∙ e in absurd (ground arith)

  -- A channel changes that keeps its descriptor and its last events.
  pub update-IsSynced :
      (p : Poller State) (c : ℕ) (v : Channel)
      → v.fd ≡ (p.channels c).fd
      → v.last_events ≡ (p.channels c).last_events
      → IsSynced p
      → IsSynced (record p { channels = set_at p.channels c v })
  unfolding IsSyncedAt
  update-IsSynced p c v same_fd same_events synced other d e =
      let (owner, watched) = synced other d e in
      (
        set_at-member (λ (x : Channel). x.fd) p.channels c v d same_fd ∙ owner,
        watched
            ∙ ap some
                (sym (set_at-member (λ (x : Channel). x.last_events) p.channels c v d same_events)),
      )

  module _ (p : Poller State) (synced : IsSynced p) (c : ℕ) where
    abbrev fd : ℕ
    fd = (p.channels c).fd

    abbrev events : ℕ
    events = (p.channels c).events

    abbrev touched : Channel
    touched = update_last_events (p.channels c)

    -- After epoll_ctl for the channel `c` the other descriptors are as they were.
    other-IsSyncedAt :
        (op : Ctl) (ev other : ℕ)
        → other ≢ fd
        → IsSyncedAt (call_ctl kernel op fd ev (touch kernel c p)) other
    unfolding IsSyncedAt
    other-IsSyncedAt op ev other h d e =
        let (owner, watched) = synced other d e in
        let apart : d ≢ c = λ same. h (sym owner ∙ ap (λ (x : ℕ). (p.channels x).fd) same) in
        let same = set_at-other p.channels c touched d apart in
        (
          ap (λ (x : Channel). x.fd) same ∙ owner,
          ctl-other p.kernel op fd ev other h
              ∙ watched
              ∙ ap (λ (x : Channel). some x.last_events) (sym same),
        )

    -- Where the kernel watches for the channel's events, the channel may stand there.
    channel-IsSyncedAt :
        (q : Poller State)
        → q.channels ≡ set_at p.channels c touched
        → interest q.kernel fd ≡ some events
        → q.fd2chan fd ≡ some c
        → IsSyncedAt q fd
    unfolding IsSyncedAt
    channel-IsSyncedAt q same watched there d e =
        let its : some c ≡ some d = sym there ∙ e in
        let it : c ≡ d = ground arith in
        let now : q.channels d ≡ touched =
          ap (q.channels) (sym it)
          ∙ ap (λ (f : ℕ → Channel). f c) same
          ∙ set_at-same p.channels c touched in
        (
          ap (λ (x : Channel). x.fd) now,
          watched ∙ ap (λ (x : Channel). some x.last_events) (sym now),
        )

    pub epoll_add-AllSynced : AllSynced (epoll_add kernel c p)
    unfolding epoll_add
    epoll_add-AllSynced = elim (Bool-cases (epoll_ctl p.kernel ctl_add fd events).0) [
      | inl ok ↦ rw ok (
          store-AllSynced _ fd (some c) (other-IsSyncedAt ctl_add events) (
            channel-IsSyncedAt _ refl (ctl-add p.kernel fd events ok)
              (set_at-same p.fd2chan fd (some c))))
      | inr failed ↦
          rw failed (store-AllSynced _ fd none (other-IsSyncedAt ctl_add events) (cleared _ fd))
    ]

    touch-IsSynced : (p.channels c).last_events ≡ events → IsSynced (touch kernel c p)
    touch-IsSynced same = update-IsSynced p c touched refl (sym same) synced

    mod-IsSyncedAt :
        (q : Poller State)
        → q.channels ≡ set_at p.channels c touched
        → interest q.kernel fd ≡ some events
        → q.fd2chan fd ≡ p.fd2chan fd
        → (p.fd2chan fd ≡ none) ⊎ (p.fd2chan fd ≡ some c)
        → IsSyncedAt q fd
    mod-IsSyncedAt q same watched kept (inr there) =
        channel-IsSyncedAt q same watched (kept ∙ there)
    mod-IsSyncedAt q same watched kept (inl empty) =
        unfold IsSyncedAt in
        λ d e. let wrong : none ≡ some d = sym empty ∙ sym kept ∙ e in absurd (ground arith)

    at_all :
        (q : Poller State)
        → ((other : ℕ) → other ≢ fd → IsSyncedAt q other)
        → IsSyncedAt q fd
        → IsSynced q
    at_all q others here other = elim (Bool-cases (other == fd)) [
      | inl same ↦ let at : fd ≡ other = ground arith in subst (IsSyncedAt q) at here
      | inr apart ↦ others other (ground arith)
    ]

    pub epoll_mod-AllSynced :
        (p.fd2chan fd ≡ none) ⊎ (p.fd2chan fd ≡ some c) → AllSynced (epoll_mod kernel c p)
    unfolding epoll_mod
    epoll_mod-AllSynced own = elim (Bool-cases (events_are_last (p.channels c))) [
      | inl same ↦ rw same (touch-IsSynced (ground arith))
      | inr new ↦ elim (Bool-cases (epoll_ctl p.kernel ctl_mod fd events).0) [
        | inl ok ↦
            rw (new, ok)
              (at_all _ (other-IsSyncedAt ctl_mod events)
                (mod-IsSyncedAt _ refl (ctl-mod p.kernel fd events ok) refl own))
        | inr failed ↦
            rw (new, failed)
              (store-AllSynced _ fd none (other-IsSyncedAt ctl_mod events) (cleared _ fd))
      ]
    ]

    pub epoll_del-AllSynced : AllSynced (epoll_del kernel c p)
    unfolding epoll_del
    epoll_del-AllSynced =
        store-AllSynced _ fd none
          (λ other h.
            unfold IsSyncedAt in
            λ d e.
              let (owner, watched) = synced other d e in
              (owner, ctl-other p.kernel ctl_del fd _ other h ∙ watched))
          (cleared _ fd)
