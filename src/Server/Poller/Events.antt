-- ===== src/Server/Poller/Events.antt =====
-- What getEventsRequest gives.
use dog_server.Base.{
  ℕ, ◌<◌, ◌≡◌, ◌≢◌, refl, sym, ap, ◌∙◌, subst, false, Option, none, some, List, [], ◌∷◌, leb, All,
  arith,
}
use dog_server.Server.Channel.{Channel}
use dog_server.Server.Poller.{Kernel, Poller, maxfds, report, push, request, get_events_request}
use dog_server.Server.Poller.Synced.{
  set_at-same, set_at-other, IsSyncedAt, IsSynced, update-IsSynced,
}

-- The channels that stand under the reported descriptors.
abbrev pub add_channel : Option ℕ → List ℕ → List ℕ
add_channel none cs = cs
add_channel (some c) cs = c ∷ cs

abbrev pub reported : (ℕ → Option ℕ) → List (ℕ × ℕ) → List ℕ
reported fd2chan [] = []
reported fd2chan ((fd, revents) ∷ events) = add_channel (fd2chan fd) (reported fd2chan events)

abbrev pub InArray : List (ℕ × ℕ) → Type 0
InArray events = All (λ (e : ℕ × ℕ). e.0 < maxfds) events

-- No descriptor is reported twice.
abbrev pub Distinct : List (ℕ × ℕ) → Type 0
Distinct [] = Unit
Distinct ((fd, revents) ∷ events) = All (λ (e : ℕ × ℕ). e.0 ≢ fd) events × Distinct events

abbrev DeliveredTo : (ℕ → Channel) → ℕ → Option ℕ → Type 0
DeliveredTo channels revents none = Unit
DeliveredTo channels revents (some c) = ((channels c).revents ≡ revents) × ((channels c).events ≡ 0)

-- Each reported channel holds its own events, and asks for none.
abbrev pub Delivered : (ℕ → Channel) → (ℕ → Option ℕ) → List (ℕ × ℕ) → Type 0
Delivered channels fd2chan [] = Unit
Delivered channels fd2chan ((fd, revents) ∷ events) =
    DeliveredTo channels revents (fd2chan fd) × Delivered channels fd2chan events

module _ (kernel : Kernel) where
  open kernel use {State}

  abbrev report_at : Option ℕ → ℕ → Poller State → Poller State
  report_at none revents p = p
  report_at (some c) revents p = report kernel c revents p

  abbrev after : List (ℕ × ℕ) → Poller State → Poller State
  after [] p = p
  after ((fd, revents) ∷ events) p = after events (report_at (p.fd2chan fd) revents p)

  request-some :
      (o : Option ℕ) (revents : ℕ) (p : Poller State)
      (next : Poller State → Option (List ℕ × Poller State)) (cs : List ℕ) (p' : Poller State)
      → next (report_at o revents p) ≡ some (cs, p')
      → request kernel o revents p next ≡ some (add_channel o cs, p')
  request-some none revents p next cs p' h = h
  request-some (some c) revents p next cs p' h = ap (push kernel c) h

  report_at-fd2chan :
      (o : Option ℕ) (revents : ℕ) (p : Poller State) → (report_at o revents p).fd2chan ≡ p.fd2chan
  report_at-fd2chan none revents p = refl
  report_at-fd2chan (some c) revents p = refl

  get_events_request-after :
      (events : List (ℕ × ℕ)) (p : Poller State)
      → InArray events
      → get_events_request kernel events p ≡ some (reported p.fd2chan events, after events p)
  unfolding get_events_request
  get_events_request-after [] p h = refl
  get_events_request-after ((fd, revents) ∷ events) p h =
      let inside : leb maxfds fd ≡ false = ground (arith, h.0) in
      let q = report_at (p.fd2chan fd) revents p in
      let rest = get_events_request-after events q h.1 in
      rw inside (
        request-some (p.fd2chan fd) revents p (get_events_request kernel events) _ _ rest
        ∙ ap
            (λ (f : ℕ → Option ℕ).
              some (add_channel (p.fd2chan fd) (reported f events), after events q))
            (report_at-fd2chan (p.fd2chan fd) revents p))

  report_at-IsSynced :
      (o : Option ℕ) (revents : ℕ) (p : Poller State)
      → IsSynced kernel p
      → IsSynced kernel (report_at o revents p)
  report_at-IsSynced none revents p h = h
  report_at-IsSynced (some c) revents p h = update-IsSynced kernel p c _ refl refl h

  -- A channel whose descriptor is not reported is left alone.
  report_at-other :
      (o : Option ℕ) (revents fd other : ℕ) (p : Poller State) (c : ℕ)
      → IsSynced kernel p
      → p.fd2chan other ≡ o
      → other ≢ fd
      → p.fd2chan fd ≡ some c
      → (report_at o revents p).channels c ≡ p.channels c
  unfolding IsSyncedAt
  report_at-other none revents fd other p c h at apart e = refl
  report_at-other (some d) revents fd other p c h at apart e =
      set_at-other p.channels d _ c (λ same.
        apart (sym (h other d at).0 ∙ ap (λ (x : ℕ). (p.channels x).fd) (sym same) ∙ (h fd c e).0))

  after-other :
      (events : List (ℕ × ℕ)) (fd : ℕ) (p : Poller State) (c : ℕ)
      → IsSynced kernel p
      → All (λ (e : ℕ × ℕ). e.0 ≢ fd) events
      → p.fd2chan fd ≡ some c
      → (after events p).channels c ≡ p.channels c
  after-other [] fd p c h apart e = refl
  after-other ((other, revents) ∷ events) fd p c h apart e =
      let o = p.fd2chan other in
      let there = ap (λ (f : ℕ → Option ℕ). f fd) (report_at-fd2chan o revents p) ∙ e in
      after-other events fd (report_at o revents p) c (report_at-IsSynced o revents p h) apart.1
        there
      ∙ report_at-other o revents fd other p c h refl apart.0 e

  after-DeliveredTo :
      (o : Option ℕ) (events : List (ℕ × ℕ)) (fd revents : ℕ) (p : Poller State)
      → IsSynced kernel p
      → All (λ (e : ℕ × ℕ). e.0 ≢ fd) events
      → p.fd2chan fd ≡ o
      → DeliveredTo (after events (report_at o revents p)).channels revents o
  after-DeliveredTo none events fd revents p h apart at = tt
  after-DeliveredTo (some c) events fd revents p h apart at =
      let q = report kernel c revents p in
      let kept = after-other events fd q c (report_at-IsSynced (some c) revents p h) apart at in
      let now = kept ∙ set_at-same p.channels c _ in
      (ap (λ (x : Channel). x.revents) now, ap (λ (x : Channel). x.events) now)

  after-Delivered :
      (events : List (ℕ × ℕ)) (p : Poller State)
      → IsSynced kernel p
      → Distinct events
      → Delivered (after events p).channels p.fd2chan events
  after-Delivered [] p h apart = tt
  after-Delivered ((fd, revents) ∷ events) p h apart =
      let o = p.fd2chan fd in
      let q = report_at o revents p in
      let later = after-Delivered events q (report_at-IsSynced o revents p h) apart.1 in
      (
        after-DeliveredTo o events fd revents p h apart.0 refl,
        subst (λ (f : ℕ → Option ℕ). Delivered (after events q).channels f events)
            (report_at-fd2chan o revents p) later,
      )

  after-kept :
      (events : List (ℕ × ℕ)) (p : Poller State)
      → IsSynced kernel p
      → IsSynced kernel (after events p) × ((after events p).fd2chan ≡ p.fd2chan)
  after-kept [] p h = (h, refl)
  after-kept ((fd, revents) ∷ events) p h =
      let o = p.fd2chan fd in
      let (synced, same) =
        after-kept events (report_at o revents p) (report_at-IsSynced o revents p h) in
      (synced, same ∙ report_at-fd2chan o revents p)

  -- In a poller that agrees with the kernel, for reports within the array and on no descriptor
  -- twice: getEventsRequest gives exactly the channels that stand under the reported descriptors, in
  -- the order of the reports, each with the events reported for its own descriptor and none asked
  -- for, and the poller agrees with the kernel as before.
  pub get_events_request-Delivered :
      (events : List (ℕ × ℕ)) (p : Poller State)
      → IsSynced kernel p
      → InArray events
      → Distinct events
      → (q : Poller State) × (get_events_request kernel events p
          ≡ some (reported p.fd2chan events, q))
        × Delivered q.channels p.fd2chan events
        × IsSynced kernel q
        × (q.fd2chan ≡ p.fd2chan)
  get_events_request-Delivered events p h inside apart =
      let (synced, same) = after-kept events p h in
      (
        after events p,
        get_events_request-after events p inside,
        after-Delivered events p h apart,
        synced,
        same,
      )
