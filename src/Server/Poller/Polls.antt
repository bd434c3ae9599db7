-- ===== src/Server/Poller/Polls.antt =====
-- What poll returns.
use dog_server.Base.{ℕ, ◌≡◌, sym, ap, ◌∙◌, subst, some, List, [], ◌∷◌, ◌++◌, All, Option}
use dog_server.Server.Poller.{Kernel, Poller, polled, or_again, poll}
use dog_server.Server.Poller.Synced.{IsSynced}
use dog_server.Server.Poller.Events.{
  reported, Delivered, InArray, Distinct, get_events_request-Delivered,
}

-- Reports within the array, on no descriptor twice.
abbrev pub IsReport : List (ℕ × ℕ) → Type 0
IsReport events = InArray events × Distinct events

-- A report on descriptors without a channel.
abbrev pub IsStale : (ℕ → Option ℕ) → List (ℕ × ℕ) → Type 0
IsStale fd2chan events = IsReport events × (reported fd2chan events ≡ [])

module _ (kernel : Kernel) where
  open kernel use {State}

  -- In a poller that agrees with the kernel: poll goes on over any reports on descriptors without a
  -- channel, and returns at the first report with one: exactly the channels under the reported
  -- descriptors, in the order of the report, each with the events reported for its own descriptor
  -- and none asked for, and the poller agrees with the kernel as before.
  pub poll-Delivered :
      (stale : List (List (ℕ × ℕ))) (events : List (ℕ × ℕ)) (more : List (List (ℕ × ℕ)))
      (p : Poller State) (c : ℕ) (cs : List ℕ)
      → IsSynced kernel p
      → All (IsStale p.fd2chan) stale
      → IsReport events
      → reported p.fd2chan events ≡ c ∷ cs
      → (q : Poller State) × (poll kernel (stale ++ (events ∷ more)) p ≡ polled (c ∷ cs) q)
        × Delivered q.channels p.fd2chan events
        × IsSynced kernel q
        × (q.fd2chan ≡ p.fd2chan)
  unfolding poll
  poll-Delivered [] events more p c cs h s r e =
      let (q, run, delivered, synced, same) =
        get_events_request-Delivered kernel events p h r.0 r.1 in
      (
        q,
        ap (λ o. or_again kernel o (poll kernel more)) (run ∙ ap (λ (t : List ℕ). some (t, q)) e),
        delivered,
        synced,
        same,
      )
  poll-Delivered (old ∷ stale) events more p c cs h s r e =
      let (q, run, _, synced, same) = get_events_request-Delivered kernel old p h s.0.0.0 s.0.0.1 in
      let stale' = subst (λ (f : ℕ → Option ℕ). All (IsStale f) stale) (sym same) s.1 in
      let again = ap (λ (f : ℕ → Option ℕ). reported f events) same ∙ e in
      let (q', run', delivered, synced', same') =
        poll-Delivered stale events more q c cs synced stale' r again in
      (
        q',
        ap (λ o. or_again kernel o (poll kernel (stale ++ (events ∷ more))))
              (run ∙ ap (λ (t : List ℕ). some (t, q)) s.0.1)
            ∙ run',
        subst (λ (f : ℕ → Option ℕ). Delivered q'.channels f events) same delivered,
        synced',
        same' ∙ same,
      )
