-- ===== src/Client/Link/Time.antt =====
-- The link ends, and in time.
use dog_server.Base.{
  ℕ, zero, suc, ◌+◌, ◌-◌, ◌≤◌, ◌<◌, ◌≡◌, ◌⊎◌, inl, inr, Bool, Bool-cases, List, ltb, if◌then◌else◌,
  length, c_str, arith,
}
use dog_server.Client.Keys.{build_shake_key}
use dog_server.Client.Http.{build_http_head}
use dog_server.Client.Link.{
  connect_timeout, respond_timeout, Recv, Round, accepts, resends, ignores, faults, reply_round,
  Link, linked, timed_out, fault, running, after_reply, respond_loop, Connect, connected, refused,
  waiting, connect_loop, request_and_wait, after_connect, client_link_to_server,
}

-- The request is sent at most `bound` times, a failure is at the time-out `limit`, and the loop ends.
abbrev pub EndsBy : ℕ → ℕ → Link → Type 0
EndsBy bound limit (linked requests) = requests ≤ bound
EndsBy bound limit (timed_out t) = (t ≡ limit) ⊎ (t ≡ connect_timeout + 1)
EndsBy bound limit fault = Unit
EndsBy bound limit running = ⊥

after_reply-EndsBy :
    (r : Round) (bound limit requests : ℕ) (next again : Link)
    → requests ≤ bound
    → EndsBy bound limit next
    → EndsBy bound limit again
    → EndsBy bound limit (after_reply r requests next again)
after_reply-EndsBy accepts bound limit requests next again h n a = h
after_reply-EndsBy resends bound limit requests next again h n a = a
after_reply-EndsBy ignores bound limit requests next again h n a = n
after_reply-EndsBy faults bound limit requests next again h n a = tt

module _ (recvs : ℕ → Recv) (shake_key : List ℕ) where
  respond_loop-EndsBy :
      (fuel requests time_out bound : ℕ)
      → time_out ≤ respond_timeout
      → respond_timeout + 1 ≤ time_out + fuel
      → requests + (respond_timeout - time_out) ≤ bound
      → EndsBy bound (respond_timeout + 1) (respond_loop recvs shake_key requests time_out fuel)
  unfolding respond_loop
  respond_loop-EndsBy zero requests time_out bound l enough b = absurd (omega arith)
  respond_loop-EndsBy (suc fuel) requests time_out bound l enough b =
      let late = ltb respond_timeout (time_out + 1) in
      let Ends : Link → Type 0 = EndsBy bound (respond_timeout + 1) in
      let guarded : (more : Link)
          → ((time_out < respond_timeout) → Ends more)
          → Ends (if late then timed_out (time_out + 1) else more) =
        λ more k. elim (Bool-cases late) [
          | inl e ↦ rw e (inl (ground arith))
          | inr e ↦ rw e (k (ground arith))
        ] in
      after_reply-EndsBy (reply_round shake_key (recvs time_out)) bound (respond_timeout + 1)
        requests _ _ (omega arith)
        (guarded _ (λ lt.
          respond_loop-EndsBy fuel requests (time_out + 1) bound (omega arith) (omega arith)
            (omega arith)))
        (guarded _ (λ lt.
          respond_loop-EndsBy fuel (requests + 1) (time_out + 1) bound (omega arith) (omega arith)
            (omega arith)))

abbrev InTime : Connect → Type 0
InTime (connected time_out) = time_out ≤ connect_timeout
InTime (refused time_out) = time_out ≡ connect_timeout + 1
InTime waiting = ⊥

connect_loop-InTime :
    (connects : ℕ → Bool) (fuel time_out : ℕ)
    → time_out ≤ connect_timeout
    → connect_timeout + 1 ≤ time_out + fuel
    → InTime (connect_loop connects time_out fuel)
unfolding connect_loop
connect_loop-InTime connects zero time_out l enough = absurd (omega arith)
connect_loop-InTime connects (suc fuel) time_out l enough = elim (Bool-cases (connects time_out)) [
  | inl e ↦ rw e l
  | inr e ↦ elim (Bool-cases (ltb connect_timeout (time_out + 1))) [
    | inl late ↦ rw (e, late) (ground arith)
    | inr early ↦
        rw (e, early)
          (connect_loop-InTime connects fuel (time_out + 1) (ground arith) (omega arith))
  ]
]

after_connect-EndsBy :
    (c : Connect) (next : ℕ → Link)
    → InTime c
    → ((t : ℕ) → t ≤ connect_timeout → EndsBy 2001 (respond_timeout + 1) (next t))
    → EndsBy 2001 (respond_timeout + 1) (after_connect c next)
after_connect-EndsBy (connected t) next h k = k t h
after_connect-EndsBy (refused t) next h k = inr h
after_connect-EndsBy waiting next h k = h

-- Whatever connect and recv return, call by call, webSocket_clientLinkToServer ends: 2001 rounds
-- are fuel enough. It returns the handle after at most 2001 copies of the request, or it returns
-- -1001 from the connecting loop or -2001 from the waiting one, or it leaves a buffer.
pub client_link_to_server-EndsBy :
    (connects : ℕ → Bool) (recvs : ℕ → Recv) (rand : ℕ → ℕ) (ip : List ℕ) (port : ℕ)
    (interface_path : List ℕ) (fuel : ℕ)
    → 2001 ≤ fuel
    → EndsBy 2001 2001 (client_link_to_server connects recvs rand ip port interface_path fuel)
unfolding client_link_to_server request_and_wait
client_link_to_server-EndsBy connects recvs rand ip port interface_path fuel enough =
    let shake_key = build_shake_key rand in
    let head = build_http_head ip port interface_path (c_str shake_key) in
    after_connect-EndsBy (connect_loop connects 0 fuel) _
      (connect_loop-InTime connects fuel 0 (omega arith) (omega arith))
      (λ t h. elim (Bool-cases (ltb (length head) 512)) [
        | inl e ↦ rw e (
            respond_loop-EndsBy recvs shake_key fuel 1 t 2001 (omega arith) (omega arith)
              (omega arith))
        | inr e ↦ rw e tt
      ])
