-- ===== src/Client/Link/Ready.antt =====
-- The link when the server answers after a while.
use dog_server.Base.{
  ℕ, zero, suc, ◌+◌, ◌≤◌, ◌<◌, ◌≡◌, refl, ap, ◌∙◌, true, false, Bool, List, le→not_ltb, lt→ltb,
  length, c_str_lem, IsWord-NoZero, arith,
}
use dog_server.Client.Keys.{build_shake_key}
use dog_server.Client.Http.{build_http_head}
use dog_server.Client.Link.{
  connect_timeout, respond_timeout, Recv, nothing, accepts, ignores, reply_round, linked,
  respond_loop, connected, connect_loop, request_and_wait, client_link_to_server,
}
use dog_server.Client.Link.Accept.{build_shake_key-IsWord}

-- The calls from `start` on give `first` `wait` times.
abbrev pub Waits {ℓ} : {A : Type ℓ} → A → (ℕ → A) → ℕ → ℕ → Type ℓ
Waits first calls start zero = Unit
Waits first calls start (suc wait) = (calls start ≡ first) × Waits first calls (start + 1) wait

connect_loop-connected :
    (connects : ℕ → Bool) (wait time_out fuel : ℕ)
    → Waits false connects time_out wait
    → connects (time_out + wait) ≡ true
    → time_out + wait ≤ connect_timeout
    → wait < fuel
    → connect_loop connects time_out fuel ≡ connected (time_out + wait)
unfolding connect_loop
connect_loop-connected connects wait time_out zero h ready l enough = absurd (omega arith)
connect_loop-connected connects zero time_out (suc fuel) h ready l enough =
    let same : time_out + 0 ≡ time_out = omega arith in
    let now : connects time_out ≡ true = rw same at ready in rw now (ap connected (omega arith))
connect_loop-connected connects (suc wait) time_out (suc fuel) h ready l enough =
    let early = le→not_ltb connect_timeout (time_out + 1) (omega arith) in
    let same : time_out + suc wait ≡ time_out + 1 + wait = omega arith in
    let later : connects (time_out + 1 + wait) ≡ true = rw same at ready in
    rw (h.0, early)
      (connect_loop-connected connects wait (time_out + 1) fuel h.1 later (omega arith)
          (omega arith)
        ∙ ap connected (omega arith))

reply_round-nothing : (shake_key : List ℕ) → reply_round shake_key nothing ≡ ignores
unfolding reply_round
reply_round-nothing shake_key = refl

respond_loop-linked :
    (recvs : ℕ → Recv) (shake_key : List ℕ) (requests wait time_out fuel : ℕ)
    → Waits nothing recvs time_out wait
    → reply_round shake_key (recvs (time_out + wait)) ≡ accepts
    → time_out + wait ≤ respond_timeout
    → wait < fuel
    → respond_loop recvs shake_key requests time_out fuel ≡ linked requests
unfolding respond_loop
respond_loop-linked recvs shake_key requests wait time_out zero h ready l enough =
    absurd (omega arith)
respond_loop-linked recvs shake_key requests zero time_out (suc fuel) h ready l enough =
    let same : time_out + 0 ≡ time_out = omega arith in
    let now : reply_round shake_key (recvs time_out) ≡ accepts = rw same at ready in rw now refl
respond_loop-linked recvs shake_key requests (suc wait) time_out (suc fuel) h ready l enough =
    let early = le→not_ltb respond_timeout (time_out + 1) (omega arith) in
    let same : time_out + suc wait ≡ time_out + 1 + wait = omega arith in
    let later : reply_round shake_key (recvs (time_out + 1 + wait)) ≡ accepts = rw same at ready in
    rw (h.0, early, reply_round-nothing shake_key)
      (respond_loop-linked recvs shake_key requests wait (time_out + 1) fuel h.1 later (omega arith)
        (omega arith))

-- The client whose connect succeeds after `tries` failures and whose recv gives, after `wait` calls
-- without data, a reply that the round accepts, both in time, and whose request fits its buffer:
-- it returns the handle after one request.
pub client_link_to_server-linked :
    (connects : ℕ → Bool) (recvs : ℕ → Recv) (rand : ℕ → ℕ) (ip : List ℕ) (port : ℕ)
    (interface_path : List ℕ) (fuel tries wait : ℕ)
    → Waits false connects 0 tries
    → connects tries ≡ true
    → tries ≤ connect_timeout
    → Waits nothing recvs tries wait
    → reply_round (build_shake_key rand) (recvs (tries + wait)) ≡ accepts
    → tries + wait ≤ respond_timeout
    → tries + wait < fuel
    → length (build_http_head ip port interface_path (build_shake_key rand)) < 512
    → client_link_to_server connects recvs rand ip port interface_path fuel ≡ linked 1
unfolding client_link_to_server request_and_wait
client_link_to_server-linked connects recvs rand ip port interface_path fuel tries wait c ready t r
      answer l enough fits =
    let key = build_shake_key rand in
    let zero_add : 0 + tries ≡ tries = omega arith in
    let now : connects (0 + tries) ≡ true = ap connects zero_add ∙ ready in
    let on =
      connect_loop-connected connects tries 0 fuel c now (omega arith) (omega arith)
      ∙ ap connected zero_add in
    let same = c_str_lem key (IsWord-NoZero key (build_shake_key-IsWord rand)) in
    let room = lt→ltb (length (build_http_head ip port interface_path key)) 512 fits in
    rw (on, same, room) (respond_loop-linked recvs key 1 wait tries fuel r answer l (omega arith))
