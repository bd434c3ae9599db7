-- ===== src/Client/Program/Senders/Finished.antt =====
-- When main leaves its loop, every file has been sent.
use dog_server.Base.{ℕ, ◌≡◌, ◌≢◌, ◌<◌, inl, inr, true, false, arith}
use dog_server.Client.Program.Senders.{Senders, main_loops, new_senders, Reaches, here, later}
use dog_server.Client.Program.Senders.Known.{has-count, is_done, has, IsKnown}
use dog_server.Client.Program.Senders.Shared.{count, Reaches-IsShared}
use dog_server.Client.Program.Senders.Moving.{Step-IsKnown}

Reaches-IsKnown :
    {seen : ℕ → ℕ} {n list_num : ℕ} {c : Senders}
    → ((j : ℕ) → seen j ≡ j)
    → IsKnown n list_num c
    → {d : Senders} → Reaches seen n list_num c d
    → IsKnown n list_num d
Reaches-IsKnown mine s here = s
Reaches-IsKnown {seen} {n} {list_num} mine s (later {d} r st) =
    Step-IsKnown n list_num d (Reaches-IsKnown mine s r) seen mine st

new_senders-IsKnown :
    (garbage : ℕ → ℕ) (n list_num : ℕ)
    → ((j : ℕ) → garbage j ≢ 2)
    → IsKnown n list_num (new_senders garbage)
new_senders-IsKnown garbage n list_num fresh = record {
  own = λ j id e. absurd (ground arith);
  slot = λ j e. absurd (fresh j e);
  over = λ j e. absurd (ground arith);
  sent_or_held = λ k l. absurd (omega arith);
  finished_lem = λ f j l. absurd (ground arith);
}

-- What has been sent when all threads are done.
all_sent :
    {n list_num : ℕ} (c : Senders) (j k : ℕ)
    → IsKnown n list_num c
    → c.finished ≡ true
    → j < n
    → k < list_num
    → has k c.sent ≡ true
all_sent c j k s f b l = elim (s.sent_or_held k (ground (arith, s.over j, s.finished_lem f j b))) [
  | inl h ↦ h
  | inr h ↦ absurd (ground (arith, s.finished_lem f h.0 h.1, h.2))
]

-- If every thread finds its own number in param->thread_id, and no entry of thread_ids holds 2
-- before it is set: when main has left its loop after some interleaving in which epoll_wait did not
-- fail, every thread has left SendThread, and the file of every item of the list has been sent,
-- exactly once.
pub Reaches-finished :
    (seen garbage : ℕ → ℕ) (n list_num : ℕ) (c : Senders)
    → ((j : ℕ) → seen j ≡ j)
    → ((j : ℕ) → garbage j ≢ 2)
    → Reaches seen n list_num (new_senders garbage) c
    → main_loops c ≡ false
    → c.broken ≡ false
    → (j k : ℕ) → j < n
    → k < list_num
    → (is_done (c.threads j) ≡ true) × (count k c.sent ≡ 1)
Reaches-finished seen garbage n list_num c mine fresh r left sound j k b l =
    let f : c.finished ≡ true = ground arith in
    let s = Reaches-IsKnown mine (new_senders-IsKnown garbage n list_num fresh) r in
    let sent_once = (Reaches-IsShared seen garbage n list_num c r).once k in
    (s.finished_lem f j b, omega (arith, sent_once, has-count k c.sent (all_sent c j k s f b l)))
