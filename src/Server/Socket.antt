-- ===== src/Server/Socket.antt =====
-- The calls that the connection makes on its socket: ioctl(FIONREAD) and read. Both are the
-- operating system's, so they are an argument, with what the code relies on as laws.
use dog_server.Base.{ℕ, ◌≤◌, ◌≡◌, refl, Option, some, List, length, take, drop}

-- `queued` is the receive queue of a state. While a call of the server runs, no more arrives.
-- `read` gives `none` for the return value -1.
pub record Socket : Type 1 where
  pub State : Type 0
  pub queued : State → List ℕ
  pub fionread : State → ℕ
  pub read : State → ℕ → Option (List ℕ) × State
  pub fionread-length : (s : State) → fionread s ≡ length (queued s)
  -- A read of no more than what is queued takes that many bytes off the front.
  pub read-take :
      (s : State) (n : ℕ) → n ≤ length (queued s) → (read s n).0 ≡ some (take n (queued s))
  pub read-drop :
      (s : State) (n : ℕ) → n ≤ length (queued s) → queued (read s n).1 ≡ drop n (queued s)

-- A socket that is its queue.
abbrev pub queue_socket : Socket
queue_socket = record {
  State = List ℕ;
  queued = λ q. q;
  fionread = length;
  read = λ q n. (some (take n q), drop n q);
  fionread-length = λ q. refl;
  read-take = λ q n h. refl;
  read-drop = λ q n h. refl;
}
