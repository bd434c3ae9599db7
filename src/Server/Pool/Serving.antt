-- ===== src/Server/Pool/Serving.antt =====
-- handNewConn and getNextLoop a round at a time (src/server.cc, src/event-loop-thread-pool.cc), while
-- the threads of the loops close connections (handleClose of src/websocket-data.cc).
pub mod Exclusive
pub mod Losses
pub mod Spins
use dog_server.Base.{
  ℕ, zero, suc, ◌+◌, ◌%◌, ◌≡◌, ◌≤◌, ◌<◌, Bool, true, false, Option, none, some, List, [], ◌∷◌, ◌++◌,
  get_elem?, set_at,
}
use dog_server.Server.Poller.{maxfds}

-- Where the main loop's thread stands: in epoll_wait, before accept, in round `i` of getNextLoop for
-- a descriptor, or behind `loop->idle = false`.
pub data Main : Type 0 where
  polling accepting : Main
  finding : (i fd : ℕ) → Main
  taken : (k fd : ℕ) → Main

-- The flags, the open connections as loop and descriptor, the descriptors closed at once, and
-- those left open where setSocketNonBlocking failed.
pub record Serving : Type 0 where
  pub main : Main
  pub idle : ℕ → Bool
  pub conns : List (ℕ × ℕ)
  pub refused : List ℕ
  pub left : List ℕ

abbrev pub new_serving : Serving
new_serving = record { main = polling; idle = λ k. true; conns = []; refused = []; left = [] }

-- A list without its entry `i`.
abbrev pub remove : {A : Type 0} → ℕ → List A → List A
remove i [] = []
remove zero (x ∷ xs) = xs
remove (suc i) (x ∷ xs) = x ∷ remove i xs

-- One step of the main thread with `n` loops, or the end of connection `i` in its loop's thread.
pub data Step (n : ℕ) (c : Serving) : Serving → Type 0 where
  reports : c.main ≡ polling → Step n c (record c { main = accepting })
  accepts : (fd : ℕ) → c.main ≡ accepting → Step n c (record c { main = finding 0 fd })
  drained : c.main ≡ accepting → Step n c (record c { main = polling })
  looks_on :
      {i fd : ℕ}
      → c.main ≡ finding i fd
      → c.idle (i % n) ≡ false
      → Step n c (record c { main = finding (i + 1) fd })
  takes :
      {i fd : ℕ}
      → c.main ≡ finding i fd
      → c.idle (i % n) ≡ true
      → Step n c (record c { main = taken (i % n) fd; idle = set_at c.idle (i % n) false })
  refuses :
      {k fd : ℕ}
      → c.main ≡ taken k fd
      → maxfds ≤ fd
      → Step n c (record c { main = accepting; refused = c.refused ++ (fd ∷ []) })
  stays_blocking :
      {k fd : ℕ}
      → c.main ≡ taken k fd
      → fd < maxfds
      → Step n c (record c { main = polling; left = c.left ++ (fd ∷ []) })
  hands_over :
      {k fd : ℕ}
      → c.main ≡ taken k fd
      → fd < maxfds
      → Step n c (record c { main = accepting; conns = c.conns ++ ((k, fd) ∷ []) })
  closes :
      (i : ℕ) {k fd : ℕ}
      → get_elem? c.conns i ≡ some (k, fd)
      → Step n c (record c { idle = set_at c.idle k true; conns = remove i c.conns })

pub data Reaches (n : ℕ) (c : Serving) : Serving → Type 0 where
  here : Reaches n c c
  later : {d d' : Serving} → Reaches n c d → Step n d d' → Reaches n c d'
