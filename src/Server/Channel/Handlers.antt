-- ===== src/Server/Channel/Handlers.antt =====
-- When the handler of the connection runs.
use dog_server.Base.{
  ℕ, ◌+◌, ◌≡◌, refl, Bool, Bool-cases, true, false, ◌&&◌, ◌||◌, not, List, [], ◌∷◌, ◌++◌,
  if◌then◌else◌, arith,
}
use dog_server.Server.Channel.{
  HandlerSet, Handler, reads, writes, errs, conns, has_bit, epollin, epollpri, epollout, epollerr,
  epollhup, epollrdhup, called_if, handlers_called,
}

abbrev is_conns : Handler → Bool
is_conns conns = true
is_conns _ = false

unfoldable pub runs_conns : List Handler → Bool
runs_conns [] = false
runs_conns (h ∷ hs) = is_conns h || runs_conns hs

runs_conns-append : (h hs : List Handler) → runs_conns hs ≡ true → runs_conns (h ++ hs) ≡ true
unfolding runs_conns
runs_conns-append [] hs e = e
runs_conns-append (x ∷ xs) hs e = ground (arith, Bool-cases (is_conns x), runs_conns-append xs hs e)

runs_conns-error : (b : Bool) → runs_conns (called_if b errs) ≡ false
unfolding runs_conns
runs_conns-error true = refl
runs_conns-error false = refl

runs_conns-choice :
    (hup readable err : Bool) (error normal : List Handler)
    → runs_conns error ≡ false
    → runs_conns normal ≡ true
    → runs_conns (if hup && not readable then [] else if err then error else normal)
      ≡ (not err && (not hup || readable))
unfolding runs_conns
runs_conns-choice true true true error normal e n = e
runs_conns-choice true true false error normal e n = n
runs_conns-choice true false true error normal e n = refl
runs_conns-choice true false false error normal e n = refl
runs_conns-choice false readable true error normal e n = e
runs_conns-choice false readable false error normal e n = n

-- Where the handler for connections is set, handleEvents calls it exactly for events without
-- EPOLLERR that have no EPOLLHUP, or EPOLLIN as well: after EPOLLERR, and after EPOLLHUP alone, no
-- code of the connection runs that could close it.
pub handlers_called-conns :
    (set : HandlerSet) (revents : ℕ)
    → set.conn_handler ≡ true
    → runs_conns (handlers_called set revents) ≡ (
        not (has_bit revents epollerr)
        && (not (has_bit revents epollhup) || has_bit revents epollin))
unfolding handlers_called
handlers_called-conns set revents h =
    let last : runs_conns (called_if set.conn_handler conns) ≡ true =
      rw h (unfold runs_conns in refl) in
    let all =
      runs_conns-append
        (if has_bit revents (epollin + epollpri + epollrdhup)
          then called_if set.read_handler reads
          else [])
        _
        (runs_conns-append
          (if has_bit revents epollout then called_if set.write_handler writes else []) _ last) in
    runs_conns-choice (has_bit revents epollhup) (has_bit revents epollin)
      (has_bit revents epollerr) (called_if set.error_handler errs) _
      (runs_conns-error set.error_handler) all
