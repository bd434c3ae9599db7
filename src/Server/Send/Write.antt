-- ===== src/Server/Send/Write.antt =====
-- The writing loop: nothing is lost, doubled or put out of order.
use dog_server.Base.{
  ℕ, ◌+◌, ◌≤◌, ◌≡◌, refl, sym, ap, ◌∙◌, List, [], ◌∷◌, ◌++◌, append_assoc, append-nil, length,
  length-drop, take, drop, take-append-drop, All, arith,
}
use dog_server.Server.Packet.{error_write}
use dog_server.Server.Send.{
  WriteCall, wrote, eintr, eagain, other_errno, Written, sent_all, write_failed, writing,
  write_data,
}

-- What each outcome says of the data.
abbrev pub Accounts : List ℕ → Written → Type 0
Accounts whole (sent_all sent) = sent ≡ whole
Accounts whole (write_failed e sent) =
    (e ≡ error_write) × ((rest : List ℕ) × (sent ++ rest ≡ whole))
Accounts whole (writing sent left) = sent ++ left ≡ whole

loop-Accounts :
    (whole sent left : List ℕ) (calls : List WriteCall)
    → sent ++ left ≡ whole
    → Accounts whole (write_data sent left calls)
unfolding write_data
loop-Accounts whole sent [] calls e = sym (append-nil sent) ∙ e
loop-Accounts whole sent (b ∷ left) [] e = e
loop-Accounts whole sent (b ∷ left) (wrote n ∷ calls) e =
    loop-Accounts whole (sent ++ take n (b ∷ left)) (drop n (b ∷ left)) calls (
      append_assoc sent (take n (b ∷ left)) (drop n (b ∷ left))
      ∙ ap (λ t. sent ++ t) (take-append-drop n (b ∷ left))
      ∙ e)
loop-Accounts whole sent (b ∷ left) (eintr ∷ calls) e = loop-Accounts whole sent (b ∷ left) calls e
loop-Accounts whole sent (b ∷ left) (eagain ∷ calls) e = loop-Accounts whole sent (b ∷ left) calls e
loop-Accounts whole sent (b ∷ left) (other_errno ∷ calls) e = (refl, (b ∷ left, e))

-- Whatever the calls of write give, the socket has taken a prefix of the data in order: all of it
-- if writeData returned 0; with `error_` set to ERROR_WRITE if it returned -1; and the loop
-- holds exactly the rest if it goes on.
pub write_data-Accounts :
    (data_ : List ℕ) (calls : List WriteCall) → Accounts data_ (write_data [] data_ calls)
write_data-Accounts data_ calls = loop-Accounts data_ [] data_ calls refl

-- The bytes that the calls take, if each takes what it reports.
abbrev pub taken : List WriteCall → ℕ
taken [] = 0
taken (wrote n ∷ calls) = n + taken calls
taken (_ ∷ calls) = taken calls

abbrev pub Retries : WriteCall → Type 0
Retries other_errno = ⊥
Retries _ = Unit

finishes :
    (sent left : List ℕ) (calls : List WriteCall)
    → All Retries calls
    → length left ≤ taken calls
    → write_data sent left calls ≡ sent_all (sent ++ left)
unfolding write_data
finishes sent [] calls r h = ap sent_all (sym (append-nil sent))
finishes sent (b ∷ left) [] r h = absurd (omega arith)
finishes sent (b ∷ left) (wrote n ∷ calls) r h =
    finishes (sent ++ take n (b ∷ left)) (drop n (b ∷ left)) calls r.1
      (omega (arith, length-drop n (b ∷ left)))
    ∙ ap sent_all (
        append_assoc sent (take n (b ∷ left)) (drop n (b ∷ left))
        ∙ ap (λ t. sent ++ t) (take-append-drop n (b ∷ left)))
finishes sent (b ∷ left) (eintr ∷ calls) r h = finishes sent (b ∷ left) calls r.1 h
finishes sent (b ∷ left) (eagain ∷ calls) r h = finishes sent (b ∷ left) calls r.1 h
finishes sent (b ∷ left) (other_errno ∷ calls) r h = absurd r.0

-- writeData rides out every interruption and every full socket: if no call fails otherwise and
-- the calls take as many bytes as there are, it returns 0 with all of them sent.
pub write_data-sent_all :
    (data_ : List ℕ) (calls : List WriteCall)
    → All Retries calls
    → length data_ ≤ taken calls
    → write_data [] data_ calls ≡ sent_all data_
write_data-sent_all data_ calls r h = finishes [] data_ calls r h
