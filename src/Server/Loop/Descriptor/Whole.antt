-- ===== src/Server/Loop/Descriptor/Whole.antt =====
-- writen writes all, and readn reads all.
use dog_server.Base.{
  ℕ, zero, suc, ◌-◌, ◌≡◌, ◌≤◌, sym, ap, ◌∙◌, List, [], ◌∷◌, ◌++◌, append_assoc, append-nil, length,
  length-append, length-drop, take, drop, take-append-drop, All, arith,
}
use dog_server.Server.Send.{WriteCall, wrote, eintr, eagain, other_errno}
use dog_server.Server.Send.Write.{taken}
use dog_server.Server.Loop.Descriptor.{
  ReadCall, gives, interrupted, would_block, fails, counted, writen, readn,
}

-- Calls of write that take bytes or are interrupted.
abbrev pub Takes : WriteCall → Type 0
Takes (wrote n) = Unit
Takes eintr = Unit
Takes _ = ⊥

writen-whole :
    (sum left : List ℕ) (calls : List WriteCall)
    → All Takes calls
    → length left ≤ taken calls
    → writen sum left calls ≡ counted (sum ++ left)
unfolding writen
writen-whole sum [] calls t h = ap counted (sym (append-nil sum))
writen-whole sum (b ∷ left) [] t h = absurd (omega arith)
writen-whole sum (b ∷ left) (wrote n ∷ calls) t h =
    writen-whole (sum ++ take n (b ∷ left)) (drop n (b ∷ left)) calls t.1
      (omega (arith, h, length-drop n (b ∷ left)))
    ∙ ap counted (
        append_assoc sum (take n (b ∷ left)) (drop n (b ∷ left))
        ∙ ap (λ t. sum ++ t) (take-append-drop n (b ∷ left)))
writen-whole sum (b ∷ left) (eintr ∷ calls) t h = writen-whole sum (b ∷ left) calls t.1 h
writen-whole sum (b ∷ left) (eagain ∷ calls) t h = absurd t.0
writen-whole sum (b ∷ left) (other_errno ∷ calls) t h = absurd t.0

-- Calls of read that give pieces or are interrupted, and the bytes of the pieces.
abbrev pub Gives : ReadCall → Type 0
Gives (gives []) = ⊥
Gives (gives (c ∷ cs)) = Unit
Gives interrupted = Unit
Gives _ = ⊥

abbrev pub given : List ReadCall → List ℕ
given [] = []
given (gives cs ∷ calls) = cs ++ given calls
given (_ ∷ calls) = given calls

readn-given :
    (sum : List ℕ) (left : ℕ) (calls : List ReadCall)
    → All Gives calls
    → left ≡ length (given calls)
    → readn sum left calls ≡ counted (sum ++ given calls)
unfolding readn
readn-given sum zero [] h e = ap counted (sym (append-nil sum))
readn-given sum zero (gives [] ∷ calls) h e = absurd h.0
readn-given sum zero (gives (c ∷ cs) ∷ calls) h e = absurd (omega arith)
readn-given sum zero (interrupted ∷ calls) h e = readn-given sum zero calls h.1 e
readn-given sum zero (would_block ∷ calls) h e = absurd h.0
readn-given sum zero (fails ∷ calls) h e = absurd h.0
readn-given sum (suc left) [] h e = absurd (omega arith)
readn-given sum (suc left) (gives [] ∷ calls) h e = absurd h.0
readn-given sum (suc left) (gives (c ∷ cs) ∷ calls) h e =
    readn-given (sum ++ (c ∷ cs)) (suc left - length (c ∷ cs)) calls h.1
      (omega (arith, e, length-append (c ∷ cs) (given calls)))
    ∙ ap counted (append_assoc sum (c ∷ cs) (given calls))
readn-given sum (suc left) (interrupted ∷ calls) h e = readn-given sum (suc left) calls h.1 e
readn-given sum (suc left) (would_block ∷ calls) h e = absurd h.0
readn-given sum (suc left) (fails ∷ calls) h e = absurd h.0

-- If the calls of write take as many bytes as there are, in any pieces and with any interruptions,
-- writen returns with all of its buffer written; and if the calls of read give these bytes, in any
-- pieces that are not empty and with any interruptions, readn of their number returns with
-- exactly these bytes.
pub readn-writen :
    (buff : List ℕ) (writes : List WriteCall) (reads : List ReadCall)
    → All Takes writes
    → length buff ≤ taken writes
    → All Gives reads
    → given reads ≡ buff
    → (writen [] buff writes ≡ counted buff) × (readn [] (length buff) reads ≡ counted buff)
readn-writen buff writes reads t n h e = (
  writen-whole [] buff writes t n,
  readn-given [] (length buff) reads h (ap length (sym e)) ∙ ap counted e,
)
