-- ===== src/Server/Loop/Descriptor.antt =====
-- readn and writen (src/event-loop.cc), which wakeup and handleRead call on the eventfd, over the
-- calls of read and write that they make.
pub mod Whole
use dog_server.Base.{ℕ, zero, suc, ◌-◌, List, [], ◌∷◌, ◌++◌, length, take, drop}
use dog_server.Server.Send.{WriteCall, wrote, eintr, eagain, other_errno}

-- What one call of read(2) gives: the bytes, none at the end, or -1 with `errno`.
pub data ReadCall : Type 0 where
  gives : List ℕ → ReadCall
  interrupted would_block fails : ReadCall

-- The functions return the number of these bytes, or -1, or call again.
pub data Outcome : Type 0 where
  counted : List ℕ → Outcome
  minus_1 : Outcome
  again : List ℕ → Outcome

-- The loop of writen: what was written, and what is left.
unfoldable pub writen : List ℕ → List ℕ → List WriteCall → Outcome
writen sum [] calls = counted sum
writen sum (b ∷ left) [] = again sum
writen sum (b ∷ left) (wrote n ∷ calls) =
    writen (sum ++ take n (b ∷ left)) (drop n (b ∷ left)) calls
writen sum (b ∷ left) (eintr ∷ calls) = writen sum (b ∷ left) calls
writen sum (b ∷ left) (eagain ∷ calls) = counted sum
writen sum (b ∷ left) (other_errno ∷ calls) = minus_1

-- The loop of readn: what was read, and how much is left to read.
unfoldable pub readn : List ℕ → ℕ → List ReadCall → Outcome
readn sum zero calls = counted sum
readn sum (suc left) [] = again sum
readn sum (suc left) (gives [] ∷ calls) = counted sum
readn sum (suc left) (gives (c ∷ cs) ∷ calls) =
    readn (sum ++ (c ∷ cs)) (suc left - length (c ∷ cs)) calls
readn sum (suc left) (interrupted ∷ calls) = readn sum (suc left) calls
readn sum (suc left) (would_block ∷ calls) = counted sum
readn sum (suc left) (fails ∷ calls) = minus_1
