-- ===== src/Client/Transfer/Gather.antt =====
-- The wait for the rest of a frame.
use dog_server.Base.{
  ℕ, ◌+◌, ◌-◌, ◌≤◌, ◌<◌, ◌≡◌, refl, sym, ap, ◌∙◌, Bool-cases, inl, inr, Bool, if◌then◌else◌, true,
  false, List, [], ◌∷◌, ◌++◌, append-nil, append_assoc, ltb, lt→ltb, le→not_ltb, length,
  length-append, arith,
}
use dog_server.Client.Transfer.{
  RecvCall, got, not_got, whole, not_recv, is_stored, recv_patience, gather,
}

-- The bytes that the calls bring.
abbrev pub brought : List RecvCall → List ℕ
brought [] = []
brought (got xs ∷ calls) = xs ++ brought calls
brought (not_got transient ∷ calls) = brought calls

-- A call that stores anything stores at least one byte, no call fails for good, and at most 48 calls
-- in a row bring nothing, or 49 in front of the first bytes.
abbrev pub Patient : ℕ → List RecvCall → Type 0
Patient time_out [] = Unit
Patient time_out (got xs ∷ calls) = (1 ≤ length xs) × Patient (recv_patience - 1) calls
Patient time_out (not_got true ∷ calls) = (2 ≤ time_out) × Patient (time_out - 1) calls
Patient time_out (not_got false ∷ calls) = ⊥

pub no_more : (bytes more : List ℕ) → length (bytes ++ more) ≤ length bytes → bytes ++ more ≡ bytes
no_more bytes [] h = append-nil bytes
no_more bytes (x ∷ more) h = absurd (omega (arith, length-append bytes (x ∷ more)))

module _ (data_max_len : ℕ) where
  gather-enough :
      (need time_out : ℕ) (calls : List RecvCall) (bytes : List ℕ)
      → need ≤ length bytes
      → gather data_max_len need time_out calls bytes ≡ whole bytes
  unfolding gather
  gather-enough need time_out [] bytes h = rw (le→not_ltb (length bytes) need h) refl
  gather-enough need time_out (got xs ∷ calls) bytes h = rw (le→not_ltb (length bytes) need h) refl
  gather-enough need time_out (not_got t ∷ calls) bytes h =
      rw (le→not_ltb (length bytes) need h) refl

  gather-got :
      (need time_out : ℕ) (xs : List ℕ) (calls : List RecvCall) (bytes : List ℕ)
      → length bytes < need
      → is_stored (data_max_len - length bytes) xs ≡ true
      → gather data_max_len need time_out (got xs ∷ calls) bytes
        ≡ gather data_max_len need (recv_patience - 1) calls (bytes ++ xs)
  unfolding gather
  gather-got need time_out xs calls bytes h fits = rw (lt→ltb (length bytes) need h) (
      ap
        (λ (b : Bool).
          if b then gather data_max_len need (recv_patience - 1) calls (bytes ++ xs) else not_recv)
        fits)

  gather-not_got :
      (need time_out : ℕ) (calls : List RecvCall) (bytes : List ℕ)
      → length bytes < need
      → 2 ≤ time_out
      → gather data_max_len need time_out (not_got true ∷ calls) bytes
        ≡ gather data_max_len need (time_out - 1) calls bytes
  unfolding gather
  gather-not_got need time_out calls bytes h t =
      rw (lt→ltb (length bytes) need h, le→not_ltb (time_out - 1) 1 (omega arith)) refl

  done :
      (need : ℕ) (calls : List RecvCall) (time_out : ℕ) (bytes : List ℕ)
      → need ≤ length bytes
      → length (bytes ++ brought calls) ≡ need
      → gather data_max_len need time_out calls bytes ≡ whole (bytes ++ brought calls)
  done need calls time_out bytes h e =
      gather-enough need time_out calls bytes h
      ∙ ap whole (sym (no_more bytes (brought calls) (omega (arith, e, h))))

  -- Calls that bring exactly the bytes that are missing, in time, of a frame that the buffer holds:
  -- the loop ends with all of them.
  pub gather-whole :
      (need : ℕ) (calls : List RecvCall) (time_out : ℕ) (bytes : List ℕ)
      → need ≤ data_max_len
      → Patient time_out calls
      → length (bytes ++ brought calls) ≡ need
      → gather data_max_len need time_out calls bytes ≡ whole (bytes ++ brought calls)
  gather-whole need [] time_out bytes fits p e =
      gather-enough need time_out [] bytes (omega (arith, e, length-append bytes []))
      ∙ ap whole (sym (append-nil bytes))
  gather-whole need (got xs ∷ calls) time_out bytes fits p e =
      let joined = append_assoc bytes xs (brought calls) in
      let size : length bytes + (length xs + length (brought calls)) ≡ need =
        omega
          (arith, e, length-append bytes (xs ++ brought calls), length-append xs (brought calls)) in
      let stored : is_stored (data_max_len - length bytes) xs ≡ true =
        ground (arith, size, fits, p.0) in
      let later =
        gather-whole need calls (recv_patience - 1) (bytes ++ xs) fits p.1 (ap length joined ∙ e) in
      elim (Bool-cases (ltb (length bytes) need)) [
        | inl few ↦
            gather-got need time_out xs calls bytes (ground arith) stored ∙ later ∙ ap whole joined
        | inr enough ↦ done need (got xs ∷ calls) time_out bytes (ground arith) e
      ]
  gather-whole need (not_got true ∷ calls) time_out bytes fits p e =
      let later = gather-whole need calls (time_out - 1) bytes fits p.1 e in
      elim (Bool-cases (ltb (length bytes) need)) [
        | inl few ↦ gather-not_got need time_out calls bytes (ground arith) p.0 ∙ later
        | inr enough ↦ done need (not_got true ∷ calls) time_out bytes (ground arith) e
      ]
  gather-whole need (not_got false ∷ calls) time_out bytes fits p e = absurd p
