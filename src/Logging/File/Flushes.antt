-- ===== src/Logging/File/Flushes.antt =====
-- What reaches the file, and when it is flushed.
use dog_server.Base.{
  ℕ, ◌+◌, ◌*◌, ◌≤◌, ◌<◌, ◌≡◌, refl, sym, ap, ◌∙◌, subst, Bool-cases, inl, inr, false, Option, none,
  some, List, [], ◌∷◌, ◌++◌, append_assoc, append-nil, take-append-drop, length-drop, ◌-◌, leb,
  ◌==◌, length, take, drop, arith,
}
use native.Mathlib.Nat.{suc-mul}
use dog_server.Logging.File.{
  Appended, appended, cut_off, waiting, append_loop, append_file, LogFile, new_log_file, count_line,
  count_appended, append_unlocked, and_then, append_lines,
}

-- What the file has grown by, and what of the line is lost.
abbrev pub Grown : List ℕ → List ℕ → Appended → Type 0
Grown file line (appended file') = file' ≡ file ++ line
Grown file line (cut_off file' lost) =
    (kept : List ℕ) × (file' ≡ file ++ kept) × (kept ++ lost ≡ line)
Grown file line waiting = Unit

rejoined : (x : ℕ) (file line : List ℕ) → (file ++ take x line) ++ drop x line ≡ file ++ line
rejoined x file line =
    append_assoc file (take x line) (drop x line)
    ∙ ap (λ (t : List ℕ). file ++ t) (take-append-drop x line)

Grown-split :
    (x : ℕ) (file line : List ℕ) (a : Appended)
    → Grown (file ++ take x line) (drop x line) a
    → Grown file line a
Grown-split x file line (appended file') h = h ∙ rejoined x file line
Grown-split x file line (cut_off file' lost) (kept, grown, rest) = (
  take x line ++ kept,
  grown ∙ append_assoc file (take x line) kept,
  append_assoc (take x line) kept lost
      ∙ ap (λ (t : List ℕ). take x line ++ t) rest
      ∙ take-append-drop x line,
)
Grown-split x file line waiting h = tt

append_loop-Grown : (results rest file : List ℕ) → Grown file rest (append_loop results rest file)
unfolding append_loop
append_loop-Grown [] [] file = sym (append-nil file)
append_loop-Grown (x ∷ results) [] file = sym (append-nil file)
append_loop-Grown [] (c ∷ rest) file = tt
append_loop-Grown (x ∷ results) (c ∷ rest) file =
    let later = append_loop-Grown results (drop x (c ∷ rest)) (file ++ take x (c ∷ rest)) in
    elim (Bool-cases (x == 0)) [
      | inl stops ↦ rw stops ([], sym (append-nil file), refl)
      | inr goes ↦ rw goes (
          Grown-split x file (c ∷ rest)
            (append_loop results (drop x (c ∷ rest)) (file ++ take x (c ∷ rest))) later)
    ]

-- Whatever the calls of fwrite write: if append ends, the file has grown by the whole line, or, where
-- a call wrote nothing, by a beginning of it, of which the lost bytes are the rest.
pub append_file-Grown :
    (results line file : List ℕ) → Grown file line (append_file results line file)
unfolding append_file
append_file-Grown [] line file = tt
append_file-Grown (x ∷ results) line file =
    Grown-split x file line (append_loop results (drop x line) (file ++ take x line))
      (append_loop-Grown results (drop x line) (file ++ take x line))

-- Every call writes a byte, and together they write enough.
abbrev pub Writes : ℕ → List ℕ → Type 0
Writes n [] = n ≡ 0
Writes n (x ∷ results) = (1 ≤ x) × Writes (n - x) results

append_loop-appended :
    (results rest file : List ℕ)
    → Writes (length rest) results
    → append_loop results rest file ≡ appended (file ++ rest)
unfolding append_loop
append_loop-appended [] [] file h = ap appended (sym (append-nil file))
append_loop-appended (x ∷ results) [] file h = ap appended (sym (append-nil file))
append_loop-appended [] (c ∷ rest) file h = absurd (ground arith)
append_loop-appended (x ∷ results) (c ∷ rest) file h =
    let goes : (x == 0) ≡ false = ground (arith, h.0) in
    let less = length-drop x (c ∷ rest) in
    let later =
      append_loop-appended results (drop x (c ∷ rest)) (file ++ take x (c ∷ rest))
        (subst (λ (n : ℕ). Writes n results) (sym less) h.1) in
    rw goes (later ∙ ap appended (rejoined x file (c ∷ rest)))

-- The count goes round: `lines` lines have been appended.
pub record IsCounted (lines : ℕ) (f : LogFile) : Type 0 where
  below : f.count < f.flush_every_n
  total : f.flushes * f.flush_every_n + f.count ≡ lines
  behind : (tail : List ℕ) × (f.flushed ++ tail ≡ f.file)

count_line-IsCounted :
    (lines : ℕ) (file tail : List ℕ) (f : LogFile)
    → IsCounted lines f
    → f.file ++ tail ≡ file
    → IsCounted (lines + 1) (count_line file f)
count_line-IsCounted lines file tail f h e = elim (Bool-cases (leb f.flush_every_n (f.count + 1))) [
  | inl full ↦
      let last : f.count + 1 ≡ f.flush_every_n = ground (arith, h.below) in
      let next : (f.flushes + 1) * f.flush_every_n ≡ f.flushes * f.flush_every_n + f.flush_every_n =
        ap (λ (k : ℕ). k * f.flush_every_n) (omega arith) ∙ suc-mul f.flushes f.flush_every_n in
      rw full record {
        below = omega (arith, h.below);
        total = omega (arith, h.total, last, next);
        behind = ([], append-nil file);
      }
  | inr room ↦
      let (before, prefix) = h.behind in
      rw room record {
        below = ground arith;
        total = omega (arith, h.total);
        behind = (
          before ++ tail,
          sym (append_assoc f.flushed before tail) ∙ ap (λ (t : List ℕ). t ++ tail) prefix ∙ e,
        );
      }
]

abbrev CountedIf : ℕ → Option LogFile → Type 0
CountedIf lines none = Unit
CountedIf lines (some f) = IsCounted lines f

count_appended-CountedIf :
    (lines : ℕ) (line : List ℕ) (a : Appended) (f : LogFile)
    → IsCounted lines f
    → Grown f.file line a
    → CountedIf (lines + 1) (count_appended a f)
count_appended-CountedIf lines line (appended file) f h grown =
    count_line-IsCounted lines file line f h (sym grown)
count_appended-CountedIf lines line (cut_off file lost) f h (kept, grown, rest) =
    count_line-IsCounted lines file kept f h (sym grown)
count_appended-CountedIf lines line waiting f h grown = tt

append_unlocked-CountedIf :
    (lines : ℕ) (l : List ℕ × List ℕ) (f : LogFile)
    → IsCounted lines f
    → CountedIf (lines + 1) (append_unlocked l f)
unfolding append_unlocked
append_unlocked-CountedIf lines (results, line) f h =
    count_appended-CountedIf lines line (append_file results line f.file) f h
      (append_file-Grown results line f.file)

and_then-CountedIf :
    (lines more : ℕ) (o : Option LogFile) (next : LogFile → Option LogFile)
    → CountedIf lines o
    → ((f : LogFile) → IsCounted lines f → CountedIf more (next f))
    → CountedIf more (and_then o next)
and_then-CountedIf lines more none next h on = tt
and_then-CountedIf lines more (some f) next h on = on f h

append_lines-CountedIf :
    (ls : List (List ℕ × List ℕ)) (lines : ℕ) (f : LogFile)
    → IsCounted lines f
    → CountedIf (lines + length ls) (append_lines ls f)
unfolding append_lines
append_lines-CountedIf [] lines f h =
    let same : lines ≡ lines + 0 = omega arith in subst (λ (k : ℕ). IsCounted k f) same h
append_lines-CountedIf (l ∷ ls) lines f h =
    let same : lines + 1 + length ls ≡ lines + length (l ∷ ls) = omega arith in
    and_then-CountedIf (lines + 1) (lines + length (l ∷ ls)) (append_unlocked l f) (append_lines ls)
      (append_unlocked-CountedIf lines l f h)
      (λ g k.
        subst (λ (n : ℕ). CountedIf n (append_lines ls g)) same
          (append_lines-CountedIf ls (lines + 1) g k))

-- Lines appended to a new log file that flushes every `n` lines, n not 0, with any results of fwrite:
-- the flushes so far times n and the count, which is below n, make the number of lines, and what was
-- flushed is a beginning of the file.
pub append_lines-IsCounted :
    (n : ℕ) (ls : List (List ℕ × List ℕ)) (f : LogFile)
    → 0 < n
    → append_lines ls (new_log_file n) ≡ some f
    → IsCounted (length ls) f
append_lines-IsCounted n ls f h e =
    let start : IsCounted 0 (new_log_file n) = record {
      below = h;
      total = omega arith;
      behind = ([], refl);
    } in
    let zero_add : 0 + length ls ≡ length ls = omega arith in
    subst (λ (k : ℕ). IsCounted k f) zero_add
      (subst (CountedIf (0 + length ls)) e (append_lines-CountedIf ls 0 (new_log_file n) start))
