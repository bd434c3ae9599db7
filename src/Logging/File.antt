-- ===== src/Logging/File.antt =====
-- AppendFile::append (src/log-util.cc) over what fwrite returns, and LogFile::append_unlocked
-- (src/log-file.cc).
pub mod Flushes
use dog_server.Base.{
  ℕ, suc, ◌+◌, Bool, true, false, Option, none, some, List, [], ◌∷◌, ◌++◌, leb, ◌==◌, if◌then◌else◌,
  take, drop,
}

-- How append ends: everything is in the file; a call of fwrite wrote nothing, with what is lost; or
-- a call that has not returned.
pub data Appended : Type 0 where
  appended : List ℕ → Appended
  cut_off : List ℕ → List ℕ → Appended
  waiting : Appended

-- The loop, on the part of the line that remains; each call writes as many of the bytes.
unfoldable pub append_loop : List ℕ → List ℕ → List ℕ → Appended
append_loop results [] file = appended file
append_loop [] (c ∷ rest) file = waiting
append_loop (x ∷ results) (c ∷ rest) file =
    let next = append_loop results (drop x (c ∷ rest)) (file ++ take x (c ∷ rest)) in
    if x == 0 then cut_off file (c ∷ rest) else next

unfoldable pub append_file : List ℕ → List ℕ → List ℕ → Appended
append_file [] line file = waiting
append_file (x ∷ results) line file = append_loop results (drop x line) (file ++ take x line)

-- `file` is what was given to the stream, `flushed` what of it was there at the last flush.
pub record LogFile : Type 0 where
  pub flush_every_n : ℕ
  pub count : ℕ
  pub file : List ℕ
  pub flushed : List ℕ
  pub flushes : ℕ

abbrev pub new_log_file : ℕ → LogFile
new_log_file n = record { flush_every_n = n; count = 0; file = []; flushed = []; flushes = 0 }

abbrev pub flush : LogFile → LogFile
flush f = record f { flushed = f.file; flushes = f.flushes + 1 }

-- The part of append_unlocked behind the append.
abbrev pub count_line : List ℕ → LogFile → LogFile
count_line file f =
    let g = record f { file = file; count = f.count + 1 } in
    if leb g.flush_every_n g.count then flush (record g { count = 0 }) else g

abbrev pub count_appended : Appended → LogFile → Option LogFile
count_appended (appended file) f = some (count_line file f)
count_appended (cut_off file lost) f = some (count_line file f)
count_appended waiting f = none

unfoldable pub append_unlocked : List ℕ × List ℕ → LogFile → Option LogFile
append_unlocked (results, line) f = count_appended (append_file results line f.file) f

abbrev pub and_then : Option LogFile → (LogFile → Option LogFile) → Option LogFile
and_then none k = none
and_then (some f) k = k f

-- LogFile::append line after line, each with the results of its calls of fwrite.
unfoldable pub append_lines : List (List ℕ × List ℕ) → LogFile → Option LogFile
append_lines [] f = some f
append_lines (l ∷ ls) f = and_then (append_unlocked l f) (append_lines ls)
