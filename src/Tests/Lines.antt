-- ===== src/Tests/Lines.antt =====
-- Lines of the log, and the file that they go to.
use dog_server.Base.{ℕ, ◌≤◌, ◌≡◌, List, [], ◌∷◌, codes, length, arith}
use dog_server.Logging.Stream.{negsuc, convert, Item, integer, text, log_line}
use dog_server.Logging.Stream.Numbers.{read_number, read_number-convert}
use dog_server.Logging.Stream.Lines.{log_line-bound}
use dog_server.Logging.File.{LogFile}

read_number-convert_example :
    read_number (convert (negsuc 9223372036854775807)) ≡ negsuc 9223372036854775807
read_number-convert_example = read_number-convert (negsuc 9223372036854775807)

abbrev some_items : List Item
some_items = text (codes "loop: ") ∷ integer (negsuc 41) ∷ []

log_line-bound_example : length (log_line (codes "2020") some_items (codes "server.cc") 55) ≤ 4000
log_line-bound_example =
    log_line-bound (codes "2020") some_items (codes "server.cc") 55 (tt, (omega arith, tt))
      (omega arith)

abbrev three_lines : List (List ℕ × List ℕ)
three_lines = (1 ∷ 1 ∷ [], 1 ∷ 2 ∷ []) ∷ (1 ∷ 0 ∷ [], 3 ∷ 4 ∷ []) ∷ (1 ∷ [], 5 ∷ []) ∷ []

-- One flush in two lines; the second byte of the second line is lost.
abbrev three_written : LogFile
three_written = record {
  flush_every_n = 2;
  count = 1;
  file = 1 ∷ 2 ∷ 3 ∷ 5 ∷ [];
  flushed = 1 ∷ 2 ∷ 3 ∷ [];
  flushes = 1;
}
