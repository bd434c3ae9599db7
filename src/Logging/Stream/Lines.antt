-- ===== src/Logging/Stream/Lines.antt =====
-- A line of the log is the texts of its parts.
use dog_server.Base.{
  ℕ, suc, ◌+◌, ◌-◌, ◌^◌, ◌≤◌, ◌<◌, ◌≡◌, refl, sym, ap, ◌∙◌, Bool-cases, inl, inr, true, false, List,
  [], ◌∷◌, ◌++◌, append_assoc, append-nil, ltb, leb, if◌then◌else◌, length, length-append, codes,
  decimal, All, arith,
}
use dog_server.Logging.Async.{Buffer, avail, put}
use dog_server.Logging.Stream.{
  ℤ, pos, negsuc, magnitude, convert, k_max_numeric_size, k_small_buffer, format_integer, Item,
  flag, integer, floating, char, text, null_text, insert_item, insert_items, trailer, log_line,
}
use dog_server.Logging.Stream.Numbers.{convert-pos, convert-negsuc, length-convert}

-- What an operand looks like.
abbrev pub number_text : ℤ → List ℕ
number_text (pos n) = decimal n
number_text (negsuc n) = b'-' ∷ decimal (suc n)

abbrev pub shown : Item → List ℕ
shown (flag true) = codes "true "
shown (flag false) = codes "false"
shown (integer v) = number_text v
shown (floating s) = s
shown (char c) = c ∷ []
shown (text s) = s
shown null_text = codes "(null)"

abbrev pub shown_all : List Item → List ℕ
shown_all [] = []
shown_all (x ∷ xs) = shown x ++ shown_all xs

-- A number of 64 bits, and a text of snprintf.
abbrev pub IsPrinted : Item → Type 0
IsPrinted (integer v) = magnitude v < 2 ^ 64
IsPrinted (floating s) = length s < k_max_numeric_size
IsPrinted _ = Unit

convert-number_text : (v : ℤ) → convert v ≡ number_text v
convert-number_text (pos n) = convert-pos n
convert-number_text (negsuc n) = convert-negsuc n

put-fits :
    (s : List ℕ) (b : Buffer)
    → length b + length s < k_small_buffer
    → put k_small_buffer s b ≡ b ++ s
unfolding put avail
put-fits s b h =
    let room : ltb (length s) (k_small_buffer - length b) ≡ true = ground arith in rw room refl

module _ (b : Buffer) where
  insert_item-fits :
      (x : Item)
      → length b + length (shown x) + k_max_numeric_size ≤ k_small_buffer
      → insert_item x b ≡ b ++ shown x
  unfolding insert_item format_integer avail
  insert_item-fits (flag true) h = put-fits (codes "true ") b (omega arith)
  insert_item-fits (flag false) h = put-fits (codes "false") b (omega arith)
  insert_item-fits (integer v) h =
      let room : leb k_max_numeric_size (k_small_buffer - length b) ≡ true = ground arith in
      rw room (ap (λ (t : List ℕ). b ++ t) (convert-number_text v))
  insert_item-fits (floating s) h =
      let room : leb k_max_numeric_size (k_small_buffer - length b) ≡ true = ground arith in
      rw room refl
  insert_item-fits (char c) h = put-fits (c ∷ []) b (omega arith)
  insert_item-fits (text s) h = put-fits s b (omega arith)
  insert_item-fits null_text h = put-fits (codes "(null)") b (omega arith)

  put-bound :
      (s : List ℕ) → length b ≤ k_small_buffer → length (put k_small_buffer s b) ≤ k_small_buffer
  unfolding put avail
  put-bound s h = elim (Bool-cases (ltb (length s) (k_small_buffer - length b))) [
    | inl room ↦ rw room (ground (arith, length-append b s))
    | inr full ↦ rw full h
  ]

  numeric-bound :
      (s : List ℕ)
      → length s < k_max_numeric_size
      → length b ≤ k_small_buffer
      → length (if leb k_max_numeric_size (avail k_small_buffer b) then b ++ s else b)
        ≤ k_small_buffer
  unfolding avail
  numeric-bound s small h = elim (Bool-cases (leb k_max_numeric_size (k_small_buffer - length b))) [
    | inl room ↦ rw room (ground (arith, length-append b s))
    | inr full ↦ rw full h
  ]

  insert_item-bound :
      (x : Item)
      → IsPrinted x
      → length b ≤ k_small_buffer
      → length (insert_item x b) ≤ k_small_buffer
  unfolding insert_item format_integer
  insert_item-bound (flag true) p h = put-bound (codes "true ") h
  insert_item-bound (flag false) p h = put-bound (codes "false") h
  insert_item-bound (integer v) p h =
      numeric-bound (convert v) (omega (arith, length-convert v p)) h
  insert_item-bound (floating s) p h = numeric-bound s p h
  insert_item-bound (char c) p h = put-bound (c ∷ []) h
  insert_item-bound (text s) p h = put-bound s h
  insert_item-bound null_text p h = put-bound (codes "(null)") h

insert_items-fits :
    (xs : List Item) (b : Buffer)
    → length b + length (shown_all xs) + k_max_numeric_size ≤ k_small_buffer
    → insert_items xs b ≡ b ++ shown_all xs
unfolding insert_items
insert_items-fits [] b h = sym (append-nil b)
insert_items-fits (x ∷ xs) b h =
    let size = length-append (shown x) (shown_all xs) in
    let first = insert_item-fits b x (omega (arith, size)) in
    ap (insert_items xs) first
    ∙ insert_items-fits xs (b ++ shown x) (omega (arith, size, length-append b (shown x)))
    ∙ append_assoc b (shown x) (shown_all xs)

insert_items-bound :
    (xs : List Item) (b : Buffer)
    → All IsPrinted xs
    → length b ≤ k_small_buffer
    → length (insert_items xs b) ≤ k_small_buffer
unfolding insert_items
insert_items-bound [] b p h = h
insert_items-bound (x ∷ xs) b p h =
    insert_items-bound xs (insert_item x b) p.1 (insert_item-bound b x p.0 h)

-- A line of operands of at most 64 bits, however many and long, stays within the 4000 bytes of the
-- stream's buffer.
pub log_line-bound :
    (date : List ℕ) (items : List Item) (basename : List ℕ) (line : ℕ)
    → All IsPrinted items
    → line < 2 ^ 64
    → length (log_line date items basename line) ≤ 4000
unfolding log_line
log_line-bound date items basename line p small =
    let start = insert_item-bound [] (text date) tt (omega arith) in
    insert_items-bound (trailer basename line) _ (tt, (tt, (tt, (small, (tt, tt)))))
      (insert_items-bound items (insert_item (text date) []) p start)

-- A line whose texts leave 32 bytes of the buffer free is exactly these texts: the date, the
-- operands, with numbers in decimal, and the file's name and line.
pub log_line-shown :
    (date : List ℕ) (items : List Item) (basename : List ℕ) (line : ℕ)
    → length date + length (shown_all items) + length (shown_all (trailer basename line)) + 32
      ≤ 4000
    → log_line date items basename line
      ≡ date
        ++ (shown_all items ++ (codes " -- " ++ (basename ++ (b':' ∷ (decimal line ++ (10 ∷ []))))))
unfolding log_line
log_line-shown date items basename line fits =
    let start = insert_item-fits [] (text date) (omega arith) in
    let middle = insert_items-fits items date (omega arith) in
    let end =
      insert_items-fits (trailer basename line) (date ++ shown_all items)
        (omega (arith, length-append date (shown_all items))) in
    ap (λ (b : Buffer). insert_items (trailer basename line) (insert_items items b)) start
    ∙ ap (insert_items (trailer basename line)) middle
    ∙ end
    ∙ append_assoc date (shown_all items) _
