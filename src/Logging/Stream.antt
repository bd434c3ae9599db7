-- ===== src/Logging/Stream.antt =====
-- LogStream (src/log-stream.h, src/log-stream.cc) and the line that Logger (src/logging.cc) builds
-- with it.
pub mod Numbers
pub mod Lines
use dog_server.Base.{
  ℕ, zero, suc, ◌+◌, ◌-◌, ◌/◌, ◌%◌, ◌<◌, Bool, true, false, Option, none, some, List, [], ◌∷◌, ◌++◌,
  reverse, ltb, leb, ◌==◌, if◌then◌else◌, length, get_or, codes,
}
use dog_server.Logging.Async.{Buffer, avail, put}

-- The machine's signed and unsigned numbers: n, or -(n + 1).
pub data ℤ : Type 0 where
  pos negsuc : ℕ → ℤ

abbrev pub minus : ℕ → ℤ
minus zero = pos zero
minus (suc n) = negsuc n

-- Division and remainder by ten as C has them, towards zero.
abbrev pub quot : ℤ → ℤ
quot (pos n) = pos (n / 10)
quot (negsuc n) = minus (suc n / 10)

abbrev pub rem : ℤ → ℤ
rem (pos n) = pos (n % 10)
rem (negsuc n) = minus (suc n % 10)

abbrev pub digits : List ℕ
digits = codes "9876543210123456789"

-- zero[lsd], where zero = digits + 9.
unfoldable pub zero_at : ℤ → ℕ
zero_at (pos n) = get_or digits (9 + n) 0
zero_at (negsuc n) = get_or digits (8 - n) 0

abbrev pub is_zero : ℤ → Bool
is_zero (pos n) = n == 0
is_zero (negsuc n) = false

abbrev pub is_negative : ℤ → Bool
is_negative (pos n) = false
is_negative (negsuc n) = true

-- The loop of convert, what *p++ stores last standing first.
unfoldable pub convert_loop : ℕ → ℤ → List ℕ → List ℕ
convert_loop zero i buf = buf
convert_loop (suc fuel) i buf =
    let more = convert_loop fuel (quot i) (zero_at (rem i) ∷ buf) in
    if is_zero (quot i) then zero_at (rem i) ∷ buf else more

abbrev pub magnitude : ℤ → ℕ
magnitude (pos n) = n
magnitude (negsuc n) = suc n

-- convert, with the sign put behind the digits and everything reversed.
unfoldable pub convert : ℤ → List ℕ
convert value =
    let stored = convert_loop (suc (magnitude value)) value [] in
    if is_negative value then b'-' ∷ stored else stored

abbrev pub k_max_numeric_size : ℕ
k_max_numeric_size = 32

abbrev pub k_small_buffer : ℕ
k_small_buffer = 4000

-- buffer_.add behind what was written at buffer_.current().
unfoldable pub format_integer : ℤ → Buffer → Buffer
format_integer v b = if leb k_max_numeric_size (avail k_small_buffer b) then b ++ convert v else b

-- The operands of <<. A floating number is its text by snprintf, cut at 31 bytes.
pub data Item : Type 0 where
  flag : Bool → Item
  integer : ℤ → Item
  floating : List ℕ → Item
  char : ℕ → Item
  text : List ℕ → Item
  null_text : Item

unfoldable pub insert_item : Item → Buffer → Buffer
insert_item (flag true) b = put k_small_buffer (codes "true ") b
insert_item (flag false) b = put k_small_buffer (codes "false") b
insert_item (integer v) b = format_integer v b
insert_item (floating s) b = if leb k_max_numeric_size (avail k_small_buffer b) then b ++ s else b
insert_item (char c) b = put k_small_buffer (c ∷ []) b
insert_item (text s) b = put k_small_buffer s b
insert_item null_text b = put k_small_buffer (codes "(null)") b

unfoldable pub insert_items : List Item → Buffer → Buffer
insert_items [] b = b
insert_items (x ∷ xs) b = insert_items xs (insert_item x b)

-- What the constructor of Logger writes, `date` being the text of formatTime, what the caller
-- writes, and what the destructor writes; the stream is what is given to output.
abbrev pub trailer : List ℕ → ℕ → List Item
trailer basename line =
    text (codes " -- ") ∷ text basename ∷ char b':' ∷ integer (pos line) ∷ char 10 ∷ []

unfoldable pub log_line : List ℕ → List Item → List ℕ → ℕ → Buffer
log_line date items basename line =
    insert_items (trailer basename line) (insert_items items (insert_item (text date) []))
