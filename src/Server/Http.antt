-- ===== src/Server/Http.antt =====
-- The handshake of src/websocket-data.cc: readAndParseHead, parseHead, sendRespond and
-- sendErrorRespond. A text is the list of its bytes.
pub mod Fields
use dog_server.Base.{
  ℕ, ◌+◌, ◌&&◌, Bool, Option, none, some, List, [], ◌∷◌, ◌++◌, reverse, ◌==◌, if◌then◌else◌, codes,
  str_eq, c_str,
}
use dog_server.Server.Packet.{Error, error_no, error_parse_head, error_client_close}

-- One call of read in readAndParseHead. `got` holds at least one byte; 0 is the end of the
-- stream, and the others are -1 with `errno`.
pub data HeadRead : Type 0 where
  got : List ℕ → HeadRead
  end_of_stream eintr eagain other_errno : HeadRead

-- headers_, the latest value of a key first in no order.
abbrev pub Headers : Type 0
Headers = List (List ℕ × List ℕ)

-- headers_[key] = value.
unfoldable pub insert : List ℕ → List ℕ → Headers → Headers
insert key value [] = (key, value) ∷ []
insert key value ((other, old) ∷ more) =
    let further = insert key value more in
    if str_eq key other then (other, value) ∷ more else (other, old) ∷ further

-- headers_[key], which is empty where there is none.
unfoldable pub lookup : List ℕ → Headers → List ℕ
lookup key [] = []
lookup key ((other, value) ∷ more) =
    let further = lookup key more in if str_eq key other then value else further

-- How parsing ends: 0, -1 with `error_` set, or an index before the start of a string.
pub data Parsed : Type 0 where
  parsed : Headers → Parsed
  refused : Error → Headers → Parsed
  fault : Parsed

abbrev pub cr : ℕ
cr = 13

abbrev pub lf : ℕ
lf = 10

-- The test of head[head_size - 1], head[head_size - 2] and so on, on the head backwards.
pub data Tail : Type 0 where
  reached not_reached outside : Tail

unfoldable pub tail_is : List ℕ → List ℕ → Tail
tail_is [] cs = reached
tail_is (e ∷ es) [] = outside
tail_is (e ∷ es) (c ∷ cs) = if c == e then tail_is es cs else not_reached

-- What std::getline gives, call after call, until it fails.
abbrev pub put_front : ℕ → List (List ℕ) → List (List ℕ)
put_front c [] = (c ∷ []) ∷ []
put_front c (l ∷ ls) = (c ∷ l) ∷ ls

unfoldable pub get_lines : List ℕ → List (List ℕ)
get_lines [] = []
get_lines (c ∷ cs) = if c == lf then [] ∷ get_lines cs else put_front c (get_lines cs)

-- A line without its last character, and that character.
unfoldable pub split_last : List ℕ → Option (List ℕ × ℕ)
split_last [] = none
split_last (c ∷ cs) = elim (split_last cs) [
  | none ↦ some ([], c)
  | some (before, last) ↦ some (c ∷ before, last)
]

-- header.find(": "): what stands before it and behind it.
unfoldable pub find_colon : List ℕ → Option (List ℕ × List ℕ)
find_colon [] = none
find_colon (c ∷ []) = none
find_colon (c ∷ d ∷ cs) =
    let later = find_colon (d ∷ cs) in
    if c == 58 && d == 32
    then some ([], cs)
    else elim later [ none ↦ none | some (key, value) ↦ some (c ∷ key, value) ]

abbrev pub add_field : Option (List ℕ × List ℕ) → Headers → Headers
add_field none headers = headers
add_field (some (key, value)) headers = insert key value headers

-- The loop over the header lines.
unfoldable pub parse_lines : List (List ℕ) → Headers → Parsed
parse_lines [] headers = parsed headers
parse_lines (line ∷ lines) headers =
    let skip = parse_lines lines headers in
    let next = λ (before : List ℕ). parse_lines lines (add_field (find_colon before) headers) in
    if str_eq line (cr ∷ []) then parsed headers else elim (split_last line) [
      | none ↦ fault
      | some (before, last) ↦ if last == cr then next before else skip
    ]

unfoldable pub parse_request : List (List ℕ) → Headers → Parsed
parse_request [] headers = fault
parse_request (request ∷ lines) headers = elim (split_last request) [
  | none ↦ fault
  | some (before, last) ↦
      if last == cr then parse_lines lines headers else refused error_parse_head headers
]

abbrev pub by_tail : Tail → List ℕ → Headers → Parsed
by_tail outside head headers = fault
by_tail not_reached head headers = refused error_parse_head headers
by_tail reached head headers = parse_request (get_lines head) headers

unfoldable pub parse_head : List ℕ → Headers → Parsed
parse_head head headers = by_tail (tail_is (lf ∷ cr ∷ lf ∷ cr ∷ []) (reverse head)) head headers

-- The reading loop, over its calls of read; `none` if it goes on to read.
unfoldable pub read_and_parse_head : List HeadRead → List ℕ → Headers → Option Parsed
read_and_parse_head [] in_buffer headers = none
read_and_parse_head (got xs ∷ reads) in_buffer headers =
    read_and_parse_head reads (in_buffer ++ xs) headers
read_and_parse_head (end_of_stream ∷ reads) in_buffer headers =
    some (refused error_client_close headers)
read_and_parse_head (eintr ∷ reads) in_buffer headers = read_and_parse_head reads in_buffer headers
read_and_parse_head (eagain ∷ reads) in_buffer headers = some (parse_head in_buffer headers)
read_and_parse_head (other_errno ∷ reads) in_buffer headers =
    some (refused error_parse_head headers)

-- The response, with the digest of SHA-1 in network order and base64 as arguments: both are
-- other projects' code. `status` is the text between the version and the first line's end.
module _ (sha1 : List ℕ → List ℕ) (base64_encode : List ℕ → List ℕ) where
  abbrev pub accept_key : Headers → List ℕ
  accept_key headers = base64_encode (
      sha1 (
        c_str (
          lookup (codes "Sec-WebSocket-Key") headers
          ++ codes "258EAFA5-E914-47DA-95CA-C5AB0DC85B11")))

  unfoldable pub response : List ℕ → Headers → List ℕ
  response status headers =
      codes "HTTP/1.1 "
      ++ (status
          ++ (codes " Switching Protocols"
              ++ (cr ∷ lf ∷ codes "Connection: upgrade"
                  ++ (cr ∷ lf ∷ codes "Sec-WebSocket-Accept: "
                      ++ (accept_key headers
                          ++ (cr ∷ lf ∷ codes "Upgrade: websocket" ++ (cr ∷ lf ∷ cr ∷ lf ∷ [])))))))
