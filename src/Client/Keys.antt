-- ===== src/Client/Keys.antt =====
-- The keys of the handshake in src/websocket-client.cc: tolower, htoi, the text that sha1_hash
-- prints, webSocket_buildShakeKey, webSocket_buildRespondShakeKey and webSocket_matchShakeKey. A
-- text is the list of its bytes before the closing '\0'.
pub mod Hex
pub mod Digests
use dog_server.Base.{
  ℕ, zero, suc, ◌+◌, ◌-◌, ◌*◌, ◌/◌, ◌%◌, Bool, true, false, ◌&&◌, ◌||◌, Option, none, some, List,
  [], ◌∷◌, ◌++◌, ltb, leb, ◌==◌, if◌then◌else◌, length, drop, codes, str_eq, c_str, u8,
}
use dog_server.Client.Frame.{get_random_string}
use dog_server.Client.Base64.{base64_encode}
use dog_server.Client.Sha1.{Digest, word_bytes, sha1_hash}

unfoldable pub tolower : ℕ → ℕ
tolower c = if leb b'A' c && leb c b'Z' then c + b'a' - b'A' else c

abbrev pub is_hex : ℕ → Bool
is_hex c = (leb b'0' c && leb c b'9') || (leb b'a' c && leb c b'f') || (leb b'A' c && leb c b'F')

unfoldable pub digit_value : ℕ → ℕ
unfolding tolower
digit_value c = if ltb b'9' (tolower c) then 10 + tolower c - b'a' else tolower c - b'0'

-- The loop of htoi over at most `len` digits; the '\0' behind the text is no digit.
unfoldable pub htoi_loop : ℕ → List ℕ → ℕ → ℕ
htoi_loop zero s n = n
htoi_loop (suc left) [] n = n
htoi_loop (suc left) (c ∷ s) n =
    let more = htoi_loop left s (16 * n + digit_value c) in if is_hex c then more else n

-- Where the digits start, behind a leading 0x or 0X.
unfoldable pub hex_start : List ℕ → ℕ
hex_start (c ∷ d ∷ s) = if c == b'0' && (d == b'x' || d == b'X') then 2 else 0
hex_start _ = 0

unfoldable pub htoi : List ℕ → ℕ → ℕ → ℕ
htoi s start len = htoi_loop len (drop (start + hex_start s) s) 0

-- A digit as "%X" prints it, and the bytes of a text as two digits each.
unfoldable pub hex_digit : ℕ → ℕ
hex_digit x = if ltb x 10 then b'0' + x else b'A' + (x - 10)

unfoldable pub hex_text : List ℕ → List ℕ
hex_text [] = []
hex_text (b ∷ bs) = hex_digit (b / 16) ∷ hex_digit (b % 16) ∷ hex_text bs

abbrev pub digest_bytes : Digest → List ℕ
digest_bytes x =
    word_bytes x.a ++ (word_bytes x.b ++ (word_bytes x.c ++ (word_bytes x.d ++ word_bytes x.e)))

-- "%08X%08X%08X%08X%08X".
abbrev pub digest_text : Digest → List ℕ
digest_text x = hex_text (digest_bytes x)

-- The loop that turns every two digits of `text` into a byte, from position `i` on.
unfoldable pub bytes_of_text : List ℕ → ℕ → ℕ → List ℕ
bytes_of_text text i zero = []
bytes_of_text text i (suc left) = u8 (htoi text i 2) ∷ bytes_of_text text (i + 2) left

abbrev pub guid : List ℕ
guid = codes "258EAFA5-E914-47DA-95CA-C5AB0DC85B11"

abbrev pub key_of_digest : Option Digest → Option (List ℕ)
key_of_digest none = none
key_of_digest (some x) =
    some (base64_encode (bytes_of_text (digest_text x) 0 (length (digest_text x) / 2)))

-- webSocket_buildRespondShakeKey; `none` where sha1_hash gives NULL.
unfoldable pub build_respond_shake_key : List ℕ → Option (List ℕ)
build_respond_shake_key accept_key = key_of_digest (sha1_hash (c_str (accept_key ++ guid)))

abbrev pub matches_key : Option (List ℕ) → List ℕ → Option Bool
matches_key none accept_key = none
matches_key (some built) accept_key =
    some (length built == length accept_key && str_eq (c_str built) (c_str accept_key))

-- webSocket_matchShakeKey, 0 as `true` and -1 as `false`.
unfoldable pub match_shake_key : List ℕ → List ℕ → Option Bool
match_shake_key my_key accept_key = matches_key (build_respond_shake_key my_key) accept_key

abbrev pub shake_key_len : ℕ
shake_key_len = 16

-- webSocket_buildShakeKey.
unfoldable pub build_shake_key : (ℕ → ℕ) → List ℕ
build_shake_key rand = base64_encode (get_random_string rand 0 shake_key_len)
