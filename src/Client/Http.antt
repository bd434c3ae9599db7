-- ===== src/Client/Http.antt =====
-- The texts of the handshake in src/websocket-client.cc: webSocket_buildHttpHead,
-- webSocket_buildHttpRespond and what the code takes out of such texts with strstr and sscanf. A
-- text is the list of its bytes before the closing '\0'; a buffer it overflows is a fault.
pub mod Search
use dog_server.Base.{
  ℕ, suc, Bool, true, false, ◌&&◌, ◌||◌, Option, none, some, List, [], ◌∷◌, ◌++◌, ltb, leb, ◌==◌,
  if◌then◌else◌, length, drop, codes, decimal,
}
use dog_server.Client.Keys.{build_respond_shake_key}

abbrev pub crlf : List ℕ
crlf = 13 ∷ 10 ∷ []

-- strncmp(text, word, strlen(word)) == 0.
unfoldable pub starts_with : List ℕ → List ℕ → Bool
starts_with [] text = true
starts_with (c ∷ word) [] = false
starts_with (c ∷ word) (d ∷ text) = c == d && starts_with word text

-- The text from the first place on where `word` stands.
unfoldable pub strstr : List ℕ → List ℕ → Option (List ℕ)
unfolding starts_with
strstr [] word = if starts_with word [] then some [] else none
strstr (c ∷ text) word =
    let later = strstr text word in if starts_with word (c ∷ text) then some (c ∷ text) else later

abbrev pub is_space : ℕ → Bool
is_space c = c == 32 || (leb 9 c && leb c 13)

-- "%s": the bytes that are no space, behind the leading spaces.
unfoldable pub skip_spaces : List ℕ → List ℕ
skip_spaces [] = []
skip_spaces (c ∷ text) = let rest = skip_spaces text in if is_space c then rest else c ∷ text

unfoldable pub word_of : List ℕ → List ℕ
word_of [] = []
word_of (c ∷ text) = let rest = word_of text in if is_space c then [] else c ∷ rest

abbrev pub scan : List ℕ → List ℕ
scan text = word_of (skip_spaces text)

-- webSocket_buildHttpHead.
unfoldable pub build_http_head : List ℕ → ℕ → List ℕ → List ℕ → List ℕ
build_http_head ip port interface_path shake_key =
    codes "GET "
    ++ (interface_path
        ++ (codes " HTTP/1.1"
            ++ (crlf
                ++ (codes "Connection: Upgrade"
                    ++ (crlf
                        ++ (codes "Host: "
                            ++ (ip
                                ++ (codes ":"
                                    ++ (decimal port
                                        ++ (crlf
                                            ++ (codes "Sec-WebSocket-Key: "
                                                ++ (shake_key
                                                    ++ (crlf
                                                        ++ (codes "Sec-WebSocket-Version: 13"
                                                            ++ (crlf
                                                            ++ (codes "Upgrade: websocket"
                                                            ++ (crlf ++ crlf)))))))))))))))))

-- webSocket_buildHttpRespond; `date` is what strftime gives.
abbrev pub respond_text : List ℕ → List ℕ → List ℕ
respond_text date key =
    codes "HTTP/1.1 101 Switching Protocols"
    ++ (crlf
        ++ (codes "Upgrade: websocket"
            ++ (crlf
                ++ (codes "Server: Microsoft-HTTPAPI/2.0"
                    ++ (crlf
                        ++ (codes "Connection: Upgrade"
                            ++ (crlf
                                ++ (codes "Sec-WebSocket-Accept: "
                                    ++ (key ++ (crlf ++ (date ++ (crlf ++ crlf))))))))))))

abbrev pub with_key : List ℕ → Option (List ℕ) → Option (List ℕ)
with_key date none = none
with_key date (some key) = some (respond_text date key)

unfoldable pub build_http_respond : List ℕ → List ℕ → Option (List ℕ)
build_http_respond date accept_key = with_key date (build_respond_shake_key accept_key)

-- What webSocket_serverLinkToClient does: return -1, send, or leave the bounds of a buffer.
pub data Reply : Type 0 where
  rejects : Reply
  sends : List ℕ → Reply
  fault : Reply

abbrev pub key_name : List ℕ
key_name = codes "Sec-WebSocket-Key: "

abbrev pub reply_with : Option (List ℕ) → Reply
reply_with none = fault
reply_with (some text) = if ltb (length text) 1024 then sends text else fault

abbrev pub reply_to : List ℕ → List ℕ → Reply
reply_to date key =
    if leb 512 (length key)
    then fault
    else if ltb (length key) 1
    then rejects
    else reply_with (build_http_respond date key)

abbrev pub reply_at : List ℕ → Option (List ℕ) → Reply
reply_at date none = rejects
reply_at date (some p) = reply_to date (scan (drop (length key_name) p))

-- webSocket_serverLinkToClient, up to its send.
unfoldable pub server_link_to_client : List ℕ → List ℕ → Reply
server_link_to_client date recv_buf = reply_at date (strstr recv_buf key_name)
