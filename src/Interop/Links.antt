-- ===== src/Interop/Links.antt =====
-- The handshake between the two sides: webSocket_clientLinkToServer against handleRead.
use dog_server.Base.{
  ℕ, ◌+◌, ◌^◌, ◌<◌, ◌≤◌, ◌≡◌, ◌≢◌, refl, ap, ◌∙◌, Bool, true, false, some, List, [], ◌∷◌, ◌++◌,
  append_assoc, length, length-append, All, All-append, NoZero, IsWord, IsWord-NoZero, c_str,
  c_str_lem, IsBytes, codes, decimal, decimal-IsDigit, str_eq, arith,
}
use dog_server.Client.Base64.Standard.{standard_base64}
use dog_server.Client.Sha1.Standard.{standard_digest, digest_octets}
use dog_server.Client.Keys.{guid, build_shake_key}
use dog_server.Client.Keys.Digests.{
  digest_octets-IsBytes, guid-NoZero, standard_answer, standard_answer-IsWord,
  length-standard_answer,
}
use dog_server.Client.Http.{starts_with, strstr, build_http_head}
use dog_server.Client.Link.{
  Recv, got, nothing, accepts, accept_name, reply_round, linked, client_link_to_server,
}
use dog_server.Client.Link.Ready.{Waits, client_link_to_server-linked}
use dog_server.Server.Socket.{Socket}
use dog_server.Server.Send.{WriteCall}
use dog_server.Server.Send.Write.{taken, Retries}
use dog_server.Server.Connection.{state_head, state_data, Connection, returns, handle_read}
use dog_server.Server.Connection.Handshake.{GoesOn, gathered, touched, handle_read-http_text}
use dog_server.Client.Link.Accept.{
  reply_round-standard_answer, build_shake_key-IsWord, length-build_shake_key,
}
use dog_server.Server.Http.{
  HeadRead, eagain, Headers, insert, lookup, cr, lf, parsed, parse_head, accept_key, response,
}
use dog_server.Server.Http.Fields.{Without, IsField, http_text, insert_all, parse_head-http_text}

abbrev pub request_line : List ℕ → List ℕ
request_line path = codes "GET " ++ (path ++ codes " HTTP/1.1")

abbrev pub head_fields : List ℕ → ℕ → List ℕ → Headers
head_fields ip port key =
    (codes "Connection", codes "Upgrade")
    ∷ (codes "Host", ip ++ (58 ∷ decimal port))
    ∷ (codes "Sec-WebSocket-Key", key)
    ∷ (codes "Sec-WebSocket-Version", codes "13")
    ∷ (codes "Upgrade", codes "websocket")
    ∷ []

-- webSocket_buildHttpHead writes a well-formed request.
build_http_head-http_text :
    (ip : List ℕ) (port : ℕ) (path key : List ℕ)
    → build_http_head ip port path key ≡ http_text (request_line path) (head_fields ip port key)
unfolding build_http_head
build_http_head-http_text ip port path key = simp append_assoc

abbrev pub stored : List ℕ → ℕ → List ℕ → Headers
stored ip port key = insert_all (head_fields ip port key) []

lookup-stored :
    (ip : List ℕ) (port : ℕ) (key : List ℕ)
    → lookup (codes "Sec-WebSocket-Key") (stored ip port key) ≡ key
unfolding lookup insert str_eq
lookup-stored ip port key = refl

digits-Without : (xs : List ℕ) → All (λ (c : ℕ). (48 ≤ c) × (c ≤ 57)) xs → Without lf xs
digits-Without [] h = tt
digits-Without (c ∷ xs) h = (ground (arith, h.0), digits-Without xs h.1)

word-Without : (xs : List ℕ) → IsWord xs → Without lf xs
word-Without [] h = tt
word-Without (c ∷ xs) h = (ground (arith, h.0), word-Without xs h.1)

head_fields-IsField :
    (ip : List ℕ) (port : ℕ) (key : List ℕ)
    → Without lf ip
    → IsWord key
    → All IsField (head_fields ip port key)
head_fields-IsField ip port key h k =
    let host : Without lf (ip ++ (58 ∷ decimal port)) =
      All-append (λ (c : ℕ). c ≢ lf) ip (58 ∷ decimal port) h
        ((λ e. ground arith), digits-Without (decimal port) (decimal-IsDigit port)) in
    let key_line = word-Without key k in ground (arith, host, key_line)

request_line-Without : (path : List ℕ) → Without lf path → Without lf (request_line path)
request_line-Without path h =
    let version : Without lf (codes " HTTP/1.1") = ground arith in
    let end = All-append (λ (c : ℕ). c ≢ lf) path (codes " HTTP/1.1") h version in
    ground (arith, end)

-- The bytes of the response in front of the answer, and behind it.
abbrev before_answer : List ℕ
before_answer =
    codes "HTTP/1.1 101 Switching Protocols"
    ++ (cr ∷ lf ∷ codes "Connection: upgrade" ++ (cr ∷ lf ∷ []))

abbrev after_answer : List ℕ
after_answer = lf ∷ codes "Upgrade: websocket" ++ (cr ∷ lf ∷ cr ∷ lf ∷ [])

abbrev answer_text : List ℕ → List ℕ
answer_text answer = before_answer ++ (accept_name ++ (answer ++ (cr ∷ after_answer)))

strstr-answer_text :
    (answer : List ℕ)
    → strstr (answer_text answer) accept_name
      ≡ some (accept_name ++ (answer ++ (cr ∷ after_answer)))
unfolding strstr starts_with
strstr-answer_text answer = refl

answer_text-NoZero : (answer : List ℕ) → NoZero answer → NoZero (answer_text answer)
answer_text-NoZero answer h =
    let tail : NoZero (cr ∷ after_answer) = ground arith in
    let rest = All-append (λ (c : ℕ). c ≢ 0) answer (cr ∷ after_answer) h tail in
    ground (arith, rest)

module _ (sha1 encode : List ℕ → List ℕ)
    (digests : (bytes : List ℕ)
      → length bytes < 2 ^ 28
      → sha1 bytes ≡ digest_octets (standard_digest bytes))
    (encodes : (bytes : List ℕ) → IsBytes bytes → encode bytes ≡ standard_base64 bytes) where
  accept_key-stored :
      (ip : List ℕ) (port : ℕ) (key : List ℕ)
      → IsWord key
      → length key < 2 ^ 27
      → accept_key sha1 encode (stored ip port key) ≡ standard_answer key
  accept_key-stored ip port key word small =
      let text : c_str (lookup (codes "Sec-WebSocket-Key") (stored ip port key) ++ guid)
          ≡ key ++ guid =
        ap (λ (t : List ℕ). c_str (t ++ guid)) (lookup-stored ip port key)
        ∙ c_str_lem (key ++ guid)
            (All-append (λ (c : ℕ). c ≢ 0) key guid (IsWord-NoZero key word) guid-NoZero) in
      ap (λ (t : List ℕ). encode (sha1 t)) text
      ∙ ap encode (digests (key ++ guid) (omega (arith, length-append key guid)))
      ∙ encodes _ (digest_octets-IsBytes (standard_digest (key ++ guid)))

  response-answer_text :
      (ip : List ℕ) (port : ℕ) (key : List ℕ)
      → IsWord key
      → length key < 2 ^ 27
      → response sha1 encode (codes "101") (stored ip port key) ≡ answer_text (standard_answer key)
  unfolding response
  response-answer_text ip port key word small =
      ap (λ (t : List ℕ). before_answer ++ (accept_name ++ (t ++ (cr ∷ after_answer))))
        (accept_key-stored ip port key word small)

  reply_round-response :
      (ip : List ℕ) (port : ℕ) (key : List ℕ)
      → IsWord key
      → length key < 2 ^ 27
      → reply_round key (got (response sha1 encode (codes "101") (stored ip port key))) ≡ accepts
  reply_round-response ip port key word small =
      let answer = standard_answer key in
      ap (λ (t : List ℕ). reply_round key (got t)) (response-answer_text ip port key word small)
      ∙ reply_round-standard_answer key word (omega arith) (answer_text answer) after_answer
          (answer_text-NoZero answer (IsWord-NoZero answer (standard_answer-IsWord key)))
          (omega (arith, length-append answer (cr ∷ after_answer), length-standard_answer key))
          (unfold starts_with in refl) (strstr-answer_text answer)

  -- Where the server's digest and base64 are the standard's: whatever the random bytes, the address
  -- and the path (both without a line feed), the server's parseHead takes the request of
  -- webSocket_buildHttpHead with all its fields, and the client's round accepts the response with
  -- status 101 that the server writes for these fields.
  pub parse_head-build_http_head :
      (rand : ℕ → ℕ) (ip : List ℕ) (port : ℕ) (path : List ℕ)
      → Without lf ip
      → Without lf path
      → let key = build_shake_key rand in
        (fields : Headers) × (parse_head (build_http_head ip port path key) [] ≡ parsed fields)
        × (reply_round key (got (response sha1 encode (codes "101") fields)) ≡ accepts)
  parse_head-build_http_head rand ip port path h k =
      let key = build_shake_key rand in
      let word = build_shake_key-IsWord rand in
      (
        stored ip port key,
        ap (λ (t : List ℕ). parse_head t []) (build_http_head-http_text ip port path key)
            ∙ parse_head-http_text (request_line path) (head_fields ip port key) []
                (request_line-Without path k) (head_fields-IsField ip port key h word),
        reply_round-response ip port key word (omega (arith, length-build_shake_key rand)),
      )

  -- The whole handshake, where the server's digest and base64 are the standard's and the address
  -- and the path are without a line feed. Reads that gather the client's request, in any pieces,
  -- before the server's socket is empty, and writes that take 512 bytes, lead handleRead of a
  -- connection in the state HEAD without headers to the state DATA, with a response sent. The
  -- client that connects after `tries` failures and gets this response from recv after `wait` calls
  -- without data, in time, and whose request fits its buffer, returns the handle after one request.
  pub handshake :
      (socket : Socket) (format_json : List ℕ → ℕ → List ℕ) (reads later : List HeadRead)
      (respond packet end error : List WriteCall) (c : Connection socket.State) (rand : ℕ → ℕ)
      (ip : List ℕ) (port : ℕ) (path : List ℕ) (connects : ℕ → Bool) (recvs : ℕ → Recv)
      (fuel tries wait : ℕ)
      → Without lf ip
      → Without lf path
      → All GoesOn reads
      → gathered reads ≡ build_http_head ip port path (build_shake_key rand)
      → All Retries respond
      → 512 ≤ taken respond
      → Waits false connects 0 tries
      → connects tries ≡ true
      → tries ≤ 1000
      → Waits nothing recvs tries wait
      → recvs (tries + wait)
        ≡ got (response sha1 encode (codes "101") (stored ip port (build_shake_key rand)))
      → tries + wait ≤ 2000
      → tries + wait < fuel
      → length (build_http_head ip port path (build_shake_key rand)) < 512
      → let fields = stored ip port (build_shake_key rand) in
        (handle_read socket sha1 encode format_json
            record {
              head_reads = reads ++ (eagain ∷ later);
              respond_writes = respond;
              packet_writes = packet;
              end_writes = end;
              error_writes = error;
            }
            (record c { state_ = state_head; headers_ = [] })
          ≡ returns true (record c {
            state_ = state_data;
            headers_ = touched fields;
            sent = c.sent ++ response sha1 encode (codes "101") fields;
            this_conn_bytes_ = 0;
          }))
        × (client_link_to_server connects recvs rand ip port path fuel ≡ linked 1)
  handshake socket format_json reads later respond packet end error c rand ip port path connects
        recvs fuel tries wait h k g e w t waits ready in_time silent reply_is l enough fits =
      let key = build_shake_key rand in
      let word = build_shake_key-IsWord rand in
      let short = length-build_shake_key rand in
      let answer = standard_answer key in
      let same = ap length (response-answer_text ip port key word (omega (arith, short))) in
      let size : length (response sha1 encode (codes "101") (stored ip port key)) ≤ 512 =
        omega (arith, same, length-append answer (cr ∷ after_answer), length-standard_answer key) in
      (
        handle_read-http_text socket sha1 encode format_json reads later (request_line path)
            (head_fields ip port key) respond packet end error (record c { headers_ = [] }) g
            (e ∙ build_http_head-http_text ip port path key) (request_line-Without path k)
            (head_fields-IsField ip port key h word) w (omega (arith, size, t)),
        client_link_to_server-linked connects recvs rand ip port path fuel tries wait waits ready
            in_time silent
            (ap (reply_round key) reply_is
              ∙ reply_round-response ip port key word (omega (arith, short)))
            l enough fits,
      )
