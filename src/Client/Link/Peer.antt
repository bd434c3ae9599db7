-- ===== src/Client/Link/Peer.antt =====
-- webSocket_serverLinkToClient on the request of webSocket_buildHttpHead.
use dog_server.Base.{
  ℕ, ◌^◌, ◌≤◌, ◌<◌, ◌≡◌, ◌≢◌, refl, ap, ◌∙◌, true, false, some, List, [], ◌∷◌, ◌++◌, append_assoc,
  length, length-append, All, All-append, NoZero, IsWord, IsWord-NoZero, codes, decimal,
  decimal-IsDigit, leb, ltb, lt→ltb, arith,
}
use dog_server.Client.Keys.{build_shake_key}
use dog_server.Client.Keys.Digests.{
  standard_answer, standard_answer-IsWord, length-standard_answer,
  build_respond_shake_key-standard_answer,
}
use dog_server.Client.Http.{
  starts_with, strstr, crlf, build_http_head, respond_text, build_http_respond, sends, key_name,
  reply_to, reply_at, server_link_to_client,
}
use dog_server.Client.Http.Search.{has, strstr-line, strstr-append, scan-append}
use dog_server.Client.Link.{got, accepts, reply_round}
use dog_server.Client.Link.Accept.{
  build_shake_key-IsWord, length-build_shake_key, reply_round-standard_answer,
}

abbrev Lacks : ℕ → List ℕ → Type 0
Lacks b xs = All (λ (c : ℕ). c ≢ b) xs

-- A dotted address.
abbrev pub IsAddress : List ℕ → Type 0
IsAddress ip = All (λ (c : ℕ). (b'.' ≤ c) × (c ≤ b'9')) ip

abbrev letter_k : ℕ
letter_k = b'K'

address-Lacks : (ip : List ℕ) → IsAddress ip → Lacks letter_k ip
address-Lacks [] h = tt
address-Lacks (c ∷ ip) h = (ground (arith, h.0), address-Lacks ip h.1)

digits-Lacks : (xs : List ℕ) → All (λ (c : ℕ). (48 ≤ c) × (c ≤ 57)) xs → Lacks letter_k xs
digits-Lacks [] h = tt
digits-Lacks (c ∷ xs) h = (ground (arith, h.0), digits-Lacks xs h.1)

-- The request, line by line, and what stands behind its key.
abbrev line1 : List ℕ → List ℕ
line1 path = codes "GET " ++ (path ++ (codes " HTTP/1.1" ++ (13 ∷ [])))

abbrev line2 : List ℕ
line2 = codes "Connection: Upgrade" ++ (13 ∷ [])

abbrev line3 : List ℕ → ℕ → List ℕ
line3 ip port = codes "Host: " ++ (ip ++ (58 ∷ (decimal port ++ (13 ∷ []))))

abbrev behind_key : List ℕ
behind_key =
    10 ∷ codes "Sec-WebSocket-Version: 13"
    ++ (crlf ++ (codes "Upgrade: websocket" ++ (crlf ++ crlf)))

head-lines :
    (ip : List ℕ) (port : ℕ) (path key : List ℕ)
    → build_http_head ip port path key
      ≡ line1 path
        ++ (10
            ∷ (line2 ++ (10 ∷ (line3 ip port ++ (10 ∷ (key_name ++ (key ++ (13 ∷ behind_key))))))))
unfolding build_http_head
head-lines ip port path key = simp append_assoc

line1-Lacks : (path : List ℕ) → Lacks 58 path → Lacks 58 (line1 path)
line1-Lacks path h =
    let version : Lacks 58 (codes " HTTP/1.1" ++ (13 ∷ [])) = ground arith in
    let end = All-append (λ (c : ℕ). c ≢ 58) path (codes " HTTP/1.1" ++ (13 ∷ [])) h version in
    ground (arith, end)

line3-Lacks : (ip : List ℕ) (port : ℕ) → IsAddress ip → Lacks letter_k (line3 ip port)
line3-Lacks ip port h =
    let number : Lacks letter_k (decimal port ++ (13 ∷ [])) =
      All-append (λ (c : ℕ). c ≢ letter_k) (decimal port) (13 ∷ [])
        (digits-Lacks (decimal port) (decimal-IsDigit port)) (ground arith) in
    let end : Lacks letter_k (ip ++ (58 ∷ (decimal port ++ (13 ∷ [])))) =
      All-append (λ (c : ℕ). c ≢ letter_k) ip (58 ∷ (decimal port ++ (13 ∷ [])))
        (address-Lacks ip h) ((λ e. ground arith), number) in
    ground (arith, end)

strstr-head :
    (ip : List ℕ) (port : ℕ) (path key : List ℕ)
    → Lacks 58 path
    → IsAddress ip
    → strstr (build_http_head ip port path key) key_name
      ≡ some (key_name ++ (key ++ (13 ∷ behind_key)))
strstr-head ip port path key h k =
    let has_colon : has 58 key_name ≡ true = unfold has in refl in
    let has_k : has letter_k key_name ≡ true = unfold has in refl in
    let one_line : has 10 key_name ≡ false = unfold has in refl in
    ap (λ (t : List ℕ). strstr t key_name) (head-lines ip port path key)
    ∙ strstr-line 58 key_name (line1 path) _ has_colon one_line (line1-Lacks path h)
    ∙ strstr-line letter_k key_name line2 _ has_k one_line (ground arith)
    ∙ strstr-line letter_k key_name (line3 ip port) _ has_k one_line (line3-Lacks ip port k)
    ∙ strstr-append key_name (key ++ (13 ∷ behind_key))

module _ (date : List ℕ) (printed : NoZero date) (short : length date ≤ 200) where
  abbrev answer_and_date : List ℕ → List ℕ
  answer_and_date answer = answer ++ (crlf ++ (date ++ (crlf ++ crlf)))

  length-answer_and_date : (key : List ℕ) → length (answer_and_date (standard_answer key)) ≤ 234
  length-answer_and_date key = omega (
    arith,
    length-append (standard_answer key) (crlf ++ (date ++ (crlf ++ crlf))),
    length-append date (crlf ++ crlf),
    length-standard_answer key,
  )

  respond_text-NoZero : (key : List ℕ) → NoZero (respond_text date (standard_answer key))
  respond_text-NoZero key =
      let end : NoZero (date ++ (crlf ++ crlf)) =
        All-append (λ (c : ℕ). c ≢ 0) date (crlf ++ crlf) printed (ground arith) in
      let rest : NoZero (answer_and_date (standard_answer key)) =
        All-append (λ (c : ℕ). c ≢ 0) (standard_answer key) (crlf ++ (date ++ (crlf ++ crlf)))
          (IsWord-NoZero (standard_answer key) (standard_answer-IsWord key))
          (ground (arith, end)) in
      ground (arith, rest)

  reply_round-respond_text :
      (key : List ℕ)
      → IsWord key
      → length key < 2 ^ 28
      → reply_round key (got (respond_text date (standard_answer key))) ≡ accepts
  reply_round-respond_text key word small =
      reply_round-standard_answer key word small (respond_text date (standard_answer key))
        (10 ∷ (date ++ (crlf ++ crlf))) (respond_text-NoZero key)
        (omega (arith, length-answer_and_date key)) (unfold starts_with in refl)
        (unfold strstr starts_with in refl)

  reply_to-key :
      (key : List ℕ)
      → IsWord key
      → 1 ≤ length key
      → length key < 512
      → reply_to date key ≡ sends (respond_text date (standard_answer key))
  unfolding build_http_respond
  reply_to-key key word some_key small =
      let built =
        build_respond_shake_key-standard_answer key (IsWord-NoZero key word) (omega arith) in
      let room : ltb (length (respond_text date (standard_answer key))) 1024 ≡ true =
        lt→ltb (length (respond_text date (standard_answer key))) 1024
          (omega (arith, length-answer_and_date key)) in
      let fits : leb 512 (length key) ≡ false = ground arith in
      let full : ltb (length key) 1 ≡ false = ground arith in rw (fits, full, built, room) refl

  -- The two ends of the client library agree: for every random key, for a dotted address and a path
  -- without a colon, and a date of at most 200 bytes without a 0, webSocket_serverLinkToClient
  -- sends a response to the request of webSocket_buildHttpHead, and the client's round accepts it.
  pub server_link_to_client-build_http_head :
      (rand : ℕ → ℕ) (ip : List ℕ) (port : ℕ) (path : List ℕ)
      → All (λ (c : ℕ). c ≢ b':') path
      → IsAddress ip
      → let key = build_shake_key rand in
        (reply : List ℕ) × (server_link_to_client date (build_http_head ip port path key)
          ≡ sends reply)
        × (reply_round key (got reply) ≡ accepts)
  unfolding server_link_to_client
  server_link_to_client-build_http_head rand ip port path h k =
      let key = build_shake_key rand in
      let word = build_shake_key-IsWord rand in
      let size = length-build_shake_key rand in
      let read = scan-append key behind_key word (omega (arith, size)) in
      (
        respond_text date (standard_answer key),
        ap (reply_at date) (strstr-head ip port path key h k)
            ∙ ap (reply_to date) read
            ∙ reply_to-key key word (omega (arith, size)) (omega (arith, size)),
        reply_round-respond_text key word (omega (arith, size)),
      )
