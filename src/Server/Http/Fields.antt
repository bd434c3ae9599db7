-- ===== src/Server/Http/Fields.antt =====
-- parseHead on a well-formed request.
use dog_server.Base.{
  ℕ, ◌≡◌, ◌≢◌, refl, sym, ap, ◌∙◌, false, some, List, [], ◌∷◌, ◌++◌, append_assoc, reverse, All,
  str_eq, arith,
}
use mathlib.Core.List.{reverse-append}
use dog_server.Server.Http.{
  Headers, insert, parsed, cr, lf, by_tail, reached, tail_is, get_lines, split_last, find_colon,
  parse_lines, parse_request, parse_head,
}

-- No byte of the text is `b`.
abbrev pub Without : ℕ → List ℕ → Type 0
Without b xs = All (λ x. x ≢ b) xs

-- The lines of a list of fields, with the empty line that ends them.
abbrev pub fields_text : Headers → List ℕ
fields_text [] = cr ∷ lf ∷ []
fields_text ((k, v) ∷ fields) = k ++ (58 ∷ 32 ∷ (v ++ (cr ∷ lf ∷ fields_text fields)))

abbrev pub http_text : List ℕ → Headers → List ℕ
http_text request fields = request ++ (cr ∷ lf ∷ fields_text fields)

abbrev pub IsField : List ℕ × List ℕ → Type 0
IsField (k, v) = Without 58 k × (Without lf k × Without lf v)

abbrev pub insert_all : Headers → Headers → Headers
insert_all [] headers = headers
insert_all ((k, v) ∷ fields) headers = insert_all fields (insert k v headers)

get_lines-append :
    (xs rest : List ℕ) → Without lf xs → get_lines (xs ++ (lf ∷ rest)) ≡ xs ∷ get_lines rest
unfolding get_lines
get_lines-append [] rest h = refl
get_lines-append (x ∷ xs) rest h = ground (arith, get_lines-append xs rest h.1)

split_last-append : (xs : List ℕ) (c : ℕ) → split_last (xs ++ (c ∷ [])) ≡ some (xs, c)
unfolding split_last
split_last-append [] c = refl
split_last-append (x ∷ xs) c = rw (split_last-append xs c)

find_colon-append : (k v : List ℕ) → Without 58 k → find_colon (k ++ (58 ∷ 32 ∷ v)) ≡ some (k, v)
unfolding find_colon
find_colon-append [] v h = refl
find_colon-append (x ∷ []) v h = ground (arith, find_colon-append [] v tt)
find_colon-append (x ∷ y ∷ k) v h = ground (arith, find_colon-append (y ∷ k) v h.1)

not_empty_line : (k v : List ℕ) → str_eq (k ++ (58 ∷ 32 ∷ v)) (cr ∷ []) ≡ false
unfolding str_eq
not_empty_line [] v = refl
not_empty_line (x ∷ []) v = ground arith
not_empty_line (x ∷ y ∷ k) v = ground arith

Without-append : (b : ℕ) (xs ys : List ℕ) → Without b xs → Without b ys → Without b (xs ++ ys)
Without-append b [] ys h k = k
Without-append b (x ∷ xs) ys h k = (h.0, Without-append b xs ys h.1 k)

-- One header line.
parse_lines-field :
    (k v : List ℕ) (lines : List (List ℕ)) (headers : Headers)
    → Without 58 k
    → parse_lines ((k ++ (58 ∷ 32 ∷ (v ++ (cr ∷ [])))) ∷ lines) headers
      ≡ parse_lines lines (insert k v headers)
unfolding parse_lines
parse_lines-field k v lines headers h =
    let line : k ++ (58 ∷ 32 ∷ (v ++ (cr ∷ []))) ≡ (k ++ (58 ∷ 32 ∷ v)) ++ (cr ∷ []) =
      sym (append_assoc k (58 ∷ 32 ∷ v) (cr ∷ [])) in
    rw (
      not_empty_line k (v ++ (cr ∷ [])),
      line,
      split_last-append (k ++ (58 ∷ 32 ∷ v)) cr,
      find_colon-append k v h,
    )

parse_lines-fields :
    (fields headers : Headers)
    → All IsField fields
    → parse_lines (get_lines (fields_text fields)) headers ≡ parsed (insert_all fields headers)
parse_lines-fields [] headers h = unfold get_lines parse_lines str_eq in refl
parse_lines-fields ((k, v) ∷ fields) headers h =
    let line = k ++ (58 ∷ 32 ∷ (v ++ (cr ∷ []))) in
    let whole : k ++ (58 ∷ 32 ∷ (v ++ (cr ∷ lf ∷ fields_text fields)))
        ≡ line ++ (lf ∷ fields_text fields) =
      simp append_assoc in
    let apart = get_lines-append line (fields_text fields) (
      Without-append lf k _ h.0.1.0 (
        (λ e. ground arith),
        ((λ e. ground arith), Without-append lf v (cr ∷ []) h.0.1.1 ((λ e. ground arith), tt)),
      )) in
    rw (whole, apart, parse_lines-field k v (get_lines (fields_text fields)) headers h.0.0)
      (parse_lines-fields fields (insert k v headers) h.1)

-- The text ends with an empty line.
fields_end :
    (fields : Headers)
    → (pre : List ℕ) × (cr ∷ lf ∷ fields_text fields ≡ pre ++ (cr ∷ lf ∷ cr ∷ lf ∷ []))
fields_end [] = ([], refl)
fields_end ((k, v) ∷ fields) =
    let (pre, e) = fields_end fields in
    (
      cr ∷ lf ∷ (k ++ (58 ∷ 32 ∷ (v ++ pre))),
      ap (λ t. cr ∷ lf ∷ (k ++ (58 ∷ 32 ∷ (v ++ t)))) e ∙ simp append_assoc,
    )

tail_reached :
    (pre : List ℕ)
    → tail_is (lf ∷ cr ∷ lf ∷ cr ∷ []) (reverse (pre ++ (cr ∷ lf ∷ cr ∷ lf ∷ []))) ≡ reached
unfolding tail_is
tail_reached pre = rw (reverse-append pre (cr ∷ lf ∷ cr ∷ lf ∷ []))

parse_request-line :
    (request : List ℕ) (lines : List (List ℕ)) (headers : Headers)
    → parse_request ((request ++ (cr ∷ [])) ∷ lines) headers ≡ parse_lines lines headers
unfolding parse_request
parse_request-line request lines headers = ground (arith, split_last-append request cr)

-- A request line, fields whose keys hold no colon, and the empty line, none of them
-- with a line feed inside: parseHead returns 0, and the headers are those there were
-- with the fields stored in their order.
pub parse_head-http_text :
    (request : List ℕ) (fields headers : Headers)
    → Without lf request
    → All IsField fields
    → parse_head (http_text request fields) headers ≡ parsed (insert_all fields headers)
unfolding parse_head
parse_head-http_text request fields headers r h =
    let (pre, e) = fields_end fields in
    let ends : http_text request fields ≡ (request ++ pre) ++ (cr ∷ lf ∷ cr ∷ lf ∷ []) =
      ap (λ t. request ++ t) e ∙ sym (append_assoc request pre _) in
    let at_end =
      ap (λ t. tail_is (lf ∷ cr ∷ lf ∷ cr ∷ []) (reverse t)) ends ∙ tail_reached (request ++ pre) in
    let first : http_text request fields ≡ (request ++ (cr ∷ [])) ++ (lf ∷ fields_text fields) =
      simp append_assoc in
    let apart =
      ap get_lines first
      ∙ get_lines-append (request ++ (cr ∷ [])) (fields_text fields)
          (Without-append lf request (cr ∷ []) r ((λ e. ground arith), tt)) in
    ap (λ t. by_tail t (http_text request fields) headers) at_end
    ∙ rw apart (
        parse_request-line request (get_lines (fields_text fields)) headers
        ∙ parse_lines-fields fields headers h)
