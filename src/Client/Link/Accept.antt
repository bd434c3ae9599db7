-- ===== src/Client/Link/Accept.antt =====
-- The replies that the client accepts.
use dog_server.Base.{
  ℕ, ◌^◌, ◌<◌, ◌≡◌, refl, ap, ◌∙◌, true, false, some, List, ◌∷◌, ◌++◌, ◌==◌, length, NoZero, IsWord,
  IsWord-NoZero, c_str, c_str_lem, codes, arith,
}
use dog_server.Client.Frame.Mask.{get_random_string-IsBytes, length-get_random_string}
use dog_server.Client.Frame.{get_random_string}
use dog_server.Client.Base64.Words.{base64_encode-IsWord, length-base64_encode}
use dog_server.Client.Keys.{build_shake_key, match_shake_key, shake_key_len}
use dog_server.Client.Keys.Digests.{
  standard_answer, standard_answer-IsWord, length-standard_answer, match_shake_key-standard_answer,
}
use dog_server.Client.Http.{starts_with, strstr, scan}
use dog_server.Client.Http.Search.{scan-append}
use dog_server.Client.Link.{
  got, accepts, accept_name, scan_in_place, round_of, round_at, reply_round,
}

pub build_shake_key-IsWord : (rand : ℕ → ℕ) → IsWord (build_shake_key rand)
unfolding build_shake_key
build_shake_key-IsWord rand =
    base64_encode-IsWord _ (get_random_string-IsBytes rand 0 shake_key_len)

pub length-build_shake_key : (rand : ℕ → ℕ) → length (build_shake_key rand) ≡ 24
unfolding build_shake_key
length-build_shake_key rand =
    let bytes = get_random_string rand 0 shake_key_len in
    omega (arith, length-base64_encode bytes, length-get_random_string rand 0 shake_key_len)

-- A reply whose first accept field is at `accept_name ++ answer`.
module _ (key : List ℕ) (word : IsWord key) (small : length key < 2 ^ 28) where
  match-standard_answer : match_shake_key key (standard_answer key) ≡ some true
  match-standard_answer =
      let answer_word = standard_answer-IsWord key in
      let (b, verdict, exact) =
        match_shake_key-standard_answer key (standard_answer key) (IsWord-NoZero key word) small
          (IsWord-NoZero (standard_answer key) answer_word) in
      verdict ∙ ap some (exact.1 refl)

  round_at-standard_answer :
      (rest : List ℕ)
      → round_at key (some (accept_name ++ (standard_answer key ++ (13 ∷ rest)))) ≡ accepts
  round_at-standard_answer rest =
      let read : scan (standard_answer key ++ (13 ∷ rest)) ≡ standard_answer key =
        scan-append (standard_answer key) rest (standard_answer-IsWord key)
          (omega (arith, length-standard_answer key)) in
      let some_word : (length (standard_answer key) == 0) ≡ false =
        ground (arith, length-standard_answer key) in
      let in_place : scan_in_place (standard_answer key ++ (13 ∷ rest)) ≡ standard_answer key =
        rw (read, some_word) refl in
      ap (λ (t : List ℕ). round_of (match_shake_key (c_str key) t)) in_place
      ∙ ap (λ (t : List ℕ). round_of (match_shake_key t (standard_answer key)))
          (c_str_lem key (IsWord-NoZero key word))
      ∙ ap round_of match-standard_answer

  pub reply_round-standard_answer :
      (reply rest : List ℕ)
      → NoZero reply
      → length reply < 512
      → starts_with (codes "HTTP") reply ≡ true
      → strstr reply accept_name ≡ some (accept_name ++ (standard_answer key ++ (13 ∷ rest)))
      → reply_round key (got reply) ≡ accepts
  unfolding reply_round
  reply_round-standard_answer reply rest h short http found =
      let fits : (length reply == 512) ≡ false = ground arith in
      rw (http, c_str_lem reply h, fits, found) (round_at-standard_answer rest)
