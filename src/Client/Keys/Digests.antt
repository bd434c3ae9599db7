-- ===== src/Client/Keys/Digests.antt =====
-- The key that answers a handshake is the answer of RFC 6455, which is stated apart from the code.
use dog_server.Base.{
  ℕ, ◌^◌, ◌<◌, ◌≡◌, ◌≢◌, ◌↔◌, sym, ap, ap₂, subst, ◌∙◌, Bool, true, Option, some, List, ◌++◌, ◌&&◌,
  ◌==◌, length, length-append, codes, IsWord, IsWord-NoZero, NoZero, All-append, IsBytes, c_str_lem,
  str_eq, str_eq_refl, str_eq_sound, arith,
}
use dog_server.Client.Base64.{base64_encode}
use dog_server.Client.Base64.Words.{base64_encode-IsWord, length-base64_encode}
use dog_server.Client.Base64.Standard.{standard_base64, base64_encode-standard_base64}
use dog_server.Client.Sha1.{Digest, sha1_hash}
use dog_server.Client.Sha1.Standard.{standard_digest, digest_octets}
use dog_server.Client.Sha1.Messages.{big_endian-word, sha1_hash-standard_digest}
use dog_server.Client.Keys.{
  digest_bytes, guid, key_of_digest, build_respond_shake_key, matches_key, match_shake_key,
}
use dog_server.Client.Keys.Hex.{bytes_of_text-hex_text}

pub digest_bytes-IsBytes : (x : Digest) → IsBytes (digest_bytes x)
digest_bytes-IsBytes x = ground arith

-- The answer to a key as RFC 6455 has it (1.3): base64 and SHA-1 of RFC 4648 and RFC 3174, on the key
-- and the GUID of the protocol.
abbrev pub protocol_guid : List ℕ
protocol_guid = codes "258EAFA5-E914-47DA-95CA-C5AB0DC85B11"

abbrev pub standard_answer : List ℕ → List ℕ
standard_answer key = standard_base64 (digest_octets (standard_digest (key ++ protocol_guid)))

pub digest_octets-digest_bytes : (x : Digest) → digest_octets x ≡ digest_bytes x
digest_octets-digest_bytes x = ap₂ ◌++◌ (big_endian-word x.a) (
    ap₂ ◌++◌ (big_endian-word x.b)
      (ap₂ ◌++◌ (big_endian-word x.c) (ap₂ ◌++◌ (big_endian-word x.d) (big_endian-word x.e))))

pub digest_octets-IsBytes : (x : Digest) → IsBytes (digest_octets x)
digest_octets-IsBytes x =
    subst IsBytes (sym (digest_octets-digest_bytes x)) (digest_bytes-IsBytes x)

-- The answer, by the code's base64 and its text of the digest.
abbrev coded : List ℕ → List ℕ
coded key = base64_encode (digest_bytes (standard_digest (key ++ guid)))

coded-standard_answer : (key : List ℕ) → coded key ≡ standard_answer key
coded-standard_answer key =
    ap base64_encode (sym (digest_octets-digest_bytes (standard_digest (key ++ guid))))
    ∙ base64_encode-standard_base64 (digest_octets (standard_digest (key ++ guid)))
        (digest_octets-IsBytes (standard_digest (key ++ guid)))

pub guid-NoZero : NoZero guid
guid-NoZero = ground arith

-- For a key of fewer than 2 ^ 28 bytes, none of them 0, webSocket_buildRespondShakeKey gives the
-- answer of RFC 6455: the base64 text of the 20 bytes of the digest of the key and the GUID.
pub build_respond_shake_key-standard_answer :
    (key : List ℕ)
    → NoZero key
    → length key < 2 ^ 28
    → build_respond_shake_key key ≡ some (standard_answer key)
unfolding build_respond_shake_key
build_respond_shake_key-standard_answer key h small =
    let x = standard_digest (key ++ guid) in
    ap (λ (t : List ℕ). key_of_digest (sha1_hash t))
      (c_str_lem (key ++ guid) (All-append (λ (c : ℕ). c ≢ 0) key guid h guid-NoZero))
    ∙ ap key_of_digest
        (sha1_hash-standard_digest (key ++ guid) (omega (arith, length-append key guid)))
    ∙ ap (λ (t : List ℕ). some (base64_encode t))
        (bytes_of_text-hex_text (digest_bytes x) (digest_bytes-IsBytes x))
    ∙ ap some (coded-standard_answer key)

pub standard_answer-IsWord : (key : List ℕ) → IsWord (standard_answer key)
standard_answer-IsWord key =
    subst IsWord (coded-standard_answer key)
      (base64_encode-IsWord _ (digest_bytes-IsBytes (standard_digest (key ++ guid))))

pub length-standard_answer : (key : List ℕ) → length (standard_answer key) ≡ 28
length-standard_answer key =
    ap length (sym (coded-standard_answer key))
    ∙ length-base64_encode (digest_bytes (standard_digest (key ++ guid)))

matches_key_iff :
    (built accept_key : List ℕ)
    → NoZero built
    → NoZero accept_key
    → (b : Bool) × (matches_key (some built) accept_key ≡ some b)
      × ((b ≡ true) ↔ (accept_key ≡ built))
matches_key_iff built accept_key h k =
    let same : matches_key (some built) accept_key
        ≡ some (length built == length accept_key && str_eq built accept_key) =
      ap₂ (λ (s t : List ℕ). some (length built == length accept_key && str_eq s t))
        (c_str_lem built h) (c_str_lem accept_key k) in
    (
      _,
      same,
      (
        (λ e. sym (str_eq_sound built accept_key (ground arith))),
        (λ e.
            subst (λ (t : List ℕ). (length built == length t && str_eq built t) ≡ true) (sym e)
              (ground (arith, str_eq_refl built))),
      ),
    )

-- For texts without a 0, the client's own shorter than 2 ^ 28 bytes, webSocket_matchShakeKey has a
-- verdict, and accepts exactly the answer of RFC 6455 to the client's key, with the SHA-1 of RFC
-- 3174 and the base64 of RFC 4648.
pub match_shake_key-standard_answer :
    (my_key accept_key : List ℕ)
    → NoZero my_key
    → length my_key < 2 ^ 28
    → NoZero accept_key
    → (b : Bool) × (match_shake_key my_key accept_key ≡ some b)
      × ((b ≡ true) ↔ (accept_key ≡ standard_answer my_key))
unfolding match_shake_key
match_shake_key-standard_answer my_key accept_key h small k =
    let (b, verdict, exact) =
      matches_key_iff (standard_answer my_key) accept_key
        (IsWord-NoZero (standard_answer my_key) (standard_answer-IsWord my_key)) k in
    (
      b,
      ap (λ (o : Option (List ℕ)). matches_key o accept_key)
            (build_respond_shake_key-standard_answer my_key h small)
          ∙ verdict,
      exact,
    )
