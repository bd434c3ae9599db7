-- ===== src/Tests/Digests.antt =====
-- The digests and base64 texts of the standards' own examples.
use dog_server.Base.{◌≡◌, refl, some, codes, arith}
use dog_server.Client.Sha1.{
  Digest, rotate, first_words, more_words, mix, rounds, process_message_block, input_byte,
  input_loop, sha1_input, pad_message, sha1_result, sha1_hash,
}
use dog_server.Client.Sha1.Standard.{
  logical, constant, words, extend, after_rounds, next_digest, after_blocks, big_endian,
  standard_digest,
}
use dog_server.Client.Sha1.Messages.{sha1_hash-standard_digest}
use dog_server.Client.Base64.Standard.{letter, standard_base64}

abbrev abc_digest : Digest
abc_digest = record {
  a = 0xA9993E36;
  b = 0x4706816A;
  c = 0xBA3E2571;
  d = 0x7850C26C;
  e = 0x9CD0D89D;
}

abc-sha1_hash : sha1_hash (codes "abc") ≡ some abc_digest
unfolding sha1_hash sha1_input input_loop input_byte sha1_result pad_message process_message_block
    rounds mix more_words first_words rotate
abc-sha1_hash = refl

sha1_hash-standard_digest_example : sha1_hash (codes "abc") ≡ some (standard_digest (codes "abc"))
sha1_hash-standard_digest_example = sha1_hash-standard_digest (codes "abc") (omega arith)

-- The digests that FIPS 180 gives for "abc" and, of two blocks, for the longer text.
abc-standard_digest : standard_digest (codes "abc") ≡ abc_digest
unfolding standard_digest after_blocks next_digest after_rounds extend words logical constant
    big_endian
abc-standard_digest = refl

long-standard_digest :
    standard_digest (codes "abcdbcdecdefdefgefghfghighijhijkijkljklmklmnlmnomnopnopq")
    ≡ record { a = 0x84983E44; b = 0x1C3BD26E; c = 0xBAAE4AA1; d = 0xF95129E5; e = 0xE54670F1 }
unfolding standard_digest after_blocks next_digest after_rounds extend words logical constant
    big_endian
long-standard_digest = refl

-- The base64 texts of RFC 4648, 10.
foobar : standard_base64 (codes "foobar") ≡ codes "Zm9vYmFy"
unfolding standard_base64 letter
foobar = refl

fooba : standard_base64 (codes "fooba") ≡ codes "Zm9vYmE="
unfolding standard_base64 letter
fooba = refl
