-- ===== src/Tests/Links.antt =====
-- The handshake between client and server, with the standard's digest for sha1.cc and base64.cc.
use dog_server.Base.{
  ℕ, ◌≡◌, ◌↔◌, refl, append-nil, Bool, true, some, List, [], ◌∷◌, ◌++◌, codes, decimal_loop,
  decimal, arith,
}
use dog_server.Client.Frame.{get_random_string, random_byte}
use dog_server.Client.Base64.{base64_encode}
use dog_server.Client.Base64.Standard.{standard_base64}
use dog_server.Client.Sha1.Standard.{standard_digest, digest_octets}
use dog_server.Client.Keys.{build_shake_key, build_respond_shake_key, match_shake_key}
use dog_server.Client.Keys.Digests.{
  standard_answer, build_respond_shake_key-standard_answer, match_shake_key-standard_answer,
}
use dog_server.Client.Http.{build_http_head}
use dog_server.Client.Link.{Recv, got, nothing, linked, client_link_to_server}
use dog_server.Client.Link.Time.{EndsBy, client_link_to_server-EndsBy}
use dog_server.Server.Socket.{queue_socket}
use dog_server.Server.Send.{wrote}
use dog_server.Server.Http.{Headers, got, eagain, response}
use dog_server.Server.Connection.{state_head, state_data, returns, handle_read}
use dog_server.Server.Connection.Handshake.{touched}
use dog_server.Interop.Links.{stored, handshake}
use dog_server.Tests.Frames.{counting}
use dog_server.Tests.Connecting.{bare_text, joining}

abbrev sha1 : List ℕ → List ℕ
sha1 bytes = digest_octets (standard_digest bytes)

abbrev address : List ℕ
address = codes "127.0.0.1"

abbrev key : List ℕ
key = build_shake_key counting

-- The key and the answer of RFC 6455, 1.3.
build_respond_shake_key-standard_answer_example :
    build_respond_shake_key (codes "dGhlIHNhbXBsZSBub25jZQ==")
    ≡ some (standard_answer (codes "dGhlIHNhbXBsZSBub25jZQ=="))
build_respond_shake_key-standard_answer_example =
    build_respond_shake_key-standard_answer (codes "dGhlIHNhbXBsZSBub25jZQ==") (omega arith)
      (omega arith)

match_shake_key-standard_answer_example :
    (b : Bool) × (match_shake_key
        (codes "dGhlIHNhbXBsZSBub25jZQ==")
        (codes "s3pPLMBiTxaQ9kYGzzhZRbK+xOo=")
      ≡ some b)
    × ((b ≡ true) ↔ (
        codes "s3pPLMBiTxaQ9kYGzzhZRbK+xOo=" ≡ standard_answer (codes "dGhlIHNhbXBsZSBub25jZQ==")))
match_shake_key-standard_answer_example =
    match_shake_key-standard_answer (codes "dGhlIHNhbXBsZSBub25jZQ==")
      (codes "s3pPLMBiTxaQ9kYGzzhZRbK+xOo=") (omega arith) (omega arith) (omega arith)

client_link_to_server-EndsBy_example :
    EndsBy 2001 2001
      (client_link_to_server (λ t. true) (λ t. nothing) counting address 8080 (codes "/dog") 2001)
client_link_to_server-EndsBy_example =
    client_link_to_server-EndsBy (λ t. true) (λ t. nothing) counting address 8080 (codes "/dog")
      2001 (omega arith)

abbrev head : List ℕ
head = build_http_head address 8080 (codes "/dog") key

abbrev fields : Headers
fields = stored address 8080 key

abbrev reply : List ℕ
reply = response sha1 standard_base64 (codes "101") fields

handshake_example :
    (handle_read queue_socket sha1 standard_base64 bare_text
        record {
          head_reads = (got head ∷ []) ++ (eagain ∷ []);
          respond_writes = wrote 600 ∷ [];
          packet_writes = [];
          end_writes = [];
          error_writes = [];
        }
        (record joining { state_ = state_head; headers_ = [] })
      ≡ returns true (record joining {
        state_ = state_data;
        headers_ = touched fields;
        sent = joining.sent ++ reply;
        this_conn_bytes_ = 0;
      }))
    × (client_link_to_server
          (λ t. true)
          (λ t. Recv.got reply)
          counting
          address
          8080
          (codes "/dog")
          3
        ≡ linked 1)
handshake_example =
    handshake sha1 standard_base64 (λ bytes h. refl) (λ bytes h. refl) queue_socket bare_text
      (got head ∷ []) [] (wrote 600 ∷ []) [] [] [] joining counting address 8080 (codes "/dog")
      (λ t. true) (λ t. Recv.got reply) 3 0 0 (omega arith) (omega arith) (tt, tt) (append-nil head)
      (tt, tt) (omega arith) tt refl (omega arith) tt refl (omega arith) (omega arith)
      (unfold build_http_head build_shake_key get_random_string random_byte base64_encode decimal
          decimal_loop in
        omega arith)
