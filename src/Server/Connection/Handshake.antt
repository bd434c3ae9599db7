-- ===== src/Server/Connection/Handshake.antt =====
-- The handshake: what handleRead does in the state HEAD.
use dog_server.Base.{
  ℕ, ◌≡◌, ◌≤◌, refl, sym, ap, ◌∙◌, true, some, List, [], ◌∷◌, ◌++◌, append_assoc, append-nil,
  reverse, length, All, codes,
}
use dog_server.Server.Socket.{Socket}
use dog_server.Server.Packet.{error_parse_head}
use dog_server.Server.Send.{WriteCall}
use dog_server.Server.Send.Write.{taken, Retries, write_data-sent_all}
use dog_server.Server.Http.{
  HeadRead, got, end_of_stream, eintr, eagain, other_errno, Headers, insert, lookup, cr, lf,
  tail_is, not_reached, by_tail, parse_head, refused, read_and_parse_head, response,
}
use dog_server.Server.Http.Fields.{Without, IsField, http_text, insert_all, parse_head-http_text}
use dog_server.Server.Connection.{
  state_head, state_data, state_error, Connection, returns, websocket_key, send_respond,
  send_error_respond, process_error, process_start, in_head, in_start, in_finish, in_error,
  handle_read,
}

-- A read that the loop goes on after.
abbrev pub GoesOn : HeadRead → Type 0
GoesOn (got xs) = Unit
GoesOn eintr = Unit
GoesOn _ = ⊥

abbrev pub gathered : List HeadRead → List ℕ
gathered [] = []
gathered (got xs ∷ reads) = xs ++ gathered reads
gathered (_ ∷ reads) = gathered reads

read_and_parse_head-gathered :
    (reads later : List HeadRead) (buffer : List ℕ) (headers : Headers)
    → All GoesOn reads
    → read_and_parse_head (reads ++ (eagain ∷ later)) buffer headers
      ≡ some (parse_head (buffer ++ gathered reads) headers)
unfolding read_and_parse_head
read_and_parse_head-gathered [] later buffer headers h =
    ap (λ t. some (parse_head t headers)) (sym (append-nil buffer))
read_and_parse_head-gathered (got xs ∷ reads) later buffer headers h =
    read_and_parse_head-gathered reads later (buffer ++ xs) headers h.1
    ∙ ap (λ t. some (parse_head t headers)) (append_assoc buffer xs (gathered reads))
read_and_parse_head-gathered (eintr ∷ reads) later buffer headers h =
    read_and_parse_head-gathered reads later buffer headers h.1
read_and_parse_head-gathered (end_of_stream ∷ reads) later buffer headers h = absurd h.0
read_and_parse_head-gathered (eagain ∷ reads) later buffer headers h = absurd h.0
read_and_parse_head-gathered (other_errno ∷ reads) later buffer headers h = absurd h.0

abbrev pub touched : Headers → Headers
touched headers = insert websocket_key (lookup websocket_key headers) headers

module _ (socket : Socket) (sha1 base64_encode : List ℕ → List ℕ)
    (format_json : List ℕ → ℕ → List ℕ) where
  open socket use {State}

  -- A well-formed request that the reads gather, in any pieces and over interruptions, before
  -- the socket is empty, with writes that take the whole response: handleRead returns with
  -- the connection in the state DATA, the fields stored, the response with status 101 sent
  -- and the count of bytes at 0.
  pub handle_read-http_text :
      (reads later : List HeadRead) (request : List ℕ) (fields : Headers)
      (respond packet end error : List WriteCall) (c : Connection State)
      → All GoesOn reads
      → gathered reads ≡ http_text request fields
      → Without lf request
      → All IsField fields
      → All Retries respond
      → length (response sha1 base64_encode (codes "101") (insert_all fields c.headers_))
        ≤ taken respond
      → handle_read socket sha1 base64_encode format_json
          record {
            head_reads = reads ++ (eagain ∷ later);
            respond_writes = respond;
            packet_writes = packet;
            end_writes = end;
            error_writes = error;
          }
          (record c { state_ = state_head })
        ≡ returns true (record c {
          state_ = state_data;
          headers_ = touched (insert_all fields c.headers_);
          sent = c.sent ++ response sha1 base64_encode (codes "101") (insert_all fields c.headers_);
          this_conn_bytes_ = 0;
        })
  unfolding handle_read in_head in_start in_finish in_error send_respond process_start
  handle_read-http_text reads later request fields respond packet end error c g e r f w t =
      let read = read_and_parse_head-gathered reads later [] c.headers_ g in
      let parse =
        ap (λ t. parse_head t c.headers_) e ∙ parse_head-http_text request fields c.headers_ r f in
      let write = write_data-sent_all _ respond w t in rw (read, parse, write) refl

  -- A head that the reads gather before the socket is empty, long enough for the test of its end
  -- but without the empty line there, with writes that take the whole response: handleRead
  -- returns with the connection in the state ERROR, the error ERROR_PARSE_HEAD and the
  -- response with status 400 sent.
  pub handle_read-refused :
      (reads later : List HeadRead) (respond packet end error : List WriteCall)
      (c : Connection State)
      → All GoesOn reads
      → tail_is (lf ∷ cr ∷ lf ∷ cr ∷ []) (reverse (gathered reads)) ≡ not_reached
      → All Retries error
      → length (response sha1 base64_encode (codes "400") c.headers_) ≤ taken error
      → handle_read socket sha1 base64_encode format_json
          record {
            head_reads = reads ++ (eagain ∷ later);
            respond_writes = respond;
            packet_writes = packet;
            end_writes = end;
            error_writes = error;
          }
          (record c { state_ = state_head })
        ≡ returns true (record c {
          state_ = state_error;
          error_ = error_parse_head;
          headers_ = touched c.headers_;
          sent = c.sent ++ response sha1 base64_encode (codes "400") c.headers_;
        })
  unfolding handle_read in_head in_start in_finish in_error process_error send_error_respond
  handle_read-refused reads later respond packet end error c g e w t =
      let read = read_and_parse_head-gathered reads later [] c.headers_ g in
      let parse : parse_head (gathered reads) c.headers_ ≡ refused error_parse_head c.headers_ =
        unfold parse_head in ap (λ t. by_tail t (gathered reads) c.headers_) e in
      let write = write_data-sent_all _ error w t in rw (read, parse, write) refl
