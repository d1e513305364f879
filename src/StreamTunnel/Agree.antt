-- ===== src/StreamTunnel/Agree.antt =====
-- Client and server on one tunnel stream: open_bidirectional of
-- crates/ombrac-client/src/connection/mod.rs against handle_connect of
-- crates/ombrac-server/src/connection/stream.rs.
use ombrac.Prelude.{true, Option, none, some, List, [], ◌∷◌, ◌+◌, ◌≡◌, ◌⊎◌, inl, inr, refl, ok, err}
use ombrac.Net.{Bytes, IoError, io_error, IoResult}
use ombrac.Metrics.{Counters}
use ombrac.Protocol.{Address, ClientConnect, ServerConnectResponse, from_io_error}
use ombrac.Auth.{ClientMessage, connect}
use ombrac.Client.Stream.{Exchange, read_response, finish_open, open_bidirectional, to_error_kind}
use ombrac.StreamTunnel.{
  StreamGuard, new_guard, Framed, Upstream, ServerMessage, connect_response, connect_address,
  read_connect_frame, read_connect_message, connect_to_destination, response_of,
  send_connect_response, copy_after, write_ahead, exchange_data, proceed, respond, handle_request,
  handle_connect,
}

module _ (encode_connect : ClientConnect → IoResult Bytes)
    (decode_response : Bytes → IoResult ServerConnectResponse)
    (decode : Bytes → IoResult ClientMessage) (encode : ServerMessage → IoResult Bytes)
    (ahead rest : Bytes) where
  -- The server's end of the stream when the client's frame arrives in time.
  abbrev pub serving : Bytes → Framed
  serving encoded = record {
    next_in_time = true;
    next = some (ok encoded);
    decode = decode;
    encode = encode;
    send = λ b. ok tt;
    read_buf = ahead;
  }

  -- The frame that comes back to the client, if any, before the stream ends.
  abbrev pub answer_frame : List Bytes → Option (IoResult Bytes)
  answer_frame [] = none
  answer_frame (f ∷ more) = some (ok f)

  -- A stream without failures to a server that serves it with this upstream.
  abbrev pub linked : Upstream → Exchange
  linked u = record {
    encode_connect = encode_connect;
    decode_response = decode_response;
    send = λ b. ok tt;
    next = λ b. answer_frame (handle_connect (serving b) u new_guard).sent;
    read_buf = rest;
    write_buf = 0;
  }

  copy_after-frame :
      (u : Upstream) (g : StreamGuard) (frame : Bytes) (w : IoResult (Unit {0}))
      → (copy_after u g ahead (frame ∷ []) w).sent ≡ frame ∷ []
  unfolding copy_after
  copy_after-frame u g frame (ok v) = refl
  copy_after-frame u g frame (err e) = refl

  respond-sent :
      (u : Upstream) (g : StreamGuard) (encoded frame : Bytes) (r : IoResult (Unit {0}))
      → encode (connect_response (response_of r)) ≡ ok frame
      → (respond (serving encoded) u g r (send_connect_response (serving encoded) r)).sent
        ≡ frame ∷ []
  unfolding respond proceed exchange_data send_connect_response
  respond-sent u g encoded frame (ok v) made =
      rw made (copy_after-frame u _ frame (write_ahead u ahead))
  respond-sent u g encoded frame (err e) made = rw made refl

  respond-refused :
      (u : Upstream) (g : StreamGuard) (encoded frame : Bytes) (e : IoError)
      → encode (connect_response (response_of (err e))) ≡ ok frame
      → (respond
          (serving encoded)
          u
          g
          (err e)
          (send_connect_response (serving encoded) (err e))).result
        ≡ err e
  unfolding respond proceed send_connect_response
  respond-refused u g encoded frame e made = rw made refl

  -- The handler behind a request that arrives.
  handle_connect-arrived :
      (u : Upstream) (dest : Address) (encoded : Bytes)
      → decode encoded ≡ ok (connect (record { address = dest }))
      → handle_connect (serving encoded) u new_guard
        ≡ respond
            (serving encoded)
            u
            (record new_guard { destination = some dest })
            (connect_to_destination u dest)
            (send_connect_response (serving encoded) (connect_to_destination u dest))
  unfolding handle_connect handle_request read_connect_message read_connect_frame connect_address
  handle_connect-arrived u dest encoded b = rw b refl

  read_response-linked :
      (u : Upstream) (dest : Address) (encoded frame : Bytes) (r : IoResult (Unit {0}))
      → connect_to_destination u dest ≡ r
      → encode_connect (record { address = dest }) ≡ ok encoded
      → decode encoded ≡ ok (connect (record { address = dest }))
      → encode (connect_response (response_of r)) ≡ ok frame
      → decode_response frame ≡ ok (response_of r)
      → read_response (linked u) dest ≡ ok (response_of r)
  unfolding read_response
  read_response-linked u dest encoded frame r k a b c d =
      let sent : (handle_connect (serving encoded) u new_guard).sent ≡ frame ∷ [] =
        rw (handle_connect-arrived u dest encoded b, k) (respond-sent u _ encoded frame r c) in
      rw (a, sent, d) refl

  opened :
      (c : Counters) (u : Upstream) (dest : Address) (encoded frame : Bytes)
      (r : IoResult (Unit {0}))
      → connect_to_destination u dest ≡ r
      → encode_connect (record { address = dest }) ≡ ok encoded
      → decode encoded ≡ ok (connect (record { address = dest }))
      → encode (connect_response (response_of r)) ≡ ok frame
      → decode_response frame ≡ ok (response_of r)
      → open_bidirectional c (ok (linked u)) dest ≡ finish_open c rest (response_of r)
  unfolding open_bidirectional read_response finish_open
  opened c u dest encoded frame r k a d e h =
      rw (read_response-linked u dest encoded frame r k a d e h) refl

  -- Client and server agree on a stream: when the stream itself does not fail, and the codec reads
  -- back the request and the answer, the client gets the stream exactly when the server has connected
  -- to the destination. Otherwise it gets an error with the text of the server's error and the kind
  -- that the protocol keeps of its kind, which is Other for all but four kinds, counts a failed
  -- stream, and the server's handler ends with the server's error.
  pub open_bidirectional-handle_connect :
      (c : Counters) (u : Upstream) (dest : Address) (encoded frame : Bytes)
      → encode_connect (record { address = dest }) ≡ ok encoded
      → decode encoded ≡ ok (connect (record { address = dest }))
      → encode (connect_response (response_of (connect_to_destination u dest))) ≡ ok frame
      → decode_response frame ≡ ok (response_of (connect_to_destination u dest))
      → ((connect_to_destination u dest ≡ ok tt)
          × (open_bidirectional c (ok (linked u)) dest
              ≡ (record c { streams_opened = c.streams_opened + 1 }, ok rest)))
        ⊎ ((e : IoError) × (connect_to_destination u dest ≡ err e)
            × (open_bidirectional c (ok (linked u)) dest ≡ (
              record c { streams_failed = c.streams_failed + 1 },
              err (io_error (to_error_kind (from_io_error e)) e.message),
            ))
            × ((handle_connect (serving encoded) u new_guard).result ≡ err e))
  unfolding finish_open response_of
  open_bidirectional-handle_connect c u dest encoded frame a b made back =
      elim (connect_to_destination u dest)
          as (λ r.
            connect_to_destination u dest ≡ r
            → encode (connect_response (response_of r)) ≡ ok frame
            → decode_response frame ≡ ok (response_of r)
            → ((r ≡ ok tt)
                × (open_bidirectional c (ok (linked u)) dest
                    ≡ (record c { streams_opened = c.streams_opened + 1 }, ok rest)))
              ⊎ ((e : IoError) × (r ≡ err e)
                  × (open_bidirectional c (ok (linked u)) dest ≡ (
                    record c { streams_failed = c.streams_failed + 1 },
                    err (io_error (to_error_kind (from_io_error e)) e.message),
                  ))
                  × ((handle_connect (serving encoded) u new_guard).result ≡ err e))) [
                    | ok v ↦ λ k m d. inl (refl, opened c u dest encoded frame (ok v) k a b m d)
                    | err e ↦ λ k m d. inr (
                      e,
                      refl,
                      opened c u dest encoded frame (err e) k a b m d,
                      rw (handle_connect-arrived u dest encoded b, k)
                          (respond-refused u _ encoded frame e m),
                    )
                  ]
        refl made back
