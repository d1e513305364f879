-- ===== src/StreamTunnel/Respond.antt =====
-- What the client and the destination are told about a stream (handle_connect in
-- crates/ombrac-server/src/connection/stream.rs).
use ombrac.Prelude.{List, [], ◌∷◌, some, ◌≡◌, ◌⊎◌, inl, inr, refl, bind-ok, ok, err}
use ombrac.Net.{Bytes, IoError, IoResult}
use ombrac.Protocol.{Address, connect_ok, connect_err, from_io_error}
use ombrac.StreamTunnel.{
  StreamGuard, Framed, Upstream, connect_response, read_connect_message, connect_to_destination,
  response_of, send_connect_response, Handled, copy_after, write_ahead, exchange_data, proceed,
  respond, handle_request, handle_connect,
}

-- The stream is given up before the client was sent anything, and with nothing for the destination.
abbrev pub Silent : Handled → Type 0
Silent h = (h.sent ≡ []) × (h.upstream ≡ []) × ((e : IoError) × (h.result ≡ err e))

-- The client was sent one frame: it says that the destination is connected, or, with the error that
-- the stream then ends with, that it is not and gets nothing.
abbrev pub Answered : Framed → IoResult (Unit {0}) → Handled → Type 0
Answered p connect_result h =
    (frame : Bytes) × (h.sent ≡ frame ∷ [])
    × ((connect_result ≡ ok tt) × (p.encode (connect_response connect_ok) ≡ ok frame)
        ⊎ ((e : IoError) × (connect_result ≡ err e)
            × (p.encode (connect_response (connect_err (from_io_error e) e.message)) ≡ ok frame)
            × (h.upstream ≡ [])
            × (h.result ≡ err e)))

copy_after-sent :
    (u : Upstream) (g : StreamGuard) (ahead : Bytes) (sent : List Bytes) (w : IoResult (Unit {0}))
    → (copy_after u g ahead sent w).sent ≡ sent
unfolding copy_after
copy_after-sent u g ahead sent (err e) = refl
copy_after-sent u g ahead sent (ok w) = refl

respond-Answered :
    (p : Framed) (u : Upstream) (g : StreamGuard) (r : IoResult (Unit {0})) (b : IoResult Bytes)
    → send_connect_response p r ≡ b
    → Silent (respond p u g r b) ⊎ Answered p r (respond p u g r b)
unfolding respond proceed exchange_data send_connect_response response_of
respond-Answered p u g r (err e) q = inl (refl, refl, (e, refl))
respond-Answered p u g (ok v) (ok frame) q =
    let (encoded, made, q1) = bind-ok (p.encode (connect_response connect_ok)) _ frame q in
    let (w, sent, q2) = bind-ok (p.send encoded) _ frame q1 in
    inr (
      frame,
      copy_after-sent u _ p.read_buf (frame ∷ []) (write_ahead u p.read_buf),
      inl (refl, cc (made, q2)),
    )
respond-Answered p u g (err e) (ok frame) q =
    let (encoded, made, q1) =
      bind-ok (p.encode (connect_response (connect_err (from_io_error e) e.message))) _ frame q in
    let (w, sent, q2) = bind-ok (p.send encoded) _ frame q1 in
    inr (frame, refl, inr (e, refl, cc (made, q2), refl, refl))

handle_request-Answered :
    (p : Framed) (u : Upstream) (g : StreamGuard) (r : IoResult Address)
    → Silent (handle_request p u g r)
      ⊎ ((dest : Address) × (r ≡ ok dest)
          × Answered p (connect_to_destination u dest) (handle_request p u g r))
unfolding handle_request
handle_request-Answered p u g (err e) = inl (refl, refl, (e, refl))
handle_request-Answered p u g (ok dest) =
    elim (respond-Answered p u (record g { destination = some dest })
      (connect_to_destination u dest) _ refl) [ inl s ↦ inl s | inr a ↦ inr (dest, refl, a) ]

-- A stream either ends with an error before anything was sent to either side, or the client was sent
-- exactly one frame, the answer to its request: that the destination is connected, when it is, or
-- else the kind and the text of the error, with which the stream ends while the destination gets
-- nothing.
pub handle_connect-Answered :
    (p : Framed) (u : Upstream) (g : StreamGuard)
    → Silent (handle_connect p u g)
      ⊎ ((dest : Address) × (read_connect_message p ≡ ok dest)
          × Answered p (connect_to_destination u dest) (handle_connect p u g))
unfolding handle_connect
handle_connect-Answered p u g = handle_request-Answered p u g (read_connect_message p)
