-- ===== src/Client/Open.antt =====
-- Authentication and the opening of a tunnel stream (authenticate and open_bidirectional in
-- crates/ombrac-client/src/connection/mod.rs), and the reply that a SOCKS client gets for a refused
-- stream.
use ombrac.Prelude.{
  true, Option, none, some, ◌+◌, ◌≡◌, ◌⊎◌, inl, inr, refl, ◌∙◌, ap, String, Bool-cases,
  Result-cases, bind-ok, ok, err,
}
use ombrac.Net.{Bytes, IoError, io_error, IoResult, permission_denied}
use ombrac.Metrics.{Counters}
use ombrac.Protocol.{Address, auth_ok, auth_err, from_io_error, connect_ok, connect_err}
use ombrac.Socks.{general_failure, from_connect_error}
use ombrac.Client.{Handshake, Hello, hello_message, do_auth, read_auth, auth_answer, authenticate}
use ombrac.Client.Stream.{Exchange, read_response, finish_open, open_bidirectional, to_error_kind}

auth_answer-ok :
    {C : Type 0} (t : Handshake C) (conn c : C) (response : _)
    → auth_answer t conn response ≡ ok c
    → (response ≡ auth_ok) × (conn ≡ c)
unfolding auth_answer
auth_answer-ok t conn c auth_ok q =
    let (u, shut, same) = bind-ok t.shutdown (λ u. ok conn) c q in (refl, cc (same))
auth_answer-ok t conn c auth_err q = absurd (cc (q))

read_auth-ok :
    {C : Type 0} (h : Hello) (t : Handshake C) (conn c : C) (frame : Option (IoResult Bytes))
    → read_auth h t conn frame ≡ ok c
    → (payload : Bytes) × (frame ≡ some (ok payload))
      × (h.decode_response payload ≡ ok auth_ok)
      × (conn ≡ c)
unfolding read_auth
read_auth-ok h t conn c (some (ok payload)) q =
    let (response, decoded, q1) = bind-ok (h.decode_response payload) _ c q in
    let (same, conn_same) = auth_answer-ok t conn c response q1 in
    (payload, refl, decoded ∙ ap ok same, conn_same)
read_auth-ok h t conn c (some (err e)) q = absurd (cc (q))
read_auth-ok h t conn c none q = absurd (cc (q))

-- Authentication gives a connection only within the time limit, and only the one that the transport
-- made, when the server's frame, which it sent after it was given the encoded hello with version,
-- secret and options, decodes to the positive response.
pub authenticate_ok :
    {C : Type 0} (h : Hello) (t : Handshake C) (c : C)
    → authenticate h t ≡ ok c
    → (t.in_time ≡ true)
      × (t.connect ≡ ok c)
      × ((encoded : Bytes) × (payload : Bytes) × (h.encode_hello (hello_message h) ≡ ok encoded)
          × (t.next encoded ≡ some (ok payload))
          × (h.decode_response payload ≡ ok auth_ok))
unfolding authenticate do_auth
authenticate_ok h t c q = elim (Bool-cases t.in_time) [
  | inr late ↦ absurd (cc (simp (late) at q))
  | inl e ↦
      let q1 = simp (e) at q in
      let (conn, connected, q2) = bind-ok t.connect _ c q1 in
      let (u, opened, q3) = bind-ok t.open_stream _ c q2 in
      let (encoded, made, q4) = bind-ok (h.encode_hello (hello_message h)) _ c q3 in
      let (v, sent, q5) = bind-ok (t.send encoded) _ c q4 in
      let (payload, next, decoded, same) = read_auth-ok h t conn c (t.next encoded) q5 in
      (e, cc (connected, same), (encoded, payload, made, next, decoded))
]

-- A stream is given only when the server answered that it is connected; it is counted as opened,
-- and the octets that came behind the answer are kept for it.
pub open_bidirectional-ok :
    (c c' : Counters) (r : IoResult Exchange) (dest : Address) (rest : Bytes)
    → open_bidirectional c r dest ≡ (c', ok rest)
    → (x : Exchange) × (r ≡ ok x)
      × (read_response x dest ≡ ok connect_ok)
      × (rest ≡ x.read_buf)
      × (c' ≡ record c { streams_opened = c.streams_opened + 1 })
unfolding open_bidirectional finish_open
open_bidirectional-ok c c' (err e) dest rest q = absurd (cc (q))
open_bidirectional-ok c c' (ok x) dest rest q = elim (Result-cases (read_response x dest)) [
  | inr (e, k) ↦ absurd (cc (rw (k, open_bidirectional) at q))
  | inl (connect_ok, k) ↦ let q' = rw (k, open_bidirectional) at q in (x, refl, k, cc (q'), cc (q'))
  | inl (connect_err kind message, k) ↦ absurd (cc (rw (k, open_bidirectional) at q))
]

-- An error of the server's connection reaches the SOCKS client with the reply of its own kind,
-- whatever its message, except that a denied permission becomes a general failure.
pub from_connect_error-forwarded :
    (e : IoError) (message : String)
    → ((e.kind ≡ permission_denied)
        × (from_connect_error (io_error (to_error_kind (from_io_error e)) message)
            ≡ general_failure))
      ⊎ (from_connect_error (io_error (to_error_kind (from_io_error e)) message)
          ≡ from_connect_error e)
unfolding from_connect_error to_error_kind from_io_error
from_connect_error-forwarded e message =
    elim e.kind
      as (λ k.
        (k ≡ permission_denied)
          × (from_connect_error
                (io_error (to_error_kind (from_io_error (io_error k e.message))) message)
              ≡ general_failure)
        ⊎ (from_connect_error
              (io_error (to_error_kind (from_io_error (io_error k e.message))) message)
            ≡ from_connect_error (io_error k e.message))) [
              | permission_denied ↦ inl (refl, refl)
              | _ ↦ inr refl
            ]
