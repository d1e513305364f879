-- ===== src/Auth/Verdict.antt =====
-- Whom the server accepts (crates/ombrac-server/src/connection/mod.rs), and what the client
-- (crates/ombrac-client/src/connection/mod.rs) makes of its answer.
use ombrac.Prelude.{
  Bool-cases, inl, inr, ◌≡◌, ◌≢◌, ◌⊎◌, refl, true, Option, none, some, List, [], ◌∷◌, ◌==◌, ok, err,
  arith,
}
use ombrac.Net.{Bytes, IoResult, io_error, permission_denied, unexpected_eof}
use ombrac.Protocol.{ClientHello, ServerAuthResponse, auth_ok, protocol_version}
use ombrac.Client.{Handshake, Hello, hello_message, authenticate, do_auth, read_auth, auth_answer}
use ombrac.Auth.{
  ClientMessage, hello, invalid_secret, auth_io_error, Bytes-discrete, verify_decided,
  secret_authenticator, Control, nothing, disconnect_with_random_delay, read_message, read_frame,
  read_hello_message, send_encoded, send_auth_ok_response, after_verify, verify_authentication,
  verify_read, perform_authentication,
}

verify-same : (x y : Bytes) → x ≡ y → verify_decided (Bytes-discrete x y) ≡ ok tt
unfolding verify_decided
verify-same x y e = elim (Bytes-discrete x y) as (λ d. verify_decided d ≡ ok tt) [
  | yes p ↦ refl
  | no p ↦ absurd (p e)
]

verify-differ : (x y : Bytes) → x ≢ y → verify_decided (Bytes-discrete x y) ≡ err invalid_secret
unfolding verify_decided
verify-differ x y ne = elim (Bytes-discrete x y) as (λ d. verify_decided d ≡ err invalid_secret) [
  | yes p ↦ absurd (ne p)
  | no p ↦ refl
]

-- The server's verdict on a hello in its three cases: another version is refused behind the random
-- delay, with the stream shut; a wrong secret is refused at once, without the delay and without a
-- frame; and otherwise the positive response is sent.
pub verify_authentication_cases :
    (c : Control) (secret : Bytes) (h : ClientHello)
    → ((h.version ≢ protocol_version)
        × (verify_authentication c (secret_authenticator secret) h ≡ (
          disconnect_with_random_delay,
          err (io_error permission_denied "incompatible version"),
        )))
      ⊎ (((h.version ≡ protocol_version)
            × (h.secret ≢ secret)
            × (verify_authentication c (secret_authenticator secret) h
                ≡ (nothing, err (io_error permission_denied "invalid authentication secret"))))
          ⊎ ((h.version ≡ protocol_version)
              × (h.secret ≡ secret)
              × (verify_authentication c (secret_authenticator secret) h
                  ≡ send_auth_ok_response c)))
unfolding verify_authentication after_verify auth_io_error
verify_authentication_cases c secret h = elim (Bool-cases (h.version == protocol_version)) [
  | inr b ↦ inl (ground arith, simp (b) refl)
  | inl b ↦ elim (Bytes-discrete h.secret secret) [
    | no ne ↦ inr (inl (ground arith, ne, simp (b, verify-differ h.secret secret ne) refl))
    | yes e ↦ inr (inr (ground arith, e, simp (b, verify-same h.secret secret e) refl))
  ]
]

module _ (h : Hello) (decode : Bytes → IoResult ClientMessage)
    (encode : ServerAuthResponse → IoResult Bytes) where
  -- The server's control stream when everything arrives in time, on the client's frame.
  abbrev pub listening : Bytes → Control
  listening encoded = record {
    accept_bidirectional = ok tt;
    next_in_time = true;
    next = some (ok encoded);
    decode = decode;
    encode = encode;
    send_in_time = true;
    send = λ b. ok tt;
  }

  -- The frame that comes back to the client, if any, before the stream ends.
  abbrev pub first_frame : List Bytes → Option (IoResult Bytes)
  first_frame [] = none
  first_frame (f ∷ rest) = some (ok f)

  -- A transport without failures between the client and a server with this secret.
  abbrev pub link : {C : Type 0} → C → Bytes → Handshake C
  link conn secret = record {
    connect = ok conn;
    open_stream = ok tt;
    send = λ b. ok tt;
    next = λ b.
        first_frame (perform_authentication (listening b) (secret_authenticator secret)).0.sent;
    shutdown = ok tt;
    in_time = true;
  }

  server-verdict :
      (secret encoded : Bytes)
      → decode encoded ≡ ok (hello (hello_message h))
      → perform_authentication (listening encoded) (secret_authenticator secret)
        ≡ after_verify (listening encoded) (verify_decided (Bytes-discrete h.secret secret))
  unfolding perform_authentication read_hello_message read_frame verify_read read_message
      verify_authentication
  server-verdict secret encoded b = rw b refl

  sent-accepted :
      (secret encoded frame : Bytes)
      → decode encoded ≡ ok (hello (hello_message h))
      → encode auth_ok ≡ ok frame
      → h.secret ≡ secret
      → (perform_authentication (listening encoded) (secret_authenticator secret)).0.sent
        ≡ frame ∷ []
  unfolding after_verify send_auth_ok_response send_encoded
  sent-accepted secret encoded frame b c e =
      rw (server-verdict secret encoded b, verify-same h.secret secret e, c) refl

  sent-refused :
      (secret encoded : Bytes)
      → decode encoded ≡ ok (hello (hello_message h))
      → h.secret ≢ secret
      → (perform_authentication (listening encoded) (secret_authenticator secret)).0.sent ≡ []
  unfolding after_verify
  sent-refused secret encoded b ne =
      rw (server-verdict secret encoded b, verify-differ h.secret secret ne) refl

  -- Client and server agree: over a transport without failures, with a codec that reads back what it
  -- wrote, the client is authenticated when its secret is the server's, and otherwise its handshake
  -- ends with the error that the server closed the connection.
  pub authenticate-perform_authentication :
      {C : Type 0} (conn : C) (secret encoded frame : Bytes)
      → h.encode_hello (hello_message h) ≡ ok encoded
      → decode encoded ≡ ok (hello (hello_message h))
      → encode auth_ok ≡ ok frame
      → h.decode_response frame ≡ ok auth_ok
      → ((h.secret ≡ secret) × (authenticate h (link conn secret) ≡ ok conn))
        ⊎ ((h.secret ≢ secret)
            × (authenticate h (link conn secret)
                ≡ err
                    (io_error unexpected_eof "connection closed by server during authentication")))
  unfolding authenticate do_auth read_auth auth_answer
  authenticate-perform_authentication conn secret encoded frame a b c d =
      elim (Bytes-discrete h.secret secret) [
        | yes e ↦ inl (e, rw (a, sent-accepted secret encoded frame b c e, d) refl)
        | no ne ↦ inr (ne, rw (a, sent-refused secret encoded b ne) refl)
      ]
