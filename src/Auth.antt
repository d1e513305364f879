-- ===== src/Auth.antt =====
-- crates/ombrac-server/src/connection/mod.rs: the server's side of authentication, and the limit on its
-- connections. The control stream, the bincode codec and the timers are arguments.
pub mod Verdict
pub mod Processor
pub mod Limit
mod Examples
use native.Mathlib.Decide.{ℕ_discrete}
use ombrac.Prelude.{
  ℕ, zero, suc, String, Bool, true, false, not, Option, none, some, List, [], ◌∷◌, ◌++◌, ◌+◌, ◌-◌,
  ◌==◌, ◌≡◌, if◌then◌else◌, Result, ok, err,
}
use ombrac.Net.{
  Bytes, permission_denied, invalid_data, unexpected_eof, timed_out, connection_aborted,
  unsupported, other, IoError, io_error, IoResult,
}
use ombrac.Metrics.{Counters, zero_counters}
use ombrac.Protocol.{
  ClientHello, ClientConnect, ServerAuthResponse, auth_ok, auth_err, protocol_version,
}

-- crates/ombrac/src/codec.rs
pub data ClientMessage : Type 0 where
  hello : ClientHello → ClientMessage
  connect : ClientConnect → ClientMessage

pub data ConnectionAuthError : Type 0 where
  incompatible_version invalid_secret server_error : ConnectionAuthError
  other_error : String → ConnectionAuthError

-- `io::Error: From<ConnectionAuthError>`
unfoldable pub auth_io_error : ConnectionAuthError → IoError
auth_io_error incompatible_version = io_error unsupported "incompatible protocol version"
auth_io_error invalid_secret = io_error permission_denied "invalid authentication secret"
auth_io_error server_error = io_error connection_aborted "internal server error during auth"
auth_io_error (other_error msg) = io_error other msg

-- Authenticator::verify, and whether it ends before the timeout.
pub record Authenticator : Type 0 where
  pub verify : ClientHello → Result (Unit {0}) ConnectionAuthError
  pub in_time : Bool

unfoldable pub Bytes-discrete : Discrete Bytes
Bytes-discrete = hlevel ℕ_discrete

unfoldable pub verify_decided : {s t : Bytes} → Dec (s ≡ t) → Result (Unit {0}) ConnectionAuthError
verify_decided (yes p) = ok tt
verify_decided (no p) = err invalid_secret

-- `Authenticator for Secret`, which compares the secrets.
abbrev pub secret_authenticator : Bytes → Authenticator
secret_authenticator secret = record {
  verify = λ h. verify_decided (Bytes-discrete h.secret secret);
  in_time = true;
}

-- The control stream of one client, with the codec: what comes in and how sending ends.
pub record Control : Type 0 where
  pub accept_bidirectional : IoResult (Unit {0})
  pub next_in_time : Bool
  pub next : Option (IoResult Bytes)
  pub decode : Bytes → IoResult ClientMessage
  pub encode : ServerAuthResponse → IoResult Bytes
  pub send_in_time : Bool
  pub send : Bytes → IoResult (Unit {0})

-- What the client observes: the frames sent, and whether its stream was shut after the random delay.
pub record Observed : Type 0 where
  pub sent : List Bytes
  pub delayed_shutdown : Bool

abbrev pub nothing : Observed
nothing = record { sent = []; delayed_shutdown = false }

-- disconnect_with_random_delay
abbrev pub disconnect_with_random_delay : Observed
disconnect_with_random_delay = record { sent = []; delayed_shutdown = true }

abbrev pub Step : Type 0 → Type 0
Step A = Observed × IoResult A

unfoldable pub read_message : IoResult ClientMessage → Step ClientHello
read_message (err e) = (nothing, err (io_error invalid_data "failed to decode client message: {}"))
read_message (ok (hello h)) = (nothing, ok h)
read_message (ok (connect c)) = (
  disconnect_with_random_delay,
  err (io_error invalid_data "authentication failed: invalid message type (expected Hello)"),
)

unfoldable pub read_frame :
    (Bytes → IoResult ClientMessage) → Option (IoResult Bytes) → Step ClientHello
read_frame decode none = (nothing, err (io_error unexpected_eof "stream closed before hello"))
read_frame decode (some (err e)) = (nothing, err e)
read_frame decode (some (ok payload)) = read_message (decode payload)

unfoldable pub read_hello_message : Control → Step ClientHello
read_hello_message c = if c.next_in_time then read_frame c.decode c.next else (
  nothing,
  err (io_error timed_out "authentication timeout: failed to receive hello message within {:?}"),
)

unfoldable pub send_encoded : Control → IoResult Bytes → Step (Unit {0})
send_encoded c (err e) = (nothing, err e)
send_encoded c (ok frame) =
    if c.send_in_time
    then (elim (c.send frame) [
      | ok u ↦ (record { sent = frame ∷ []; delayed_shutdown = false }, ok tt)
      | err e ↦ (nothing, err e)
    ])
    else (
      nothing,
      err (io_error timed_out "authentication timeout: failed to send response within {:?}"),
    )

unfoldable pub send_auth_ok_response : Control → Step (Unit {0})
send_auth_ok_response c = send_encoded c (c.encode auth_ok)

unfoldable pub after_verify : Control → Result (Unit {0}) ConnectionAuthError → Step (Unit {0})
after_verify c (ok u) = send_auth_ok_response c
after_verify c (err e) = (nothing, err (auth_io_error e))

unfoldable pub verify_authentication : Control → Authenticator → ClientHello → Step (Unit {0})
verify_authentication c a h =
    if not (h.version == protocol_version)
    then (disconnect_with_random_delay, err (io_error permission_denied "incompatible version"))
    else if a.in_time
    then after_verify c (a.verify h)
    else (nothing, err (io_error timed_out "deadline has elapsed"))

-- `?` on the hello that was read.
unfoldable pub verify_read : Control → Authenticator → Step ClientHello → Step (Unit {0})
verify_read c a (o, ok h) = verify_authentication c a h
verify_read c a (o, err e) = (o, err e)

unfoldable pub perform_authentication : Control → Authenticator → Step (Unit {0})
perform_authentication c a = elim c.accept_bidirectional [
  | err e ↦ (nothing, err (io_error other "failed to accept bidirectional stream: {}"))
  | ok u ↦ verify_read c a (read_hello_message c)
]

-- The free permits of a ConnectionAcceptor, the connections that hold one, and the counters.
pub record ConnectionAcceptor : Type 0 where
  pub permits : ℕ
  pub running : ℕ
  pub counters : Counters

abbrev pub with_config : ℕ → ConnectionAcceptor
with_config max_connections = record {
  permits = max_connections;
  running = 0;
  counters = zero_counters;
}

-- try_acquire_owned, and what follows.
unfoldable pub try_acquire : ConnectionAcceptor → ℕ → ConnectionAcceptor
try_acquire s zero = record s {
  counters = record s.counters { connections_rejected = s.counters.connections_rejected + 1 };
}
try_acquire s (suc left) = record s {
  permits = left;
  running = s.running + 1;
  counters = record s.counters { connections_accepted = s.counters.connections_accepted + 1 };
}

-- handle_incoming_connection, on what `accept` gave.
unfoldable pub handle_incoming_connection :
    ConnectionAcceptor → IoResult (Unit {0}) → ConnectionAcceptor
handle_incoming_connection s (err e) = s
handle_incoming_connection s (ok connection) = try_acquire s s.permits

-- The end of process_connection_with_permit of a running connection, with the processor's result.
unfoldable pub process_connection : ConnectionAcceptor → IoResult (Unit {0}) → ConnectionAcceptor
process_connection s (ok u) = record s { permits = s.permits + 1; running = s.running - 1 }
process_connection s (err e) = record s {
  permits = s.permits + 1;
  running = s.running - 1;
  counters = record s.counters { connections_auth_failed = s.counters.connections_auth_failed + 1 };
}

-- A connection comes in, or a running one ends.
pub data AcceptorStep (s : ConnectionAcceptor) : ConnectionAcceptor → Type 0 where
  incoming : (r : IoResult (Unit {0})) → AcceptorStep s (handle_incoming_connection s r)
  closed :
      (n : ℕ)
      → s.running ≡ suc n
      → (r : IoResult (Unit {0})) → AcceptorStep s (process_connection s r)

pub data Reachable (max_connections : ℕ) : ConnectionAcceptor → Type 0 where
  start : Reachable max_connections (with_config max_connections)
  later :
      (s t : ConnectionAcceptor)
      → Reachable max_connections s
      → AcceptorStep s t
      → Reachable max_connections t
