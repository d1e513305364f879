-- ===== src/Client.antt =====
-- crates/ombrac-client/src/connection/mod.rs: the client's connection to the server, with its
-- authentication, its reconnection under a backoff, and the opening of a tunnel stream. The
-- transport, the bincode codec and the clock are arguments. A Duration is in nanoseconds.
pub mod Backoff
pub mod Reconnect
pub mod Stream
pub mod Open
mod Examples
use ombrac.Prelude.{
  ℕ, zero, suc, String, Bool, true, false, Option, none, some, List, [], ◌∷◌, ◌+◌, ◌-◌, ◌*◌, ◌/◌,
  min, ltb, leb, ◌==◌, not, if◌then◌else◌, length, Result, ok, err, ◌>>=◌, ◌>>◌,
}
use ombrac.Net.{
  Bytes, ErrorKind, connection_refused, network_unreachable, host_unreachable, timed_out,
  permission_denied, not_found, invalid_input, invalid_data, unexpected_eof, connection_reset,
  connection_aborted, not_connected, broken_pipe, network_down, other, IoError, io_error, IoResult,
}
use ombrac.Metrics.{Counters, zero_counters}
use ombrac.Protocol.{
  Address, ClientHello, ClientConnect, ServerAuthResponse, auth_ok, auth_err, ConnectErrorKind,
  refused, net_unreachable, unreachable, timeout, unspecified, ServerConnectResponse, connect_ok,
  connect_err, protocol_version,
}

abbrev pub auth_timeout : ℕ
auth_timeout = 10 * 1000000000

abbrev pub initial_reconnect_backoff : ℕ
initial_reconnect_backoff = 1000000000

abbrev pub max_reconnect_backoff : ℕ
max_reconnect_backoff = 60 * 1000000000

-- `d` times the jitter 0.8 + nanos / 10^9 * 0.4, exactly and then rounded down; f64 rounds twice.
unfoldable pub jittered : ℕ → ℕ → ℕ
jittered d nanos = d * (8000000000 + 4 * nanos) / 10000000000

-- next_backoff, at the nanoseconds of the clock's current second.
unfoldable pub next_backoff : ℕ → ℕ → ℕ
unfolding jittered
next_backoff current nanos =
    let doubled = min (current * 2) max_reconnect_backoff in
    min (jittered doubled nanos) max_reconnect_backoff

-- The state that a ClientConnection changes: the connection with its number, the ReconnectState
-- under its lock, and the counters.
pub record ClientConnection (C : Type 0) : Type 0 where
  pub connection : C
  pub connection_id : ℕ
  pub last_attempt : Option ℕ
  pub backoff : ℕ
  pub counters : Counters

-- What other tasks change of the connection while with_retry runs: between its loads of the connection
-- and of the number, before it holds the lock, and after it has released it.
pub record Others (C : Type 0) : Type 0 where
  pub between_loads : ClientConnection C → ClientConnection C
  pub before_lock : ClientConnection C → ClientConnection C
  pub after_lock : ClientConnection C → ClientConnection C

-- ClientConnection::new, on the authenticated connection.
abbrev pub new_connection : {C : Type 0} → C → ClientConnection C
new_connection conn = record {
  connection = conn;
  connection_id = 0;
  last_attempt = none;
  backoff = initial_reconnect_backoff;
  counters = zero_counters;
}

-- is_connection_error
unfoldable pub is_connection_error : IoError → Bool
is_connection_error e = elim e.kind [
  | connection_reset ↦ true
  | connection_aborted ↦ true
  | broken_pipe ↦ true
  | not_connected ↦ true
  | timed_out ↦ true
  | unexpected_eof ↦ true
  | network_unreachable ↦ true
  | network_down ↦ true
  | _ ↦ false
]

-- What the transport and the server do in one handshake: the frame that comes back may depend on
-- the octets sent. `in_time` is false when AUTH_TIMEOUT ends first.
pub record Handshake (C : Type 0) : Type 0 where
  pub connect : IoResult C
  pub open_stream : IoResult (Unit {0})
  pub send : Bytes → IoResult (Unit {0})
  pub next : Bytes → Option (IoResult Bytes)
  pub shutdown : IoResult (Unit {0})
  pub in_time : Bool

-- The bincode codec of the two messages, and what every handshake sends.
pub record Hello : Type 0 where
  pub encode_hello : ClientHello → IoResult Bytes
  pub decode_response : Bytes → IoResult ServerAuthResponse
  pub secret : Bytes
  pub options : Bytes

abbrev pub hello_message : Hello → ClientHello
hello_message h = record { version = protocol_version; secret = h.secret; options = h.options }

unfoldable pub auth_answer : {C : Type 0} → Handshake C → C → ServerAuthResponse → IoResult C
auth_answer t conn auth_ok = t.shutdown >> ok conn
auth_answer t conn auth_err = err (io_error other "authentication failed")

-- The frame that came back.
unfoldable pub read_auth :
    {C : Type 0} → Hello → Handshake C → C → Option (IoResult Bytes) → IoResult C
read_auth h t conn (some (ok payload)) = do
  response ← h.decode_response payload
  auth_answer t conn response
read_auth h t conn (some (err e)) = err e
read_auth h t conn none =
    err (io_error unexpected_eof "connection closed by server during authentication")

unfoldable pub do_auth : {C : Type 0} → Hello → Handshake C → IoResult C
do_auth h t = do
  conn ← t.connect
  t.open_stream
  encoded ← h.encode_hello (hello_message h)
  t.send encoded
  read_auth h t conn (t.next encoded)

unfoldable pub authenticate : {C : Type 0} → Hello → Handshake C → IoResult C
authenticate h t =
    if t.in_time
    then do_auth h t
    else err (io_error timed_out "client authentication timed out after {}s")

-- What one call of `reconnect` meets: the clock, the jitter's nanoseconds, and the transport.
pub record Attempt (C : Type 0) : Type 0 where
  pub now : ℕ
  pub nanos : ℕ
  pub rebind : IoResult (Unit {0})
  pub handshake : Handshake C

-- Whether less than the backoff has passed since the last attempt.
unfoldable pub throttled : Option ℕ → ℕ → ℕ → Bool
throttled none backoff now = false
throttled (some last) backoff now = ltb (now - last) backoff

module _ {C : Type 0} (h : Hello) where
  abbrev pub failed_attempt : ClientConnection C → Attempt C → ClientConnection C
  failed_attempt s a = record s { backoff = next_backoff s.backoff a.nanos }

  abbrev pub connected : ClientConnection C → C → ClientConnection C
  connected s conn = record s {
    connection = conn;
    connection_id = s.connection_id + 1;
    last_attempt = none;
    backoff = initial_reconnect_backoff;
    counters = record s.counters { reconnect_succeeded = s.counters.reconnect_succeeded + 1 };
  }

  -- `state.last_attempt = Some(now)`, and the attempt is counted.
  abbrev pub started : ClientConnection C → ℕ → ClientConnection C
  started s now = record s {
    last_attempt = some now;
    counters = record s.counters { reconnect_attempts = s.counters.reconnect_attempts + 1 };
  }

  unfoldable pub attempt_result : Attempt C → IoResult C
  attempt_result a = a.rebind >> authenticate h a.handshake

  -- What is left of an attempt: an error of either step raises the backoff.
  unfoldable pub settle :
      ClientConnection C → Attempt C → IoResult C → ClientConnection C × IoResult (Unit {0})
  settle s a (ok conn) = (connected s conn, ok tt)
  settle s a (err e) = (failed_attempt s a, err e)

  -- The attempt itself: rebind, then authenticate.
  unfoldable pub attempt : ClientConnection C → Attempt C → ClientConnection C × IoResult (Unit {0})
  attempt s a = settle s a (attempt_result a)

  -- ClientConnection::reconnect, run under its lock; a throttled call only waits outside of it.
  unfoldable pub reconnect :
      ClientConnection C → ℕ → Attempt C → ClientConnection C × IoResult (Unit {0})
  reconnect s old_conn_id a =
      if not (s.connection_id == old_conn_id)
      then (s, ok tt)
      else if throttled s.last_attempt s.backoff a.now
      then (s, err (io_error other "reconnect throttled"))
      else attempt (started s a.now) a

  -- ClientConnection::with_retry. `operation n` is the n-th call of the operation.
  unfoldable pub with_retry :
      {R : Type 0}
      → (ℕ → C → IoResult R)
      → Others C
      → Attempt C
      → ClientConnection C
      → ClientConnection C × IoResult R
  with_retry operation others a s =
      let loaded = others.between_loads s in
      elim (operation 0 s.connection) [
        | ok result ↦ (loaded, ok result)
        | err e ↦
            if is_connection_error e
            then (let t = reconnect (others.before_lock loaded) loaded.connection_id a in
                let later = others.after_lock t.0 in
                elim (t.1) [
                  | ok u ↦ (later, operation 1 later.connection)
                  | err e' ↦ (t.0, err e')
                ])
            else (loaded, err e)
      ]
