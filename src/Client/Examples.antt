-- ===== src/Client/Examples.antt =====
-- A connection that is lost and made again (crates/ombrac-client/src/connection/mod.rs), and the
-- theorems at these inputs. A connection is a number here.
use ombrac.Prelude.{ℕ, zero, suc, true, some, List, [], ◌∷◌, ◌≡◌, ◌⊎◌, refl, ok, err}
use ombrac.Net.{Bytes, IoError, io_error, IoResult, other, connection_reset, host_unreachable}
use ombrac.Metrics.{Counters, zero_counters}
use ombrac.Protocol.{auth_ok, connect_ok, domain}
use ombrac.Client.{
  ClientConnection, new_connection, Handshake, Hello, hello_message, do_auth, read_auth,
  auth_answer, authenticate, Attempt, throttled, attempt, attempt_result, settle, reconnect,
  with_retry, Others, is_connection_error, next_backoff, jittered,
}
use ombrac.Client.Stream.{Exchange, read_response, finish_open, open_bidirectional}
use ombrac.Client.Reconnect.{
  IsValid, new-IsValid, reconnect-IsValid, reconnect_all, reconnect_all-once,
}
use ombrac.Client.Open.{authenticate_ok}

abbrev test_hello : Hello
test_hello = record {
  encode_hello = λ m. ok (m.version ∷ m.secret);
  decode_response = λ b. ok auth_ok;
  secret = 5 ∷ [];
  options = [];
}

abbrev test_handshake : Handshake ℕ
test_handshake = record {
  connect = ok 8;
  open_stream = ok tt;
  send = λ b. ok tt;
  next = λ b. some (ok b);
  shutdown = ok tt;
  in_time = true;
}

abbrev test_attempt : Attempt ℕ
test_attempt = record { now = 100; nanos = 0; rebind = ok tt; handshake = test_handshake }

abbrev failing_attempt : Attempt ℕ
failing_attempt = record {
  now = 100;
  nanos = 0;
  rebind = err (io_error other "");
  handshake = test_handshake;
}

abbrev early_attempt : Attempt ℕ
early_attempt = record failing_attempt { now = 200 }

abbrev test_client : ClientConnection ℕ
test_client = new_connection 7

abbrev waiting_client : ClientConnection ℕ
waiting_client = record test_client { last_attempt = some 100 }

test_authenticate : authenticate test_hello test_handshake ≡ ok 8
unfolding authenticate do_auth read_auth auth_answer
test_authenticate = refl

test_reconnect : (reconnect test_hello test_client 0 failing_attempt).0.backoff ≡ 1600000000
unfolding reconnect attempt attempt_result settle throttled next_backoff jittered
test_reconnect = refl

abbrev test_operation : ℕ → ℕ → IoResult ℕ
test_operation zero conn = err (io_error connection_reset "")
test_operation (suc n) conn = ok conn

abbrev reconnected : ClientConnection ℕ
reconnected = record test_client {
  connection = 8;
  connection_id = 1;
  counters = record zero_counters { reconnect_attempts = 1; reconnect_succeeded = 1 };
}

abbrev nobody : Others ℕ
nobody = record { between_loads = λ s. s; before_lock = λ s. s; after_lock = λ s. s }

test_with_retry :
    with_retry test_hello test_operation nobody test_attempt test_client ≡ (reconnected, ok 8)
unfolding with_retry is_connection_error reconnect attempt attempt_result settle throttled
    authenticate do_auth read_auth auth_answer
test_with_retry = refl

abbrev test_exchange : Exchange
test_exchange = record {
  encode_connect = λ m. ok (1 ∷ []);
  decode_response = λ b. ok connect_ok;
  send = λ b. ok tt;
  next = λ b. some (ok b);
  read_buf = 4 ∷ [];
  write_buf = 0;
}

abbrev opened_counters : Counters
opened_counters = record zero_counters { streams_opened = 1 }

test_open :
    open_bidirectional zero_counters (ok test_exchange) (domain (97 ∷ []) 80)
    ≡ (opened_counters, ok (4 ∷ []))
unfolding open_bidirectional read_response finish_open
test_open = refl

reconnect-IsValid_example : IsValid (reconnect test_hello test_client 0 failing_attempt).0
reconnect-IsValid_example =
    reconnect-IsValid test_hello test_client 0 failing_attempt (new-IsValid 7)

abbrev test_attempts : List (Attempt ℕ)
test_attempts = failing_attempt ∷ test_attempt ∷ []

reconnect_all-once_example :
    ((reconnect_all test_hello test_client 0 test_attempts).connection_id ≡ 0)
      × ((reconnect_all test_hello test_client 0 test_attempts).connection ≡ 7)
    ⊎ ((reconnect_all test_hello test_client 0 test_attempts).connection_id ≡ 1)
reconnect_all-once_example = reconnect_all-once test_hello test_client 0 test_attempts refl

authenticate_ok_example :
    (true ≡ true)
    × (test_handshake.connect ≡ ok 8)
    × ((encoded : Bytes) × (payload : Bytes) × (test_hello.encode_hello (hello_message test_hello)
          ≡ ok encoded)
        × (test_handshake.next encoded ≡ some (ok payload))
        × (test_hello.decode_response payload ≡ ok auth_ok))
authenticate_ok_example = authenticate_ok test_hello test_handshake 8 test_authenticate

abbrev test_error : IoError
test_error = io_error host_unreachable "no route"
