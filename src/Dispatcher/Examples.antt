-- ===== src/Dispatcher/Examples.antt =====
-- Two sessions of a client (crates/ombrac-client/src/connection/datagram.rs), and the theorems at these
-- inputs.
use native.Mathlib.Decide.{ℕ_discrete}
use ombrac.Prelude.{ℕ, none, some, List, [], ◌∷◌, ◌%◌, ◌^◌, min, replicate, ◌≡◌, refl, ok, err}
use ombrac.Net.{Bytes, IoError, io_error, IoResult, connection_reset, invalid_data, other}
use ombrac.Cache.Map.{map_cache}
use ombrac.Protocol.{domain, UdpPacket, unfragmented}
use ombrac.Reassembly.{Buffers, process}
use ombrac.Dispatcher.{
  Message, sending, dropping, Dispatcher, new_dispatcher, register_session, open_associate, put,
  send_open, send, dispatch_found, dispatch, opened, dispatched, Steps, here, there, take_packet,
  read_datagram, datagram_initial_delay, datagram_max_delay,
}
use ombrac.Dispatcher.Sessions.{IsSound, Steps-IsSound}
use ombrac.Dispatcher.Stuck.{dispatch_stuck}
use ombrac.Dispatcher.Reading.{Datagram, IsDelay, run_rounds, run_rounds_lem}

abbrev by_parity : ℕ → ℕ
by_parity n = n % 2

abbrev test_message : Message
test_message = (7 ∷ [], domain (97 ∷ []) 53)

abbrev one_message : Dispatcher
one_message = dispatch (open_associate (open_associate new_dispatcher)) 2 test_message

test_dispatch : one_message.dispatch_map 2 ≡ some (test_message ∷ [])
unfolding dispatch dispatch_found send send_open put open_associate register_session ℕ_discrete
test_dispatch = refl

one_message-Steps : Steps by_parity new_dispatcher one_message
unfolding open_associate register_session
one_message-Steps =
    there (open_associate (open_associate new_dispatcher)) _
      (there (open_associate new_dispatcher) _ (there new_dispatcher _ here (opened tt))
        (opened tt))
      (dispatched 2 test_message refl)

Steps-IsSound_example : IsSound one_message
Steps-IsSound_example = Steps-IsSound by_parity one_message one_message-Steps

dispatch_stuck_example :
    (w : Dispatcher) × Steps by_parity new_dispatcher w
    × ((t : Dispatcher)
        → Steps by_parity w t
        → (t.task ≡ sending 1 test_message) × (t.sessions 1 ≡ dropping))
dispatch_stuck_example = dispatch_stuck by_parity test_message

abbrev test_error : IoError
test_error = io_error connection_reset ""

abbrev test_datagram : Datagram
test_datagram = (1, domain (97 ∷ []) 53, 7 ∷ [])

abbrev test_buffers : Buffers
test_buffers = map_cache (hlevel ℕ_discrete)

-- A frame of one octet is a datagram of session 1, and no other is one.
abbrev test_decode : Bytes → IoResult UdpPacket
test_decode (b ∷ []) = ok (unfragmented 1 (domain (97 ∷ []) 53) (b ∷ []))
test_decode [] = err (io_error invalid_data "")
test_decode (b ∷ c ∷ rest) = err (io_error invalid_data "")

abbrev test_calls : List (IoResult Bytes)
test_calls = ok [] ∷ ok (7 ∷ []) ∷ err test_error ∷ []

test_read_datagram :
    (read_datagram test_buffers test_decode (λ k. none) test_calls).1
    ≡ some (ok test_datagram, err test_error ∷ [])
unfolding read_datagram take_packet process
test_read_datagram = refl

-- A failure, a datagram and seven failures.
abbrev lost_connection : IoError
lost_connection = io_error other "connection lost"

run_rounds_lem_example :
    IsDelay (run_rounds datagram_initial_delay (err lost_connection ∷ []))
    × (run_rounds datagram_initial_delay (
          err lost_connection ∷ ok (1, domain (97 ∷ []) 53, []) ∷ replicate 7 (err lost_connection))
        ≡ min (2 ^ 7) datagram_max_delay)
run_rounds_lem_example =
    run_rounds_lem (err lost_connection ∷ []) (1, domain (97 ∷ []) 53, []) 7 lost_connection
