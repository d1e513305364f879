-- ===== src/Dispatcher.antt =====
-- The client's UDP sessions: crates/ombrac-client/src/connection/datagram.rs, and the sessions' numbers
-- of crates/ombrac-client/src/client.rs. The connection, the codec and the hashing of the map are
-- arguments.
pub mod Sessions
pub mod Stuck
pub mod Reading
mod Examples
use native.Mathlib.Decide.{ℕ_discrete}
use ombrac.Prelude.{
  ℕ, suc, Option, none, some, List, [], ◌∷◌, ◌++◌, ◌+◌, ◌*◌, ◌<◌, min, ltb, if◌then◌else◌, length,
  ◌≡◌, ◌≢◌, Result, ok, err,
}
use ombrac.Net.{Bytes, IoError, IoResult}
use ombrac.Cache.Map.{write}
use ombrac.Protocol.{Address, UdpPacket, unfragmented}
use ombrac.Reassembly.{Buffers, Delivery, process}
use ombrac.Client.{Hello, ClientConnection, Attempt, Others, with_retry}

abbrev pub Message : Type 0
Message = Bytes × Address

abbrev pub udp_session_channel_buffer_size : ℕ
udp_session_channel_buffer_size = 128

-- A UdpSession: its owner uses it, runs its drop, which waits for the map, or has dropped it with its
-- receiver.
pub data Session : Type 0 where
  unopened live dropping dropped : Session

-- The dispatcher's task. Inside `dispatch` it holds the guard of `dispatch_map.get` while it waits
-- for room in the channel of a session, and while it removes a session from the map.
pub data Task : Type 0 where
  idle : Task
  sending : ℕ → Message → Task
  removing : ℕ → Task

-- UdpDispatcher's map with the queues of its channels, the sessions, and the Client's counter.
pub record Dispatcher : Type 0 where
  pub dispatch_map : ℕ → Option (List Message)
  pub sessions : ℕ → Session
  pub session_id_counter : ℕ
  pub task : Task

abbrev pub set_queue : Dispatcher → ℕ → Option (List Message) → Dispatcher
set_queue w session_id o = record w { dispatch_map = write ℕ_discrete w.dispatch_map session_id o }

abbrev pub set_session : (ℕ → Session) → ℕ → Session → ℕ → Session
set_session sessions session_id s j = elim (ℕ_discrete j session_id) [
  | yes e ↦ s
  | no ne ↦ sessions j
]

-- The Client's dispatcher at the start: UdpDispatcher::new, and a counter from 1.
abbrev pub new_dispatcher : Dispatcher
new_dispatcher = record {
  dispatch_map = λ j. none;
  sessions = λ j. unopened;
  session_id_counter = 1;
  task = idle;
}

unfoldable pub register_session : Dispatcher → ℕ → Dispatcher
register_session w session_id = set_queue w session_id (some [])

unfoldable pub unregister_session : Dispatcher → ℕ → Dispatcher
unregister_session w session_id = set_queue w session_id none

-- Client::open_associate
unfoldable pub open_associate : Dispatcher → Dispatcher
open_associate w =
    register_session
      (record w {
        session_id_counter = w.session_id_counter + 1;
        sessions = set_session w.sessions w.session_id_counter live;
      })
      w.session_id_counter

-- `tx.send` with room in the channel.
unfoldable pub put : Dispatcher → ℕ → Message → List Message → Dispatcher
put w session_id m q = record (set_queue w session_id (some (q ++ m ∷ []))) { task = idle }

-- `tx.send` to a receiver that is there waits for room.
unfoldable pub send_open : Dispatcher → ℕ → Message → List Message → Dispatcher
send_open w session_id m q =
    if ltb (length q) udp_session_channel_buffer_size
    then put w session_id m q
    else record w { task = sending session_id m }

-- `tx.send` fails when the receiver is gone.
unfoldable pub send : Dispatcher → ℕ → Message → List Message → Session → Dispatcher
send w session_id m q dropped = record w { task = removing session_id }
send w session_id m q unopened = send_open w session_id m q
send w session_id m q live = send_open w session_id m q
send w session_id m q dropping = send_open w session_id m q

unfoldable pub dispatch_found : Dispatcher → ℕ → Message → Option (List Message) → Dispatcher
dispatch_found w session_id m none = w
dispatch_found w session_id m (some q) = send w session_id m q (w.sessions session_id)

-- UdpDispatcher::dispatch, up to its first wait.
unfoldable pub dispatch : Dispatcher → ℕ → Message → Dispatcher
dispatch w session_id m = dispatch_found w session_id m (w.dispatch_map session_id)

module _ (shard : ℕ → ℕ) where
  -- No guard of the map is held in the shard of a session, so that an insert or a removal goes on.
  abbrev pub Free : Task → ℕ → Type 0
  Free idle j = Unit
  Free (sending k m) j = shard j ≢ shard k
  Free (removing k) j = shard j ≢ shard k

  -- The dispatcher's task and the owners of the sessions take turns. The removal in `dispatch` has no
  -- step: it waits for a guard that `dispatch` itself holds.
  pub data Step (w : Dispatcher) : Dispatcher → Type 0 where
    opened : Free w.task w.session_id_counter → Step w (open_associate w)
    dispatched : (id : ℕ) (m : Message) → w.task ≡ idle → Step w (dispatch w id m)
    resumed :
        (id : ℕ) (m : Message) (q : List Message)
        → w.task ≡ sending id m
        → w.dispatch_map id ≡ some q
        → length q < udp_session_channel_buffer_size
        → Step w (put w id m q)
    refused :
        (id : ℕ) (m : Message)
        → w.task ≡ sending id m
        → w.sessions id ≡ dropped
        → Step w (record w { task = removing id })
    received :
        (id : ℕ) (m : Message) (q : List Message)
        → w.sessions id ≡ live
        → w.dispatch_map id ≡ some (m ∷ q)
        → Step w (set_queue w id (some q))
    drop_begun :
        (id : ℕ)
        → w.sessions id ≡ live
        → Step w (record w { sessions = set_session w.sessions id dropping })
    unregistered :
        (id : ℕ)
        → w.sessions id ≡ dropping
        → Free w.task id
        → Step w (unregister_session (record w { sessions = set_session w.sessions id dropped }) id)

  pub data Steps (w : Dispatcher) : Dispatcher → Type 0 where
    here : Steps w w
    there : (t u : Dispatcher) → Steps w t → Step t u → Steps w u

-- DATAGRAM_INITIAL_DELAY and DATAGRAM_MAX_DELAY, in seconds.
abbrev pub datagram_initial_delay : ℕ
datagram_initial_delay = 1

abbrev pub datagram_max_delay : ℕ
datagram_max_delay = 60

-- A round of `UdpDispatcher::run` with the result of read_datagram: the delay that it leaves, and what
-- it dispatches.
unfoldable pub run_round : ℕ → IoResult (ℕ × Address × Bytes) → ℕ × Option (ℕ × Message)
run_round delay (ok (session_id, address, payload)) =
    (datagram_initial_delay, some (session_id, (payload, address)))
run_round delay (err e) = (min (delay * 2) datagram_max_delay, none)

module _ (c : Buffers) (decode : Bytes → IoResult UdpPacket) where
  -- What the loop of read_datagram does with a packet: it goes on, or returns.
  unfoldable pub take_packet : c.State → IoResult UdpPacket → c.State × Option (ℕ × Address × Bytes)
  take_packet s (err e) = (s, none)
  take_packet s (ok packet) =
      let (s', r) = process c s packet in (s', elim r [ ok delivery ↦ delivery | err e ↦ none ])

  -- read_datagram on what `with_retry` gives, call after call: the result with the calls that are
  -- left, or none while it waits for the next one.
  unfoldable pub read_datagram :
      c.State
      → List (IoResult Bytes)
      → c.State × Option (IoResult (ℕ × Address × Bytes) × List (IoResult Bytes))
  read_datagram s [] = (s, none)
  read_datagram s (err e ∷ rest) = (s, some (err e, rest))
  read_datagram s (ok packet_bytes ∷ rest) =
      let (s', taken) = take_packet s (decode packet_bytes) in
      let further = read_datagram s' rest in
      elim taken [ some d ↦ (s', some (ok d, rest)) | none ↦ further ]

-- send_datagram over the connection, with its retry.
unfoldable pub send_encoded :
    {C : Type 0}
    → Hello
    → (ℕ → C → Bytes → IoResult (Unit {0}))
    → Others C
    → Attempt C
    → ClientConnection C
    → IoResult Bytes
    → ClientConnection C × IoResult (Unit {0})
send_encoded h transmit others a s (err e) = (s, err e)
send_encoded h transmit others a s (ok encoded) =
    with_retry h (λ n conn. transmit n conn encoded) others a s

unfoldable pub send_datagram :
    {C : Type 0}
    → Hello
    → (UdpPacket → IoResult Bytes)
    → (ℕ → C → Bytes → IoResult (Unit {0}))
    → Others C
    → Attempt C
    → ClientConnection C
    → ℕ
    → Address
    → Bytes
    → ClientConnection C × IoResult (Unit {0})
send_datagram h encode transmit others a s session_id dest payload =
    send_encoded h transmit others a s (encode (unfragmented session_id dest payload))
