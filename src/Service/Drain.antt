-- ===== src/Service/Drain.antt =====
-- How the server shuts down (shutdown and shutdown_with_drain in crates/ombrac-server/src/service.rs,
-- accept_loop in crates/ombrac-server/src/connection/mod.rs). A tick of the polling interval is the
-- snapshot that is taken and the time, in milliseconds; the task of the accept loop is what its select
-- gives, turn by turn.
use ombrac.Prelude.{
  ℕ, Bool, true, false, Option, none, some, List, [], ◌∷◌, ◌++◌, ◌+◌, ◌-◌, ◌*◌, ◌≤◌, ◌<◌, ◌==◌, leb,
  ◌≡◌, refl, ap, inl, inr, arith, All, length, if◌then◌else◌, Bool-cases,
}
use ombrac.Net.{IoResult}
use ombrac.Metrics.{Counters}
use ombrac.Auth.{ConnectionAcceptor, handle_incoming_connection}
use ombrac.StreamTunnel.{StreamTunnel, Reachable}
use ombrac.StreamTunnel.Count.{Reachable-IsCounted}

-- A turn of the acceptor's loop: the signal, or what `accept` gave.
pub data AcceptorTurn : Type 0 where
  shutdown_signal : AcceptorTurn
  accepted : IoResult (Unit {0}) → AcceptorTurn

-- The acceptor, and whether its loop has ended.
unfoldable pub acceptor_loop : ConnectionAcceptor → List AcceptorTurn → ConnectionAcceptor × Bool
acceptor_loop s [] = (s, false)
acceptor_loop s (shutdown_signal ∷ rest) = (s, true)
acceptor_loop s (accepted r ∷ rest) = acceptor_loop (handle_incoming_connection s r) rest

pub record Tick : Type 0 where
  pub snapshot : Counters
  pub now : ℕ

abbrev pub interval_ms : ℕ
interval_ms = 50

-- The streams that are opened and not closed; `saturating_sub` stops at 0.
abbrev pub active_streams : Counters → ℕ
active_streams snap = snap.streams_opened - snap.streams_closed

-- The polling loop, which has not ended when no tick is left.
unfoldable pub drain : ℕ → List Tick → Option Bool
drain deadline [] = none
drain deadline (tick ∷ rest) =
    let further = drain deadline rest in
    if active_streams tick.snapshot == 0
    then some true
    else if leb deadline tick.now
    then some false
    else further

-- Then the task of the accept loop is waited for.
abbrev pub after_task : Option Bool → Bool → Option Bool
after_task drained true = drained
after_task drained false = none

unfoldable pub shutdown_with_drain :
    ℕ → ℕ → List Tick → ConnectionAcceptor → List AcceptorTurn → Option Bool
shutdown_with_drain start drain_timeout ticks s turns =
    after_task (drain (start + drain_timeout) ticks) (acceptor_loop s turns).1

-- A tick of the interval comes no earlier than 50 ms for each tick before it.
abbrev pub Ticking : ℕ → List Tick → Type 0
Ticking start [] = Unit {0}
Ticking start (tick ∷ rest) = (start ≤ tick.now) × Ticking (start + interval_ms) rest

-- A tick at which the loop goes on.
abbrev pub Waits : ℕ → Tick → Type 0
Waits deadline tick = (0 < active_streams tick.snapshot) × (tick.now < deadline)

-- What the result says: at the tick that it comes from no stream is active, or one is and the deadline
-- is over; before it streams were active and the deadline was not over.
abbrev pub Reports : ℕ → List Tick → Bool → Type 0
Reports deadline ticks true =
    (before after : List Tick) × (tick : Tick) × (ticks ≡ before ++ tick ∷ after)
    × All (Waits deadline) before
    × (active_streams tick.snapshot ≡ 0)
Reports deadline ticks false =
    (before after : List Tick) × (tick : Tick) × (ticks ≡ before ++ tick ∷ after)
    × All (Waits deadline) before
    × (0 < active_streams tick.snapshot)
    × (deadline ≤ tick.now)

Reports-cons :
    (deadline : ℕ) (tick : Tick) (ticks : List Tick) (b : Bool)
    → Waits deadline tick
    → Reports deadline ticks b
    → Reports deadline (tick ∷ ticks) b
Reports-cons deadline tick ticks true w (before, after, last, e, waits, idle) =
    (tick ∷ before, after, last, ap (λ ts. tick ∷ ts) e, (w, waits), idle)
Reports-cons deadline tick ticks false w (before, after, last, e, waits, busy, late) =
    (tick ∷ before, after, last, ap (λ ts. tick ∷ ts) e, (w, waits), busy, late)

drain-Reports :
    (deadline start : ℕ) (ticks : List Tick)
    → Ticking start ticks
    → start < deadline + interval_ms
    → deadline + interval_ms ≤ start + interval_ms * length ticks
    → (b : Bool) × (drain deadline ticks ≡ some b) × Reports deadline ticks b
unfolding drain
drain-Reports deadline start [] t low h = absurd (omega arith)
drain-Reports deadline start (tick ∷ rest) (on_time, t) low h =
    elim (Bool-cases (active_streams tick.snapshot == 0)) [
      | inl idle ↦ (true, simp (idle) refl, ([], rest, tick, refl, tt, ground arith))
      | inr busy ↦ elim (Bool-cases (leb deadline tick.now)) [
        | inl late ↦
            (false, simp (busy, late) refl, ([], rest, tick, refl, tt, ground arith, ground arith))
        | inr early ↦
            let below : tick.now < deadline = ground arith in
            let (b, e, r) =
              drain-Reports deadline (start + interval_ms) rest t (omega arith) (omega arith) in
            (b, simp (busy, early) e, Reports-cons deadline tick rest b (ground arith, below) r)
      ]
    ]

-- When the task of the accept loop ends, at most one tick more than the timeout holds intervals is
-- needed for a result. It is true only at a tick at which no stream is active, and false only at one
-- at which the deadline is over and streams are active; at every tick before it streams were active
-- and the deadline was not over.
pub shutdown_with_drain-Reports :
    (start drain_timeout : ℕ) (ticks : List Tick) (s : ConnectionAcceptor)
    (turns : List AcceptorTurn)
    → Ticking start ticks
    → drain_timeout + interval_ms ≤ interval_ms * length ticks
    → (acceptor_loop s turns).1 ≡ true
    → (b : Bool) × (shutdown_with_drain start drain_timeout ticks s turns ≡ some b)
      × Reports (start + drain_timeout) ticks b
unfolding shutdown_with_drain
shutdown_with_drain-Reports start drain_timeout ticks s turns t h ended =
    let (b, e, r) =
      drain-Reports (start + drain_timeout) start ticks t (omega arith) (omega arith) in
    (b, rw (ended, e) refl, r)

-- The streams that the shared counters say to be active are those that some tunnel handles. Streams
-- that wait for a permit are not among them.
pub active_streams-running :
    (t : StreamTunnel) → Reachable t → active_streams t.counters ≡ t.running + t.elsewhere
active_streams-running t r =
    let (permits, opened, failed) = Reachable-IsCounted t r in omega (arith, opened)
