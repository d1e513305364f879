-- ===== src/Client/Backoff.antt =====
-- The bounds of the reconnection backoff (next_backoff in
-- crates/ombrac-client/src/connection/mod.rs).
use native.Mathlib.Nat.{mul-le-mul_left}
use ombrac.Prelude.{ℕ, ◌+◌, ◌*◌, ◌≤◌, ◌<◌, ◌≡◌, min, arith}
use ombrac.Client.{next_backoff, jittered, initial_reconnect_backoff, max_reconnect_backoff}

-- Jitter and cap keep a backoff between one second and sixty.
pub next_backoff-bounds :
    (current nanos : ℕ)
    → initial_reconnect_backoff ≤ current
    → (initial_reconnect_backoff ≤ next_backoff current nanos)
      × (next_backoff current nanos ≤ max_reconnect_backoff)
unfolding next_backoff jittered
next_backoff-bounds current nanos h = (omega arith, omega arith)

-- Up to half the cap, the next backoff is at least 1.6 times the current one, less the rounding, and
-- less than 2.4 times.
pub next_backoff-grows :
    (current nanos : ℕ)
    → current * 2 ≤ max_reconnect_backoff
    → 0 < current
    → nanos < 1000000000
    → (current * 8 ≤ 5 * next_backoff current nanos + 5)
      × (next_backoff current nanos * 10 < 24 * current)
unfolding next_backoff jittered
next_backoff-grows current nanos h p n =
    let below : current * (nanos + 1) ≤ current * 1000000000 =
      mul-le-mul_left current (omega (arith, n)) in
    let small : min (current * 2) max_reconnect_backoff ≡ current * 2 = omega arith in
    rw small (omega arith, omega arith)
