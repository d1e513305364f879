-- ===== src/StreamTunnel/Count.antt =====
-- The counters and the limit of the tunnel streams (accept_loop in
-- crates/ombrac-server/src/connection/stream.rs).
use ombrac.Prelude.{ℕ, ◌+◌, ◌≤◌, ◌≡◌, ◌⊎◌, refl, arith, Option, none, some, [], length, ok, err}
use ombrac.Net.{IoError, IoResult}
use ombrac.Metrics.{Counters}
use ombrac.Copy.{CopyBidirectionalStats, run, begin, copy_bidirectional}
use ombrac.StreamTunnel.{
  new_guard, Upstream, Handled, handle_connect, count_failure, count_bytes, count_opened,
  count_closed, count_handled, StreamTunnel, max_concurrent_connections, TunnelStep, accepted,
  acquired, finished, opened_elsewhere, finished_elsewhere, Reachable, start, later,
}

-- Copying was not reached and nothing was sent upstream, or copying had not returned.
abbrev pub Uncounted : Upstream → Handled → Type 0
Uncounted u h =
    ((h.upstream ≡ []) × ((e : IoError) × (h.result ≡ err e))) ⊎ (copy_bidirectional u.turns ≡ none)

-- The statistics in the guard, when copying returned, count what was written to each side.
abbrev pub Measured : Upstream → Handled → Type 0
Measured u h =
    ((h.guard.stats ≡ none) × Uncounted u h)
    ⊎ ((s : CopyBidirectionalStats) × (h.guard.stats ≡ some s)
        × (s.a_to_b_bytes + h.guard.initial_upstream_bytes ≡ length h.upstream)
        × (s.b_to_a_bytes ≡ length (run begin u.turns).b_to_a.written))

count_streams :
    (c : Counters) (r : IoResult (Unit {0})) (n : ℕ) (o : Option CopyBidirectionalStats)
    → ((count_closed (count_bytes (count_failure c r) n o)).streams_opened ≡ c.streams_opened)
      × ((count_closed (count_bytes (count_failure c r) n o)).streams_closed ≡ c.streams_closed + 1)
      × ((count_closed (count_bytes (count_failure c r) n o)).streams_failed ≤ c.streams_failed + 1)
unfolding count_closed count_bytes count_failure
count_streams c (ok v) n none = (refl, refl, omega arith)
count_streams c (err e) n none = (refl, refl, omega arith)
count_streams c (ok v) n (some s) = (refl, refl, omega arith)
count_streams c (err e) n (some s) = (refl, refl, omega arith)

count_handled-streams :
    (c : Counters) (h : Handled)
    → ((count_handled c h).streams_opened ≡ c.streams_opened)
      × ((count_handled c h).streams_closed ≡ c.streams_closed + 1)
      × ((count_handled c h).streams_failed ≤ c.streams_failed + 1)
unfolding count_handled
count_handled-streams c h = count_streams c h.result h.guard.initial_upstream_bytes h.guard.stats

-- Permits are neither lost nor made, a stream is counted as opened when it starts to be handled and
-- as closed when its handling has ended, and only one that is closed is counted as failed.
abbrev pub IsCounted : StreamTunnel → Type 0
IsCounted s =
    (s.permits + s.running ≡ max_concurrent_connections)
    × (s.counters.streams_opened ≡ s.counters.streams_closed + (s.running + s.elsewhere))
    × (s.counters.streams_failed ≤ s.counters.streams_closed)

step-IsCounted : (s t : StreamTunnel) → TunnelStep s t → IsCounted s → IsCounted t
unfolding count_opened
step-IsCounted s _ accepted h = h
step-IsCounted s _ (acquired w n e f) (a, b, c) = (omega (arith, a, f), omega (arith, b), c)
step-IsCounted s _ (finished n e p u) (a, b, c) =
    let (x, y, z) = count_handled-streams s.counters (handle_connect p u new_guard) in
    (omega (arith, a, e), omega (arith, b, e, x, y), omega (arith, c, y, z))
step-IsCounted s _ opened_elsewhere (a, b, c) = (a, omega (arith, b), c)
step-IsCounted s _ (finished_elsewhere n e p u) (a, b, c) =
    let (x, y, z) = count_handled-streams s.counters (handle_connect p u new_guard) in
    (a, omega (arith, b, e, x, y), omega (arith, c, y, z))

-- However the streams of a connection come in, get their permits and end, among those of other
-- connections: the connection has at most 4096 handled at once and no permit of it is lost; in the
-- counters that all connections share, the streams that were opened and not closed are those being
-- handled by all of them, and no more failed than were closed.
pub Reachable-IsCounted : (s : StreamTunnel) → Reachable s → IsCounted s
Reachable-IsCounted _ start = (omega arith, omega arith, omega arith)
Reachable-IsCounted _ (later s t r x) = step-IsCounted s t x (Reachable-IsCounted s r)
