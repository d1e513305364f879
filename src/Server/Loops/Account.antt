-- ===== src/Server/Loops/Account.antt =====
-- What the metrics say of the UDP sessions (the eviction listener of create_session_cache in
-- crates/ombrac-server/src/connection/datagram.rs). The tasks of a session hold it, so they can add to
-- its counts when it has been evicted already.
use ombrac.Prelude.{ℕ, List, [], ◌∷◌, ◌++◌, ◌+◌, ◌≤◌, ◌≡◌, refl, arith, length, length-append}
use ombrac.Net.{Bytes}
use ombrac.Metrics.{Counters, zero_counters}
use ombrac.Server.Loops.{
  Counts, new_counts, count_upstream, count_downstream, session_closed, session_opened,
}

-- The metrics, of which the UDP sessions' share is looked at, the sessions of the cache, and those
-- that were evicted, with their counts as they are now.
pub record World : Type 0 where
  pub metrics : Counters
  pub live : List Counts
  pub evicted : List Counts

abbrev pub start : World
start = record { metrics = zero_counters; live = []; evicted = [] }

-- A step of the tunnel's tasks. A session is picked by its place among the others.
pub data Step (w : World) : World → Type 0 where
  open_session :
      Step w (record w { metrics = session_opened w.metrics; live = new_counts ∷ w.live })
  forward_upstream :
      (xs ys : List Counts) (s : Counts) (payload : Bytes)
      → w.live ≡ xs ++ s ∷ ys
      → Step w (record w { live = xs ++ count_upstream s payload ∷ ys })
  receive_downstream :
      (xs ys : List Counts) (s : Counts) (payload : Bytes)
      → w.live ≡ xs ++ s ∷ ys
      → Step w (record w { live = xs ++ count_downstream s payload ∷ ys })
  evict :
      (xs ys : List Counts) (s : Counts)
      → w.live ≡ xs ++ s ∷ ys
      → Step w (record w {
        metrics = session_closed w.metrics s;
        live = xs ++ ys;
        evicted = s ∷ w.evicted;
      })
  late_upstream :
      (xs ys : List Counts) (s : Counts) (payload : Bytes)
      → w.evicted ≡ xs ++ s ∷ ys
      → Step w (record w { evicted = xs ++ count_upstream s payload ∷ ys })
  late_downstream :
      (xs ys : List Counts) (s : Counts) (payload : Bytes)
      → w.evicted ≡ xs ++ s ∷ ys
      → Step w (record w { evicted = xs ++ count_downstream s payload ∷ ys })

pub data Reachable : World → Type 0 where
  begin : Reachable start
  later : {w w' : World} → Reachable w → Step w w' → Reachable w'

unfoldable pub upstream : List Counts → ℕ
upstream [] = 0
upstream (s ∷ rest) = s.upstream_bytes + upstream rest

unfoldable pub downstream : List Counts → ℕ
downstream [] = 0
downstream (s ∷ rest) = s.downstream_bytes + downstream rest

abbrev pub IsCounted : World → Type 0
IsCounted w =
    (w.metrics.udp_sessions_closed ≡ length w.evicted)
    × (w.metrics.udp_sessions_opened ≡ length w.live + length w.evicted)
    × (w.metrics.bytes_rx ≤ upstream w.evicted)
    × (w.metrics.bytes_tx ≤ downstream w.evicted)

-- The three measures of a list of sessions in which one has other counts.
upstream-replaced :
    (xs ys : List Counts) (s : Counts) (payload : Bytes)
    → (upstream (xs ++ s ∷ ys) ≤ upstream (xs ++ count_upstream s payload ∷ ys))
      × (downstream (xs ++ s ∷ ys) ≡ downstream (xs ++ count_upstream s payload ∷ ys))
      × (length (xs ++ s ∷ ys) ≡ length (xs ++ count_upstream s payload ∷ ys))
unfolding upstream downstream
upstream-replaced [] ys s payload = (omega arith, refl, refl)
upstream-replaced (x ∷ xs) ys s payload =
    let (u, d, n) = upstream-replaced xs ys s payload in (omega arith, omega arith, omega arith)

downstream-replaced :
    (xs ys : List Counts) (s : Counts) (payload : Bytes)
    → (upstream (xs ++ s ∷ ys) ≡ upstream (xs ++ count_downstream s payload ∷ ys))
      × (downstream (xs ++ s ∷ ys) ≤ downstream (xs ++ count_downstream s payload ∷ ys))
      × (length (xs ++ s ∷ ys) ≡ length (xs ++ count_downstream s payload ∷ ys))
unfolding upstream downstream
downstream-replaced [] ys s payload = (refl, omega arith, refl)
downstream-replaced (x ∷ xs) ys s payload =
    let (u, d, n) = downstream-replaced xs ys s payload in (omega arith, omega arith, omega arith)

step-IsCounted : (w w' : World) → Step w w' → IsCounted w → IsCounted w'
unfolding upstream downstream
step-IsCounted w _ open_session (c, o, rx, tx) = (c, omega arith, rx, tx)
step-IsCounted w _ (forward_upstream xs ys s payload e) (c, o, rx, tx) =
    let (u, d, n) = upstream-replaced xs ys s payload in
    let o' = rw (e) at o in (c, omega arith, rx, tx)
step-IsCounted w _ (receive_downstream xs ys s payload e) (c, o, rx, tx) =
    let (u, d, n) = downstream-replaced xs ys s payload in
    let o' = rw (e) at o in (c, omega arith, rx, tx)
step-IsCounted w _ (evict xs ys s e) (c, o, rx, tx) =
    let o' = rw (e, length-append xs (s ∷ ys)) at o in
    (omega arith, omega (arith, length-append xs ys), omega arith, omega arith)
step-IsCounted w _ (late_upstream xs ys s payload e) (c, o, rx, tx) =
    let (u, d, n) = upstream-replaced xs ys s payload in
    let c' = rw (e) at c in
    let o' = rw (e) at o in
    let rx' = rw (e) at rx in
    let tx' = rw (e) at tx in (omega arith, omega arith, omega arith, omega arith)
step-IsCounted w _ (late_downstream xs ys s payload e) (c, o, rx, tx) =
    let (u, d, n) = downstream-replaced xs ys s payload in
    let c' = rw (e) at c in
    let o' = rw (e) at o in
    let rx' = rw (e) at rx in
    let tx' = rw (e) at tx in (omega arith, omega arith, omega arith, omega arith)

-- In every state that is reached, the metrics count as closed the sessions that were evicted, and as
-- opened these and the sessions of the cache; the octets that they count are no more than those of the
-- evicted sessions.
pub Reachable-IsCounted : (w : World) → Reachable w → IsCounted w
unfolding upstream downstream
Reachable-IsCounted _ begin = (refl, refl, omega arith, omega arith)
Reachable-IsCounted _ (later {w} {w'} r s) = step-IsCounted w w' s (Reachable-IsCounted w r)
