-- ===== src/Auth/Limit.antt =====
-- The limit on concurrent connections (ConnectionAcceptor in
-- crates/ombrac-server/src/connection/mod.rs).
use ombrac.Prelude.{ℕ, zero, suc, ◌+◌, ◌≡◌, refl, ◌∙◌, arith, ok, err}
use ombrac.Auth.{
  ConnectionAcceptor, try_acquire, handle_incoming_connection, process_connection, AcceptorStep,
  incoming, closed, Reachable, start, later,
}

try_acquire-permits :
    (s : ConnectionAcceptor) (n : ℕ)
    → s.permits ≡ n
    → (try_acquire s n).permits + (try_acquire s n).running ≡ s.permits + s.running
unfolding try_acquire
try_acquire-permits s zero e = refl
try_acquire-permits s (suc left) e = omega (arith, e)

step-permits :
    (s t : ConnectionAcceptor) → AcceptorStep s t → t.permits + t.running ≡ s.permits + s.running
unfolding handle_incoming_connection process_connection
step-permits s _ (incoming (err e)) = refl
step-permits s _ (incoming (ok connection)) = try_acquire-permits s s.permits refl
step-permits s _ (closed n e (ok u)) = omega (arith, e)
step-permits s _ (closed n e (err x)) = omega (arith, e)

-- Whatever connections come in and end, and however they end, the running ones and the free permits
-- make up the maximum: no more run at once, and none is lost.
pub Reachable-permits :
    (max_connections : ℕ) (s : ConnectionAcceptor)
    → Reachable max_connections s
    → s.permits + s.running ≡ max_connections
Reachable-permits m _ start = omega arith
Reachable-permits m _ (later s t r x) = step-permits s t x ∙ Reachable-permits m s r
