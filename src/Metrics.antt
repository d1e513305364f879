-- ===== src/Metrics.antt =====
-- crates/ombrac/src/metrics.rs: the counters that client and server keep. A u64 counter is a plain
-- number: it does not wrap in the life of a process.
use ombrac.Prelude.{ℕ}

pub record Counters : Type 0 where
  pub connections_accepted : ℕ
  pub connections_rejected : ℕ
  pub connections_auth_failed : ℕ
  pub streams_opened : ℕ
  pub streams_closed : ℕ
  pub streams_failed : ℕ
  pub udp_sessions_opened : ℕ
  pub udp_sessions_closed : ℕ
  pub bytes_rx : ℕ
  pub bytes_tx : ℕ
  pub reassemblies_completed : ℕ
  pub reassembly_drops : ℕ
  pub reconnect_attempts : ℕ
  pub reconnect_succeeded : ℕ

-- Metrics::new
abbrev pub zero_counters : Counters
zero_counters = record {
  connections_accepted = 0;
  connections_rejected = 0;
  connections_auth_failed = 0;
  streams_opened = 0;
  streams_closed = 0;
  streams_failed = 0;
  udp_sessions_opened = 0;
  udp_sessions_closed = 0;
  bytes_rx = 0;
  bytes_tx = 0;
  reassemblies_completed = 0;
  reassembly_drops = 0;
  reconnect_attempts = 0;
  reconnect_succeeded = 0;
}
