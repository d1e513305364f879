-- ===== src/Service.antt =====
-- How the services set up QUIC from their configuration. Server models quic_server_from_config in
-- crates/ombrac-server/src/service.rs, Client quic_client_from_config in
-- crates/ombrac-client/src/service.rs. The resolver, the checks of quinn's settings and the sockets are
-- arguments.
pub mod Server
pub mod Client
pub mod Drain
mod Examples
use ombrac.Prelude.{Option, none, some}

-- Rust's `unwrap_or`.
abbrev pub unwrap_or : {A : Type 0} → Option A → A → A
unwrap_or none default = default
unwrap_or (some a) default = a
