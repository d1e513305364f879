-- ===== src/Config/Server.antt =====
-- crates/ombrac-server/src/config/mod.rs: the server's settings from defaults, JSON and command line.
-- A Rust string is its octets.
use ombrac.Prelude.{
  ℕ, String, Bool, false, Option, none, some, List, [], ◌∷◌, Result, ok, err, ok_or, ◌>>=◌,
}
use ombrac.Net.{Bytes, SocketAddr}
use ombrac.Config.{or, Congestion, bbr, TlsMode, tls, h3, info}

pub record TransportConfig : Type 0 where
  pub tls_mode : Option (TlsMode)
  pub ca_cert : Option (Bytes)
  pub tls_cert : Option (Bytes)
  pub tls_key : Option (Bytes)
  pub zero_rtt : Option (Bool)
  pub alpn_protocols : Option (List Bytes)
  pub congestion : Option (Congestion)
  pub cwnd_init : Option (ℕ)
  pub idle_timeout : Option (ℕ)
  pub keep_alive : Option (ℕ)
  pub max_streams : Option (ℕ)

abbrev pub default_transport : TransportConfig
default_transport = record {
  tls_mode = some tls;
  ca_cert = none;
  tls_cert = none;
  tls_key = none;
  zero_rtt = some false;
  alpn_protocols = some (h3 ∷ []);
  congestion = some bbr;
  cwnd_init = none;
  idle_timeout = some 30000;
  keep_alive = some 8000;
  max_streams = some 1000;
}

pub record ConnectionConfig : Type 0 where
  pub max_connections : Option (ℕ)
  pub auth_timeout_secs : Option (ℕ)
  pub max_concurrent_streams : Option (ℕ)
  pub max_concurrent_datagrams : Option (ℕ)

abbrev pub default_connection : ConnectionConfig
default_connection = record {
  max_connections = some 10000;
  auth_timeout_secs = some 10;
  max_concurrent_streams = some 4096;
  max_concurrent_datagrams = some 4096;
}

pub record LoggingConfig : Type 0 where
  pub log_level : Option (Bytes)

abbrev pub default_logging : LoggingConfig
default_logging = record { log_level = some info }

unfoldable pub merge_transport : TransportConfig → TransportConfig → TransportConfig
merge_transport base override_config = record {
  tls_mode = or override_config.tls_mode base.tls_mode;
  ca_cert = or override_config.ca_cert base.ca_cert;
  tls_cert = or override_config.tls_cert base.tls_cert;
  tls_key = or override_config.tls_key base.tls_key;
  zero_rtt = or override_config.zero_rtt base.zero_rtt;
  alpn_protocols = or override_config.alpn_protocols base.alpn_protocols;
  congestion = or override_config.congestion base.congestion;
  cwnd_init = or override_config.cwnd_init base.cwnd_init;
  idle_timeout = or override_config.idle_timeout base.idle_timeout;
  keep_alive = or override_config.keep_alive base.keep_alive;
  max_streams = or override_config.max_streams base.max_streams;
}

unfoldable pub merge_connection : ConnectionConfig → ConnectionConfig → ConnectionConfig
merge_connection base override_config = record {
  max_connections = or override_config.max_connections base.max_connections;
  auth_timeout_secs = or override_config.auth_timeout_secs base.auth_timeout_secs;
  max_concurrent_streams = or override_config.max_concurrent_streams base.max_concurrent_streams;
  max_concurrent_datagrams =
      or override_config.max_concurrent_datagrams base.max_concurrent_datagrams;
}

unfoldable pub merge_logging : LoggingConfig → LoggingConfig → LoggingConfig
merge_logging base override_config = record {
  log_level = or override_config.log_level base.log_level;
}

pub record ServiceConfig : Type 0 where
  pub secret : Bytes
  pub listen : SocketAddr
  pub transport : TransportConfig
  pub connection : ConnectionConfig
  pub logging : LoggingConfig

pub record ConfigBuilder : Type 0 where
  pub secret : Option (Bytes)
  pub listen : Option (SocketAddr)
  pub transport : TransportConfig
  pub connection : ConnectionConfig
  pub logging : LoggingConfig

-- config/json.rs
pub record JsonConfig : Type 0 where
  pub secret : Option (Bytes)
  pub listen : Option (SocketAddr)
  pub transport : Option TransportConfig
  pub connection : Option ConnectionConfig
  pub logging : Option LoggingConfig

-- config/cli.rs
pub record CliConfig : Type 0 where
  pub secret : Option (Bytes)
  pub listen : Option (SocketAddr)
  pub transport : TransportConfig
  pub logging : LoggingConfig

-- ConfigBuilder::new
abbrev pub new_builder : ConfigBuilder
new_builder = record {
  secret = none;
  listen = none;
  transport = default_transport;
  connection = default_connection;
  logging = default_logging;
}

-- `if let Some(section) = section { base = merge(base, section) }`
abbrev pub merge_section {ℓ} : {S : Type ℓ} → (S → S → S) → S → Option S → S
merge_section merge base none = base
merge_section merge base (some s) = merge base s

-- ConfigBuilder::merge_json
unfoldable pub merge_json : ConfigBuilder → JsonConfig → ConfigBuilder
merge_json b json = record {
  secret = or json.secret b.secret;
  listen = or json.listen b.listen;
  transport = merge_section merge_transport b.transport json.transport;
  connection = merge_section merge_connection b.connection json.connection;
  logging = merge_section merge_logging b.logging json.logging;
}

-- ConfigBuilder::merge_cli
unfoldable pub merge_cli : ConfigBuilder → CliConfig → ConfigBuilder
merge_cli b cli = record {
  secret = or cli.secret b.secret;
  listen = or cli.listen b.listen;
  transport = merge_transport b.transport cli.transport;
  connection = b.connection;
  logging = merge_logging b.logging cli.logging;
}

-- ConfigBuilder::build
unfoldable pub build : ConfigBuilder → Result ServiceConfig String
build b = do
  secret ← ok_or b.secret "missing required field: secret"
  listen ← ok_or b.listen "missing required field: listen"
  ok (record {
    secret = secret;
    listen = listen;
    transport = b.transport;
    connection = b.connection;
    logging = b.logging;
  })

-- load, on the parsed command line and, when a file is named, what reading it gave.
unfoldable pub load : CliConfig → Option (Result JsonConfig String) → Result ServiceConfig String
load cli none = build (merge_cli new_builder cli)
load cli (some (ok json)) = build (merge_cli (merge_json new_builder json) cli)
load cli (some (err e)) = err e

-- load_from_json and load_from_file, on what reading gave.
unfoldable pub load_from_json : Result JsonConfig String → Result ServiceConfig String
load_from_json (ok json) = build (merge_json new_builder json)
load_from_json (err e) = err e
