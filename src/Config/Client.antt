-- ===== src/Config/Client.antt =====
-- crates/ombrac-client/src/config/mod.rs: the client's settings from defaults, JSON and command line.
-- A Rust string is its octets.
use ombrac.Prelude.{
  ℕ, String, Bool, false, Option, none, some, List, [], ◌∷◌, Result, ok, err, ok_or, ◌>>=◌,
}
use ombrac.Net.{Bytes, SocketAddr}
use ombrac.Config.{or, Congestion, bbr, TlsMode, tls, h3, info}

pub record TransportConfig : Type 0 where
  pub bind : Option (SocketAddr)
  pub server_name : Option (Bytes)
  pub tls_mode : Option (TlsMode)
  pub ca_cert : Option (Bytes)
  pub client_cert : Option (Bytes)
  pub client_key : Option (Bytes)
  pub zero_rtt : Option (Bool)
  pub alpn_protocols : Option (List Bytes)
  pub congestion : Option (Congestion)
  pub cwnd_init : Option (ℕ)
  pub idle_timeout : Option (ℕ)
  pub keep_alive : Option (ℕ)
  pub max_streams : Option (ℕ)

abbrev pub default_transport : TransportConfig
default_transport = record {
  bind = none;
  server_name = none;
  tls_mode = some tls;
  ca_cert = none;
  client_cert = none;
  client_key = none;
  zero_rtt = some false;
  alpn_protocols = some (h3 ∷ []);
  congestion = some bbr;
  cwnd_init = none;
  idle_timeout = some 30000;
  keep_alive = some 8000;
  max_streams = some 100;
}

pub record LoggingConfig : Type 0 where
  pub log_level : Option (Bytes)

abbrev pub default_logging : LoggingConfig
default_logging = record { log_level = some info }

-- A file descriptor is a plain number.
pub record TunConfig : Type 0 where
  pub tun_fd : Option (ℕ)
  pub tun_ipv4 : Option (Bytes)
  pub tun_ipv6 : Option (Bytes)
  pub tun_mtu : Option (ℕ)
  pub fake_dns : Option (Bytes)
  pub disable_udp_443 : Option (Bool)

pub record EndpointConfig : Type 0 where
  pub http : Option (SocketAddr)
  pub socks : Option (SocketAddr)
  pub tun : Option (TunConfig)

abbrev pub default_endpoint : EndpointConfig
default_endpoint = record { http = none; socks = none; tun = none }

unfoldable pub merge_transport : TransportConfig → TransportConfig → TransportConfig
merge_transport base override_config = record {
  bind = or override_config.bind base.bind;
  server_name = or override_config.server_name base.server_name;
  tls_mode = or override_config.tls_mode base.tls_mode;
  ca_cert = or override_config.ca_cert base.ca_cert;
  client_cert = or override_config.client_cert base.client_cert;
  client_key = or override_config.client_key base.client_key;
  zero_rtt = or override_config.zero_rtt base.zero_rtt;
  alpn_protocols = or override_config.alpn_protocols base.alpn_protocols;
  congestion = or override_config.congestion base.congestion;
  cwnd_init = or override_config.cwnd_init base.cwnd_init;
  idle_timeout = or override_config.idle_timeout base.idle_timeout;
  keep_alive = or override_config.keep_alive base.keep_alive;
  max_streams = or override_config.max_streams base.max_streams;
}

unfoldable pub merge_logging : LoggingConfig → LoggingConfig → LoggingConfig
merge_logging base override_config = record {
  log_level = or override_config.log_level base.log_level;
}

unfoldable pub merge_tun : Option TunConfig → Option TunConfig → Option TunConfig
merge_tun none none = none
merge_tun (some base) none = some base
merge_tun none (some override_config) = some override_config
merge_tun (some base) (some override_config) = some (record {
  tun_fd = or override_config.tun_fd base.tun_fd;
  tun_ipv4 = or override_config.tun_ipv4 base.tun_ipv4;
  tun_ipv6 = or override_config.tun_ipv6 base.tun_ipv6;
  tun_mtu = or override_config.tun_mtu base.tun_mtu;
  fake_dns = or override_config.fake_dns base.fake_dns;
  disable_udp_443 = or override_config.disable_udp_443 base.disable_udp_443;
})

unfoldable pub merge_endpoint : EndpointConfig → EndpointConfig → EndpointConfig
merge_endpoint base override_config = record {
  http = or override_config.http base.http;
  socks = or override_config.socks base.socks;
  tun = merge_tun base.tun override_config.tun;
}

pub record ServiceConfig : Type 0 where
  pub secret : Bytes
  pub server : Bytes
  pub auth_option : Option (Bytes)
  pub endpoint : EndpointConfig
  pub transport : TransportConfig
  pub logging : LoggingConfig

pub record ConfigBuilder : Type 0 where
  pub secret : Option (Bytes)
  pub server : Option (Bytes)
  pub auth_option : Option (Bytes)
  pub endpoint : EndpointConfig
  pub transport : TransportConfig
  pub logging : LoggingConfig

-- config/json.rs
pub record JsonConfig : Type 0 where
  pub secret : Option (Bytes)
  pub server : Option (Bytes)
  pub auth_option : Option (Bytes)
  pub endpoint : Option EndpointConfig
  pub transport : Option TransportConfig
  pub logging : Option LoggingConfig

-- config/cli.rs
pub record CliConfig : Type 0 where
  pub secret : Option (Bytes)
  pub server : Option (Bytes)
  pub auth_option : Option (Bytes)
  pub endpoint : EndpointConfig
  pub transport : TransportConfig
  pub logging : LoggingConfig

-- ConfigBuilder::new
abbrev pub new_builder : ConfigBuilder
new_builder = record {
  secret = none;
  server = none;
  auth_option = none;
  endpoint = default_endpoint;
  transport = default_transport;
  logging = default_logging;
}

-- `if let Some(section) = section { base = merge(base, section) }`
abbrev pub merge_section {ℓ} : {S : Type ℓ} → (S → S → S) → S → Option S → S
merge_section merge base none = base
merge_section merge base (some s) = merge base s

-- ConfigBuilder::merge_json
unfoldable pub merge_json : ConfigBuilder → JsonConfig → ConfigBuilder
merge_json b json = record {
  secret = or json.secret b.secret;
  server = or json.server b.server;
  auth_option = or json.auth_option b.auth_option;
  endpoint = merge_section merge_endpoint b.endpoint json.endpoint;
  transport = merge_section merge_transport b.transport json.transport;
  logging = merge_section merge_logging b.logging json.logging;
}

-- ConfigBuilder::merge_cli
unfoldable pub merge_cli : ConfigBuilder → CliConfig → ConfigBuilder
merge_cli b cli = record {
  secret = or cli.secret b.secret;
  server = or cli.server b.server;
  auth_option = or cli.auth_option b.auth_option;
  endpoint = merge_endpoint b.endpoint cli.endpoint;
  transport = merge_transport b.transport cli.transport;
  logging = merge_logging b.logging cli.logging;
}

-- ConfigBuilder::build
unfoldable pub build : ConfigBuilder → Result ServiceConfig String
build b = do
  secret ← ok_or b.secret "missing required field: secret"
  server ← ok_or b.server "missing required field: server"
  ok (record {
    secret = secret;
    server = server;
    auth_option = b.auth_option;
    endpoint = b.endpoint;
    transport = b.transport;
    logging = b.logging;
  })

-- load, on the parsed command line and, when a file is named, what reading it gave.
unfoldable pub load : CliConfig → Option (Result JsonConfig String) → Result ServiceConfig String
load cli none = build (merge_cli new_builder cli)
load cli (some (ok json)) = build (merge_cli (merge_json new_builder json) cli)
load cli (some (err e)) = err e

-- load_from_json and load_from_file, on what reading gave.
unfoldable pub load_from_json : Result JsonConfig String → Result ServiceConfig String
load_from_json (ok json) = build (merge_json new_builder json)
load_from_json (err e) = err e
