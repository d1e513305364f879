-- ===== src/Config/Examples.antt =====
-- Two sources merged (crates/ombrac-client/src/config/mod.rs, crates/ombrac-server/src/config/mod.rs),
-- and the theorems at these inputs.
use ombrac.Prelude.{none, some, [], ◌∷◌, ◌≡◌, refl, ok, err, ◌>>=◌}
use ombrac.Net.{socket_addr, ip_v4}
use ombrac.Config.Client
use ombrac.Config.Server
use ombrac.Config.Precedence.{file_read, client_config, client_load_precedence}

abbrev client_flags : Client.TransportConfig
client_flags = record {
  bind = none;
  server_name = none;
  tls_mode = none;
  ca_cert = none;
  client_cert = none;
  client_key = none;
  zero_rtt = none;
  alpn_protocols = none;
  congestion = none;
  cwnd_init = none;
  idle_timeout = some 5;
  keep_alive = none;
  max_streams = none;
}

abbrev client_file : Client.TransportConfig
client_file = record {
  bind = none;
  server_name = none;
  tls_mode = none;
  ca_cert = none;
  client_cert = none;
  client_key = none;
  zero_rtt = none;
  alpn_protocols = none;
  congestion = none;
  cwnd_init = none;
  idle_timeout = some 6;
  keep_alive = some 7;
  max_streams = none;
}

abbrev client_cli : Client.CliConfig
client_cli = record {
  secret = some (1 ∷ []);
  server = none;
  auth_option = none;
  endpoint = Client.default_endpoint;
  transport = client_flags;
  logging = record { log_level = none };
}

abbrev client_json : Client.JsonConfig
client_json = record {
  secret = some (2 ∷ []);
  server = some (3 ∷ []);
  auth_option = none;
  endpoint = none;
  transport = some client_file;
  logging = none;
}

abbrev client_result : Client.ServiceConfig
client_result = record {
  secret = 1 ∷ [];
  server = 3 ∷ [];
  auth_option = none;
  endpoint = Client.default_endpoint;
  transport = record Client.default_transport { idle_timeout = some 5; keep_alive = some 7 };
  logging = Client.default_logging;
}

test_client_load : Client.load client_cli (some (ok client_json)) ≡ ok client_result
unfolding Client.load Client.build Client.merge_cli Client.merge_json Client.merge_endpoint
    Client.merge_tun Client.merge_transport Client.merge_logging
test_client_load = refl

test_client_missing : Client.load client_cli none ≡ err "missing required field: server"
unfolding Client.load Client.build Client.merge_cli Client.merge_json
test_client_missing = refl

client_load_precedence_example :
    Client.load client_cli (some (ok client_json))
    ≡ (file_read (some (ok client_json)) >>= client_config client_cli)
client_load_precedence_example = client_load_precedence client_cli (some (ok client_json))

abbrev server_flags : Server.TransportConfig
server_flags = record {
  tls_mode = none;
  ca_cert = none;
  tls_cert = none;
  tls_key = none;
  zero_rtt = none;
  alpn_protocols = none;
  congestion = none;
  cwnd_init = none;
  idle_timeout = none;
  keep_alive = none;
  max_streams = some 5;
}

abbrev server_cli : Server.CliConfig
server_cli = record {
  secret = some (1 ∷ []);
  listen = some (socket_addr (ip_v4 (0 ∷ 0 ∷ 0 ∷ 0 ∷ [])) 443);
  transport = server_flags;
  logging = record { log_level = none };
}

abbrev server_json : Server.JsonConfig
server_json = record {
  secret = none;
  listen = none;
  transport = some (record server_flags { max_streams = some 6; idle_timeout = some 8 });
  connection = none;
  logging = none;
}
