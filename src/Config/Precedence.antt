-- ===== src/Config/Precedence.antt =====
-- Where a setting comes from once all sources are merged (crates/ombrac-client/src/config/mod.rs and
-- crates/ombrac-server/src/config/mod.rs).
use ombrac.Prelude.{String, Option, none, some, [], ◌∷◌, ◌≡◌, refl, Result, ok, err, ok_or, ◌>>=◌}
use ombrac.Config.{first_given, setting}
use ombrac.Config.Sections.{
  client_transport, client_transport_lem, client_logging, client_logging_lem, client_endpoint,
  client_endpoint_lem, server_transport, server_transport_lem, server_logging, server_logging_lem,
  server_connection, server_connection_lem, pair_given, or-none,
}
use ombrac.Config.Client
use ombrac.Config.Server

-- The file's content, if one was named, or the error of reading or parsing it.
abbrev pub file_read {ℓ} : {J : Type ℓ} → Option (Result J String) → Result (Option J) String
file_read none = ok none
file_read (some (ok json)) = ok (some json)
file_read (some (err e)) = err e

-- The client's service configuration by its sources.
abbrev pub client_config :
    Client.CliConfig → Option Client.JsonConfig → Result Client.ServiceConfig String
client_config cli json = do
  secret ←
      ok_or (first_given (cli.secret ∷ setting json (λ j. j.secret) ∷ []))
        "missing required field: secret"
  server ←
      ok_or (first_given (cli.server ∷ setting json (λ j. j.server) ∷ []))
        "missing required field: server"
  ok (record {
    secret = secret;
    server = server;
    auth_option = first_given (cli.auth_option ∷ setting json (λ j. j.auth_option) ∷ []);
    endpoint = client_endpoint cli.endpoint (setting json (λ j. j.endpoint));
    transport = client_transport cli.transport (setting json (λ j. j.transport));
    logging = client_logging cli.logging (setting json (λ j. j.logging));
  })

-- The client's load takes every setting from the first source that gives it, of the command line,
-- the JSON file and the defaults. It fails exactly when a file that was named cannot be read or parsed,
-- with that error, or when no source gives the secret or, failing that, the server.
pub client_load_precedence :
    (cli : Client.CliConfig) (file : Option (Result Client.JsonConfig String))
    → Client.load cli file ≡ (file_read file >>= client_config cli)
unfolding Client.load Client.build Client.merge_cli Client.merge_json setting
client_load_precedence cli none =
    simp
      (
        pair_given,
        or-none,
        client_endpoint_lem cli.endpoint none,
        client_transport_lem cli.transport none,
        client_logging_lem cli.logging none,
      )
      refl
client_load_precedence cli (some (err e)) = refl
client_load_precedence cli (some (ok json)) =
    simp
      (
        pair_given,
        or-none,
        client_endpoint_lem cli.endpoint json.endpoint,
        client_transport_lem cli.transport json.transport,
        client_logging_lem cli.logging json.logging,
      )
      refl

-- The server's service configuration by its sources.
abbrev pub server_config :
    Server.CliConfig → Option Server.JsonConfig → Result Server.ServiceConfig String
server_config cli json = do
  secret ←
      ok_or (first_given (cli.secret ∷ setting json (λ j. j.secret) ∷ []))
        "missing required field: secret"
  listen ←
      ok_or (first_given (cli.listen ∷ setting json (λ j. j.listen) ∷ []))
        "missing required field: listen"
  ok (record {
    secret = secret;
    listen = listen;
    transport = server_transport cli.transport (setting json (λ j. j.transport));
    connection = server_connection (setting json (λ j. j.connection));
    logging = server_logging cli.logging (setting json (λ j. j.logging));
  })

-- The server's load takes every setting from the first source that gives it, of the command line,
-- the JSON file and the defaults. It fails exactly when a file that was named cannot be read or parsed,
-- with that error, or when no source gives the secret or, failing that, the address to listen on.
pub server_load_precedence :
    (cli : Server.CliConfig) (file : Option (Result Server.JsonConfig String))
    → Server.load cli file ≡ (file_read file >>= server_config cli)
unfolding Server.load Server.build Server.merge_cli Server.merge_json setting
server_load_precedence cli none =
    simp
      (
        pair_given,
        or-none,
        server_transport_lem cli.transport none,
        server_logging_lem cli.logging none,
      )
      refl
server_load_precedence cli (some (err e)) = refl
server_load_precedence cli (some (ok json)) =
    simp
      (
        pair_given,
        or-none,
        server_connection_lem json.connection,
        server_transport_lem cli.transport json.transport,
        server_logging_lem cli.logging json.logging,
      )
      refl
