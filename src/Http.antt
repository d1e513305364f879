-- ===== src/Http.antt =====
-- crates/ombrac-client/src/endpoint/http.rs: the HTTP proxy, from a request that hyper has read to its
-- response. The texts' parsers, the client's tunnel and the connection to the far server are arguments.
pub mod Answer
mod Examples
use ombrac.Prelude.{ℕ, Bool, true, false, Option, none, some, List, [], ◌∷◌, Result, ok, err}
use ombrac.Net.{Bytes, SocketAddr, IoError, IoResult}
use ombrac.Auth.{Bytes-discrete}
use ombrac.Protocol.{Address, try_from, display_domain}

-- hyper's Uri, as far as the code reads it: host, port_u16 and scheme_str.
pub record Uri : Type 0 where
  pub host : Option Bytes
  pub port_u16 : Option ℕ
  pub scheme_str : Option Bytes

-- hyper's Request: its method is CONNECT or another, the rest of it is passed on.
pub record Request (B : Type 0) : Type 0 where
  pub is_connect : Bool
  pub uri : Uri
  pub body : B

pub data StatusCode : Type 0 where
  ok_status bad_request service_unavailable : StatusCode

-- A response of the proxy, whose body is empty, or the one of the far server.
pub data Response (F : Type 0) : Type 0 where
  empty_response : StatusCode → Response F
  far_response : F → Response F

-- What a handler has done: it asked for a tunnel, spawned the task that copies between the upgraded
-- connection and the tunnel, or spawned the task of the HTTP connection over the tunnel.
pub data Action (S : Type 0) : Type 0 where
  open_tunnel : Address → Action S
  spawn_copy spawn_connection : S → Action S

--- "https"
abbrev pub https : Bytes
https = 104 ∷ 116 ∷ 116 ∷ 112 ∷ 115 ∷ []

unfoldable pub default_port : Option Bytes → ℕ
default_port none = 80
default_port (some scheme) = elim (Bytes-discrete scheme https) [ yes p ↦ 443 | no np ↦ 80 ]

-- Rust's `unwrap_or` on a port.
abbrev pub port_or : Option ℕ → ℕ → ℕ
port_or (some port) default = port
port_or none default = default

unfoldable pub uri_port : Uri → ℕ
uri_port uri = port_or uri.port_u16 (default_port uri.scheme_str)

abbrev pub create_error_response : {F : Type 0} → StatusCode → Response F
create_error_response status = empty_response status

module _ {F : Type 0} (parse_socket_addr : Bytes → Option SocketAddr) where
  -- `map_err` of the conversion.
  abbrev pub or_bad_request : IoResult Address → Result Address (Response F)
  or_bad_request (ok address) = ok address
  or_bad_request (err e) = err (create_error_response bad_request)

  unfoldable pub extract_target_address : Uri → Result Address (Response F)
  extract_target_address uri = elim uri.host [
    | none ↦ err (create_error_response bad_request)
    | some host ↦ or_bad_request (try_from parse_socket_addr (display_domain host (uri_port uri)))
  ]

-- What the handlers call: the client's tunnel, and hyper's client over it. B is the rest of a request,
-- S a tunnel, F a response of the far server and E hyper's error.
pub record Far (B S F E : Type 0) : Type 0 where
  pub parse_socket_addr : Bytes → Option SocketAddr
  pub open_bidirectional : Address → IoResult S
  pub handshake : S → Result (Unit {0}) E
  pub send_request : S → Request B → Result F E

module _ {B S F E : Type 0} (far : Far B S F E) where
  abbrev pub HttpResult : Type 0
  HttpResult = Result (Response F) E

  -- handle_connect: the response is made at once, and the upgrade is left to the task.
  unfoldable pub handle_connect : S → List (Action S) × HttpResult
  handle_connect dest_stream = (spawn_copy dest_stream ∷ [], ok (empty_response ok_status))

  -- send_request, once the task of the connection is spawned.
  abbrev pub far_answer : Result F E → HttpResult
  far_answer (ok resp) = ok (far_response resp)
  far_answer (err e) = err e

  unfoldable pub handle_http : Request B → S → List (Action S) × HttpResult
  handle_http req outbound_conn = elim (far.handshake outbound_conn) [
    | err e ↦ ([], err e)
    | ok sender ↦
        (spawn_connection outbound_conn ∷ [], far_answer (far.send_request outbound_conn req))
  ]

  -- The test of the method, CONNECT or another.
  unfoldable pub by_method : Bool → Request B → S → List (Action S) × HttpResult
  by_method true req conn = handle_connect conn
  by_method false req conn = handle_http req conn

  -- The handler on what opening the tunnel gave.
  unfoldable pub with_tunnel : Request B → IoResult S → List (Action S) × HttpResult
  with_tunnel req (ok conn) = by_method req.is_connect req conn
  with_tunnel req (err e) = ([], ok (create_error_response service_unavailable))

  -- The handler on the target.
  unfoldable pub to_target : Request B → Result Address (Response F) → List (Action S) × HttpResult
  to_target req (err response) = ([], ok response)
  to_target req (ok target_addr) =
      let (actions, result) = with_tunnel req (far.open_bidirectional target_addr) in
      (open_tunnel target_addr ∷ actions, result)

  unfoldable pub proxy_handler : Request B → List (Action S) × HttpResult
  proxy_handler req = to_target req (extract_target_address far.parse_socket_addr req.uri)

-- The task that handle_connect spawns: the two streams that it copies between.
unfoldable pub copy_task : {U S E : Type 0} → Result U E → S → Option (U × S)
copy_task (ok upgraded) dest_stream = some (upgraded, dest_stream)
copy_task (err e) dest_stream = none
