-- ===== src/Http/Examples.antt =====
-- Requests to the HTTP proxy (crates/ombrac-client/src/endpoint/http.rs), and the theorems at these inputs.
use ombrac.Prelude.{
  ℕ, true, false, Option, none, some, [], ◌∷◌, ◌≡◌, arith, refl, ◌<◌, ◌≤◌, ◌⊎◌, length, ok,
}
use ombrac.Net.{Bytes, IsU16}
use ombrac.Protocol.{Address, domain, try_from, display_domain, max_domain_length}
use ombrac.Http.{
  Uri, Request, ok_status, bad_request, empty_response, far_response, open_tunnel, spawn_copy,
  spawn_connection, uri_port, default_port, https, extract_target_address, Far, handle_connect,
  handle_http, by_method, with_tunnel, to_target, proxy_handler, copy_task,
}
use ombrac.Http.Answer.{targets, proxy_handler-name}

-- No text is a socket address; a tunnel is its target; the far server answers a request with its body.
abbrev test_far : Far Bytes Address Bytes ℕ
test_far = record {
  parse_socket_addr = λ text. none;
  open_bidirectional = λ a. ok a;
  handshake = λ conn. ok tt;
  send_request = λ conn req. ok req.body;
}

abbrev test_host : Bytes
test_host = 97 ∷ []

abbrev test_uri : Option ℕ → Option Bytes → Uri
test_uri port scheme = record { host = some test_host; port_u16 = port; scheme_str = scheme }

-- "CONNECT a", and a GET of "https://a:8080".
abbrev connect_request : Request Bytes
connect_request = record { is_connect = true; uri = test_uri none none; body = [] }

abbrev get_request : Request Bytes
get_request = record { is_connect = false; uri = test_uri (some 8080) (some https); body = 7 ∷ [] }

abbrev test_target : ℕ → Address
test_target port = domain test_host port

test_connect : proxy_handler test_far connect_request ≡ (
  open_tunnel (test_target 80) ∷ spawn_copy (test_target 80) ∷ [],
  ok (empty_response ok_status),
)
unfolding proxy_handler to_target with_tunnel by_method handle_connect extract_target_address
    uri_port default_port try_from display_domain
test_connect = refl

test_get : proxy_handler test_far get_request ≡ (
  open_tunnel (test_target 8080) ∷ spawn_connection (test_target 8080) ∷ [],
  ok (far_response (7 ∷ [])),
)
unfolding proxy_handler to_target with_tunnel by_method handle_http extract_target_address uri_port
    default_port try_from display_domain
test_get = refl

test_copy : copy_task {U = ℕ} {S = ℕ} {E = ℕ} (ok 5) 6 ≡ some (5, 6)
unfolding copy_task
test_copy = refl

get_port-IsU16 : (port : ℕ) → get_request.uri.port_u16 ≡ some port → IsU16 port
get_port-IsU16 port q = let same : 8080 ≡ port = cc (q) in omega arith

proxy_handler-name_example :
    ((1 ≤ length test_host)
      × (length test_host ≤ max_domain_length)
      × (targets (proxy_handler test_far get_request).0
          ≡ domain test_host (uri_port get_request.uri) ∷ []))
    ⊎ (((length test_host ≡ 0) ⊎ (max_domain_length < length test_host))
        × (proxy_handler test_far get_request ≡ ([], ok (empty_response bad_request))))
proxy_handler-name_example =
    proxy_handler-name test_far get_request test_host refl get_port-IsU16 refl
