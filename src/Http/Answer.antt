-- ===== src/Http/Answer.antt =====
-- The target and the answer of the HTTP proxy (proxy_handler and extract_target_address in
-- crates/ombrac-client/src/endpoint/http.rs).
use ombrac.Prelude.{
  ℕ, Bool, true, false, Option, none, some, List, [], ◌∷◌, ◌≡◌, refl, ◌<◌, ◌≤◌, ◌⊎◌, inl, inr,
  length, Result, ok, err, sym, ◌∙◌, ap, arith, ◌≢◌, Result-cases, Option-cases,
}
use ombrac.Net.{Bytes, IsU16, IoResult}
use ombrac.Auth.{Bytes-discrete}
use ombrac.Protocol.{Address, domain, try_from, display_domain, max_domain_length}
use ombrac.Protocol.Parse.{try_from-printed}
use ombrac.Http.{
  Uri, Request, ok_status, bad_request, Response, empty_response, Action, open_tunnel, spawn_copy,
  spawn_connection, uri_port, default_port, port_or, https, or_bad_request, extract_target_address,
  Far, handle_connect, handle_http, by_method, with_tunnel, to_target, proxy_handler,
}

default_port-IsU16 : (scheme : Option Bytes) → IsU16 (default_port scheme)
unfolding default_port
default_port-IsU16 none = omega arith
default_port-IsU16 (some scheme) =
    elim (Bytes-discrete scheme https) as (λ d. IsU16 (elim d [ yes p ↦ 443 | no np ↦ 80 ])) [
      | yes p ↦ omega arith
      | no np ↦ omega arith
    ]

port_or-IsU16 :
    (found : Option ℕ) (default : ℕ)
    → ((port : ℕ) → found ≡ some port → IsU16 port)
    → IsU16 default
    → IsU16 (port_or found default)
port_or-IsU16 none default h d = d
port_or-IsU16 (some port) default h d = h port refl

-- A port of the request that is a u16, and either default.
uri_port-IsU16 :
    (uri : Uri) → ((port : ℕ) → uri.port_u16 ≡ some port → IsU16 port) → IsU16 (uri_port uri)
unfolding uri_port
uri_port-IsU16 uri h = port_or-IsU16 _ _ h (default_port-IsU16 uri.scheme_str)

-- The addresses that tunnels were asked for.
unfoldable pub targets : {S : Type 0} → List (Action S) → List Address
targets [] = []
targets (open_tunnel a ∷ rest) = a ∷ targets rest
targets (spawn_copy s ∷ rest) = targets rest
targets (spawn_connection s ∷ rest) = targets rest

module _ {B S F E : Type 0} (far : Far B S F E) where
  extract_target_address-some :
      (uri : Uri) (host : Bytes)
      → uri.host ≡ some host
      → extract_target_address {F = F} far.parse_socket_addr uri
        ≡ or_bad_request far.parse_socket_addr
            (try_from far.parse_socket_addr (display_domain host (uri_port uri)))
  unfolding extract_target_address uri_port
  extract_target_address-some uri host e = rw (e, extract_target_address) refl

  handle_http-targets : (req : Request B) (conn : S) → targets (handle_http far req conn).0 ≡ []
  unfolding handle_http targets
  handle_http-targets req conn = elim (Result-cases (far.handshake conn)) [
    | inl (sender, k) ↦ rw (k, handle_http) refl
    | inr (e, k) ↦ rw (k, handle_http) refl
  ]

  by_method-targets :
      (connect : Bool) (req : Request B) (conn : S)
      → targets (by_method far connect req conn).0 ≡ []
  unfolding by_method handle_connect targets
  by_method-targets true req conn = refl
  by_method-targets false req conn = handle_http-targets req conn

  with_tunnel-targets :
      (req : Request B) (opened : IoResult S) → targets (with_tunnel far req opened).0 ≡ []
  unfolding with_tunnel targets
  with_tunnel-targets req (err e) = refl
  with_tunnel-targets req (ok conn) = by_method-targets req.is_connect req conn

  to_target-targets :
      (req : Request B) (a : Address) → targets (to_target far req (ok a)).0 ≡ a ∷ []
  unfolding to_target targets
  to_target-targets req a =
      ap (λ rest. a ∷ rest) (with_tunnel-targets req (far.open_bidirectional a))

  proxy_handler-target :
      (req : Request B) (target : Result Address (Response F))
      → extract_target_address far.parse_socket_addr req.uri ≡ target
      → proxy_handler far req ≡ to_target far req target
  unfolding proxy_handler
  proxy_handler-target req target e = ap (to_target far req) e

  -- For a request whose host and port, the default ones included, are no socket address, exactly one
  -- tunnel is asked for, to that host and port, when the host has 1 to 255 octets. Otherwise no tunnel
  -- is asked for, nothing is spawned and the response is 400. The port of the request is a u16.
  pub proxy_handler-name :
      (req : Request B) (host : Bytes)
      → req.uri.host ≡ some host
      → ((port : ℕ) → req.uri.port_u16 ≡ some port → IsU16 port)
      → far.parse_socket_addr (display_domain host (uri_port req.uri)) ≡ none
      → ((1 ≤ length host)
          × (length host ≤ max_domain_length)
          × (targets (proxy_handler far req).0 ≡ domain host (uri_port req.uri) ∷ []))
        ⊎ (((length host ≡ 0) ⊎ (max_domain_length < length host))
            × (proxy_handler far req ≡ ([], ok (empty_response bad_request))))
  unfolding to_target
  proxy_handler-name req host h u16 no_socket =
      let port = uri_port-IsU16 req.uri u16 in
      let named = extract_target_address-some req.uri host h in
      elim (try_from-printed far.parse_socket_addr host (uri_port req.uri) port no_socket) [
        | inl (lo, hi, e) ↦ inl (
          lo,
          hi,
          ap (λ r. targets r.0)
                (proxy_handler-target req _ (named ∙ ap (or_bad_request far.parse_socket_addr) e))
              ∙ to_target-targets req (domain host (uri_port req.uri)),
        )
        | inr (bad, (e, k, invalid)) ↦
            inr (
              bad,
              proxy_handler-target req _ (named ∙ ap (or_bad_request far.parse_socket_addr) k),
            )
      ]

  handle_http-result :
      (req : Request B) (conn : S) → (handle_http far req conn).1 ≢ ok (empty_response ok_status)
  unfolding handle_http
  handle_http-result req conn q = elim (Result-cases (far.handshake conn)) [
    | inr (e, k) ↦ absurd (cc (rw (k, handle_http) at q))
    | inl (sender, k) ↦ elim (Result-cases (far.send_request conn req)) [
      | inl (resp, j) ↦ absurd (cc (rw (k, handle_http, j) at q))
      | inr (e, j) ↦ absurd (cc (rw (k, handle_http, j) at q))
    ]
  ]

  by_method-connected :
      (connect : Bool) (req : Request B) (conn : S)
      → (by_method far connect req conn).1 ≡ ok (empty_response ok_status)
      → (connect ≡ true) × ((by_method far connect req conn).0 ≡ spawn_copy conn ∷ [])
  unfolding by_method handle_connect
  by_method-connected true req conn q = (refl, refl)
  by_method-connected false req conn q = absurd (handle_http-result req conn q)

  with_tunnel-connected :
      (req : Request B) (opened : IoResult S)
      → (with_tunnel far req opened).1 ≡ ok (empty_response ok_status)
      → (conn : S) × (opened ≡ ok conn)
        × (req.is_connect ≡ true)
        × ((with_tunnel far req opened).0 ≡ spawn_copy conn ∷ [])
  unfolding with_tunnel
  with_tunnel-connected req (err e) q = absurd (cc (q))
  with_tunnel-connected req (ok conn) q =
      let (connect, spawned) = by_method-connected req.is_connect req conn q in
      (conn, refl, connect, spawned)

  or_bad_request-err :
      (m : IoResult Address) (r : Response F)
      → or_bad_request far.parse_socket_addr m ≡ err r
      → r ≡ empty_response bad_request
  or_bad_request-err (ok a) r q = absurd (cc (q))
  or_bad_request-err (err e) r q = cc (q)

  extract_target_address-err :
      (uri : Uri) (r : Response F)
      → extract_target_address far.parse_socket_addr uri ≡ err r
      → r ≡ empty_response bad_request
  unfolding extract_target_address
  extract_target_address-err uri r q = elim (Option-cases uri.host) [
    | inl e ↦ cc (rw (e, extract_target_address) at q)
    | inr (host, e) ↦ or_bad_request-err _ r (sym (extract_target_address-some uri host e) ∙ q)
  ]

  -- The proxy's own response 200 is given to a CONNECT request only, once the tunnel to its target is
  -- open, and the task that copies over this tunnel is all that was spawned.
  pub proxy_handler-connected :
      (req : Request B)
      → (proxy_handler far req).1 ≡ ok (empty_response ok_status)
      → (a : Address) × (conn : S) × (extract_target_address {F = F} far.parse_socket_addr req.uri
          ≡ ok a)
        × (far.open_bidirectional a ≡ ok conn)
        × (req.is_connect ≡ true)
        × ((proxy_handler far req).0 ≡ open_tunnel a ∷ spawn_copy conn ∷ [])
  unfolding to_target
  proxy_handler-connected req q =
      elim (Result-cases (extract_target_address {F = F} far.parse_socket_addr req.uri)) [
        | inr (r, k) ↦ absurd (
            cc (
              sym (ap (λ t. t.1) (proxy_handler-target req (err r) k)) ∙ q,
              extract_target_address-err req.uri r k,
            ))
        | inl (a, k) ↦
            let at = proxy_handler-target req (ok a) k in
            let (conn, opened, connect, spawned) =
              with_tunnel-connected req (far.open_bidirectional a) (sym (ap (λ r. r.1) at) ∙ q) in
            (
              a,
              conn,
              k,
              opened,
              connect,
              ap (λ r. r.0) at ∙ ap (λ rest. open_tunnel a ∷ rest) spawned,
            )
      ]
