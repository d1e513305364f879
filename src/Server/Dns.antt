-- ===== src/Server/Dns.antt =====
-- Name resolution, its cache and the binding of sockets (crates/ombrac-server/src/connection/dns.rs,
-- and lookup_host and bind_udp_socket_with_retry in
-- crates/ombrac-server/src/connection/datagram.rs).
use ombrac.Prelude.{
  ℕ, ◌≡◌, ◌⊎◌, inl, inr, refl, Bool-cases, Option-cases, Result-cases, bind-ok, Option, none, some,
  ok, err,
}
use ombrac.Net.{Bytes, SocketAddr, IpAddr, ip_v4, ip_v6, socket_addr, port_of, IoResult, IoError}
use ombrac.Cache.{Cache, Retains}
use ombrac.Protocol.{domain}
use ombrac.Server.{
  Resolver, choose_record, resolve_domain, lookup_host, bind_attempts, bind_udp_socket_with_retry,
}

port_of-socket_addr : (ip : IpAddr) (port : ℕ) → port_of (socket_addr ip port) ≡ port
port_of-socket_addr (ip_v4 o) port = refl
port_of-socket_addr (ip_v6 o) port = refl

ok-port :
    (ip : IpAddr) (port : ℕ) (a : SocketAddr)
    → ◌≡◌ {A = IoResult SocketAddr} (ok (socket_addr ip port)) (ok a)
    → port_of a ≡ port
ok-port ip port a q = cc (port_of-socket_addr ip port, q)

choose_record-port :
    (x y : Option IpAddr) (port : ℕ) (a : SocketAddr)
    → choose_record x y port ≡ ok a
    → port_of a ≡ port
unfolding choose_record
choose_record-port (some ip) y port a q = ok-port ip port a q
choose_record-port none (some ip) port a q = ok-port ip port a q
choose_record-port none none port a q = absurd (cc (q))

-- An address that a name resolves to carries the port that was asked for.
pub resolve_domain-port :
    (r : Resolver) (name : Bytes) (port : ℕ) (a : SocketAddr)
    → resolve_domain r name port ≡ ok a
    → port_of a ≡ port
unfolding resolve_domain
resolve_domain-port r name port a q = elim (Bool-cases (r.is_utf8 name)) [
  | inr e ↦ absurd (cc (rw (e, resolve_domain) at q))
  | inl e ↦ elim (Option-cases (r.parse_ip name)) [
    | inr (ip, k) ↦ ok-port ip port a (rw (e, k, resolve_domain) at q)
    | inl k ↦
        let (u, ready, chosen) = bind-ok r.get_dns_resolver _ a (rw (e, k, resolve_domain) at q) in
        choose_record-port _ _ port a chosen
  ]
]

module _ (r : Resolver) (c : Cache Bytes SocketAddr) (keeps : Retains c) where
  pub lookup_host-cached :
      (s : c.State) (name : Bytes) (port : ℕ) (a : SocketAddr)
      → c.find s name ≡ some a
      → lookup_host r c s (domain name port) ≡ (s, ok a)
  unfolding lookup_host
  lookup_host-cached s name port a found = rw (found, lookup_host) refl

-- Binding a socket takes the first of three attempts that succeeds; when all fail, the error is that
-- of the third.
pub bind_udp_socket_with_retry_lem :
    {S : Type 0} (bind : ℕ → IoResult S)
    → ((s : S) × (bind 0 ≡ ok s) × (bind_udp_socket_with_retry bind ≡ ok s))
      ⊎ (((e : IoError) × (bind 0 ≡ err e))
          × (((s : S) × (bind 1 ≡ ok s) × (bind_udp_socket_with_retry bind ≡ ok s))
              ⊎ (((e : IoError) × (bind 1 ≡ err e)) × (bind_udp_socket_with_retry bind ≡ bind 2))))
unfolding bind_udp_socket_with_retry bind_attempts
bind_udp_socket_with_retry_lem bind = elim (Result-cases (bind 0)) [
  | inl (s, q) ↦ inl (s, q, simp (q) refl)
  | inr (e, q) ↦ inr (
    (e, q),
    elim (Result-cases (bind 1)) [
      | inl (s, k) ↦ inl (s, k, simp (q, k) refl)
      | inr (e', k) ↦ inr (
        (e', k),
        elim (Result-cases (bind 2)) [
          | inl (s, l) ↦ simp (q, k, l) refl
          | inr (e'', l) ↦ simp (q, k, l) refl
        ],
      )
    ],
  )
]
