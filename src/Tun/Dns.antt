-- ===== src/Tun/Dns.antt =====
-- The fake DNS of crates/ombrac-client/src/endpoint/tun.rs (mod fakedns). An IPv4 address is its number
-- here, and a name its octets. The two caches are maps. One drops entries at will; of the other, an
-- entry is gone for its readers before the listener has run, whose two calls are steps of their own.
use native.Mathlib.Decide.{ℕ_discrete}
use ombrac.Prelude.{
  ℕ, Bool, Option, none, some, List, [], ◌∷◌, ◌++◌, ◌+◌, ◌*◌, leb, if◌then◌else◌, ◌≡◌,
}
use ombrac.Net.{Bytes, IpAddr, ip_v4, ip_v6}
use ombrac.Auth.{Bytes-discrete}
use ombrac.Cache.Map.{write}

-- The ipnet crate's network: its address, the number of its hosts, and the test for an address.
pub record Ipv4Net : Type 0 where
  pub network : ℕ
  pub hosts_count : ℕ
  pub contains : Bytes → Bool

-- How far the listener of an entry that has left `ip_to_domain` has come: it invalidates the name, and
-- then gives the address back.
pub data Listening : Type 0 where
  to_invalidate : Bytes → Listening
  to_recycle : Listening

-- `name_key` is what hickory's Name is compared and hashed by, which leaves out the case of letters:
-- the keys of `domain_to_ip` are names under it. `listening` has the listeners that have not ended.
pub record FakeDns : Type 0 where
  pub ip_net : Ipv4Net
  pub name_key : Bytes → Bytes
  pub listening : ℕ → Option Listening
  pub domain_to_ip : Bytes → Option ℕ
  pub ip_to_domain : ℕ → Option Bytes
  pub recycled_ips : List ℕ
  pub cursor : ℕ

-- FakeDns::new
abbrev pub new_fakedns : (Bytes → Bytes) → Ipv4Net → FakeDns
new_fakedns name_key ip_net = record {
  ip_net = ip_net;
  name_key = name_key;
  listening = λ j. none;
  domain_to_ip = λ d. none;
  ip_to_domain = λ j. none;
  recycled_ips = [];
  cursor = 2;
}

-- The loop of allocate_unique_ip, whose exchange succeeds when no other task is between.
unfoldable pub allocate_new : FakeDns → FakeDns × Option ℕ
allocate_new s =
    if leb s.ip_net.hosts_count s.cursor
    then (s, none)
    else (record s { cursor = s.cursor + 1 }, some (s.ip_net.network + 1 + s.cursor))

unfoldable pub allocate_from : FakeDns → List ℕ → FakeDns × Option ℕ
allocate_from s [] = allocate_new s
allocate_from s (ip ∷ rest) = (record s { recycled_ips = rest }, some ip)

unfoldable pub allocate_unique_ip : FakeDns → FakeDns × Option ℕ
allocate_unique_ip s = allocate_from s s.recycled_ips

-- What hickory reads of a query: its questions, each with whether it asks for an A record.
abbrev pub DnsQuery : Type 0
DnsQuery = List (Bytes × Bool)

pub data DnsResponse : Type 0 where
  refused : DnsResponse
  no_error : Bytes → ℕ → DnsResponse

-- The new address is entered into both caches.
unfoldable pub map_domain : Bytes → FakeDns × Option ℕ → FakeDns × Option DnsResponse
map_domain name (s, none) = (s, none)
map_domain name (s, some ip) = (
  record s {
    ip_to_domain = write ℕ_discrete s.ip_to_domain ip (some name);
    domain_to_ip = write Bytes-discrete s.domain_to_ip (s.name_key name) (some ip);
  },
  some (no_error name ip),
)

unfoldable pub answer_name : FakeDns → Bytes → Option ℕ → FakeDns × Option DnsResponse
answer_name s name (some ip) = (s, some (no_error name ip))
answer_name s name none = map_domain name (allocate_unique_ip s)

-- handle_dns_query on what was parsed.
unfoldable pub handle_dns_query : FakeDns → Option DnsQuery → FakeDns × Option DnsResponse
handle_dns_query s none = (s, none)
handle_dns_query s (some []) = (s, none)
handle_dns_query s (some ((name, is_a) ∷ rest)) =
    if is_a then answer_name s name (s.domain_to_ip (s.name_key name)) else (s, some refused)

-- Ipv4Addr as a number.
abbrev pub to_u32 : Bytes → ℕ
to_u32 [] = 0
to_u32 (x ∷ []) = x
to_u32 (a ∷ b ∷ []) = a * 256 + b
to_u32 (a ∷ b ∷ c ∷ []) = (a * 256 + b) * 256 + c
to_u32 (a ∷ b ∷ c ∷ d ∷ rest) = ((a * 256 + b) * 256 + c) * 256 + d

unfoldable pub get_domain_by_ip : FakeDns → IpAddr → Option Bytes
get_domain_by_ip s (ip_v4 o) = s.ip_to_domain (to_u32 o)
get_domain_by_ip s (ip_v6 o) = none

-- An entry leaves `ip_to_domain`, and its listener is started.
unfoldable pub evict : FakeDns → ℕ → Bytes → FakeDns
evict s ip name = record s {
  ip_to_domain = write ℕ_discrete s.ip_to_domain ip none;
  listening = write ℕ_discrete s.listening ip (some (to_invalidate name));
}

-- The listener's call of `invalidate`.
unfoldable pub invalidate : FakeDns → ℕ → Bytes → FakeDns
invalidate s ip name = record s {
  domain_to_ip = write Bytes-discrete s.domain_to_ip (s.name_key name) none;
  listening = write ℕ_discrete s.listening ip (some to_recycle);
}

-- The listener's `push`, with which it ends.
unfoldable pub recycle : FakeDns → ℕ → FakeDns
recycle s ip = record s {
  listening = write ℕ_discrete s.listening ip none;
  recycled_ips = s.recycled_ips ++ ip ∷ [];
}

-- domain_to_ip drops an entry.
unfoldable pub forget : FakeDns → Bytes → FakeDns
forget s key = record s { domain_to_ip = write Bytes-discrete s.domain_to_ip key none }

-- A query is answered, an entry of either cache is dropped, or a listener goes on.
pub data DnsStep (s : FakeDns) : FakeDns → Type 0 where
  queried : (q : Option DnsQuery) → DnsStep s (handle_dns_query s q).0
  evicted : (ip : ℕ) (name : Bytes) → s.ip_to_domain ip ≡ some name → DnsStep s (evict s ip name)
  invalidated :
      (ip : ℕ) (name : Bytes)
      → s.listening ip ≡ some (to_invalidate name)
      → DnsStep s (invalidate s ip name)
  recycled : (ip : ℕ) → s.listening ip ≡ some to_recycle → DnsStep s (recycle s ip)
  forgotten : (key : Bytes) → DnsStep s (forget s key)

pub data Reachable (name_key : Bytes → Bytes) (ip_net : Ipv4Net) : FakeDns → Type 0 where
  start : Reachable name_key ip_net (new_fakedns name_key ip_net)
  later : (s t : FakeDns) → Reachable name_key ip_net s → DnsStep s t → Reachable name_key ip_net t
