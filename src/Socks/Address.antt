-- ===== src/Socks/Address.antt =====
-- SOCKS5 addresses on the wire (crates/ombrac-client/src/endpoint/socks/protocol.rs).
use ombrac.Prelude.{
  ℕ, ◌+◌, ◌%◌, ◌≤◌, ◌≡◌, refl, ap, ◌∙◌, sym, ◌⊎◌, inl, inr, [], ◌∷◌, ◌++◌, arith, ◌==◌, length,
  take, drop, ok, err, All, length-append, Bool-cases, take-append_exact, drop-append_exact,
  append-nil, take-take,
}
use ombrac.Net.{
  Bytes, IoResult, IsByte, IsU16, IsV4, IsV6, SocketAddrV4, SocketAddrV6, IoError, io_error,
  invalid_data, unexpected_eof,
}
use ombrac.Wire.{
  read_u8, read_exact-append, read_exact_cases, be_u16-drop-take, be_u16, put_u16, be_u16-put_u16,
}
use ombrac.Socks.{
  SocksAddress, ipv4, ipv6, domain_name, read_ipv4, read_ipv6, read_domain, address_read, buf_ipv4,
  buf_ipv6, buf_domain, from_buf, encode, encoded_len,
}

-- What a well-formed address holds; only IPv6 addresses without flow information and scope occur on
-- the wire.
abbrev pub IsSocks : SocksAddress → Type 0
IsSocks (ipv4 a) = IsV4 a
IsSocks (ipv6 a) = IsV6 a × (a.flowinfo ≡ 0) × (a.scope_id ≡ 0)
IsSocks (domain_name name port) =
    (1 ≤ length name) × (length name ≤ 255) × All IsByte name × IsU16 port

length-put_u16 : (n : ℕ) → length (put_u16 n) ≡ 2
unfolding put_u16
length-put_u16 n = refl

be_u16_alone : (port : ℕ) → IsU16 port → be_u16 (put_u16 port) ≡ port
be_u16_alone port h = ap be_u16 (sym (append-nil (put_u16 port))) ∙ be_u16-put_u16 port [] h

-- The octets of a name or an IP address, and a port behind them.
field_port :
    (name : Bytes) (port n : ℕ)
    → length name ≡ n
    → IsU16 port
    → (take n (name ++ put_u16 port) ≡ name)
      × (be_u16 (drop n (name ++ put_u16 port)) ≡ port)
      × (length (name ++ put_u16 port) ≡ n + 2)
field_port name port n e h = rw (← e) (
  take-append_exact name (put_u16 port),
  rw drop-append_exact (be_u16_alone port h),
  rw length-append (omega (arith, length-put_u16 port)),
)

read_ipv4-append :
    (a : SocketAddrV4) (rest : Bytes)
    → IsV4 a
    → read_ipv4 ((a.ip ++ put_u16 a.port) ++ rest) ≡ ok (ipv4 a, rest)
unfolding read_ipv4
read_ipv4-append a rest (n, _, p) =
    let (host, port, total) = field_port a.ip a.port 4 n p in
    rw (read_exact-append (a.ip ++ put_u16 a.port) rest 6 total, host, port)

read_ipv6-append :
    (a : SocketAddrV6) (rest : Bytes)
    → IsSocks (ipv6 a)
    → read_ipv6 ((a.ip ++ put_u16 a.port) ++ rest) ≡ ok (ipv6 a, rest)
unfolding read_ipv6
read_ipv6-append a rest ((n, _, p), f, d) =
    let (host, port, total) = field_port a.ip a.port 16 n p in
    rw (read_exact-append (a.ip ++ put_u16 a.port) rest 18 total, host, port) (ground arith)

read_domain-append :
    (name rest : Bytes) (port : ℕ)
    → IsSocks (domain_name name port)
    → read_domain ((length name % 256) ∷ ((name ++ put_u16 port) ++ rest))
      ≡ ok (domain_name name port, rest)
unfolding read_domain read_u8
read_domain-append name rest port (lo, hi, _, p) =
    let (host, port', total) = field_port name port (length name) refl p in
    let whole : length name % 256 ≡ length name = omega arith in
    rw (whole, read_exact-append (name ++ put_u16 port) rest (length name + 2) total, host, port')
      (ground arith)

-- What `encode` wrote is read back by `address_read`, and the octets behind it are left.
pub address_read-encode :
    (a : SocksAddress) (rest : Bytes) → IsSocks a → address_read (encode a ++ rest) ≡ ok (a, rest)
unfolding address_read encode read_u8
address_read-encode (ipv4 a) rest h = read_ipv4-append a rest h
address_read-encode (ipv6 a) rest h = read_ipv6-append a rest h
address_read-encode (domain_name name port) rest h = read_domain-append name rest port h

-- Both readers return the same, or both fail.
abbrev pub SameReading : IoResult (SocksAddress × Bytes) → IoResult (SocksAddress × Bytes) → Type 0
SameReading r r' = (r ≡ r') ⊎ ((e : IoError) × (e' : IoError) × (r ≡ err e) × (r' ≡ err e'))

abbrev early_eof : IoError
early_eof = io_error unexpected_eof "early eof"

buf_ipv4-same : (s : Bytes) → SameReading (read_ipv4 s) (buf_ipv4 s)
unfolding read_ipv4 buf_ipv4
buf_ipv4-same s = elim (read_exact_cases 6 s) [
  | inl (short, e) ↦
      inr
        (early_eof, io_error invalid_data "insufficient data for IPv4 address", rw e, ground arith)
  | inr (long, e) ↦
      inl
        (rw (e, take-take 4 6 s (omega arith), be_u16-drop-take 4 6 s (omega arith)) (ground arith))
]

buf_ipv6-same : (s : Bytes) → SameReading (read_ipv6 s) (buf_ipv6 s)
unfolding read_ipv6 buf_ipv6
buf_ipv6-same s = elim (read_exact_cases 18 s) [
  | inl (short, e) ↦
      inr
        (early_eof, io_error invalid_data "insufficient data for IPv6 address", rw e, ground arith)
  | inr (long, e) ↦ inl (
      rw (e, take-take 16 18 s (omega arith), be_u16-drop-take 16 18 s (omega arith))
        (ground arith))
]

buf_domain-same : (s : Bytes) → SameReading (read_domain s) (buf_domain s)
unfolding read_domain buf_domain read_u8
buf_domain-same [] = inr (_, _, refl, refl)
buf_domain-same (len ∷ s) = elim (Bool-cases (len == 0)) [
  | inl z ↦
      inr (io_error invalid_data "empty domain", io_error invalid_data "empty domain", rw z, rw z)
  | inr nz ↦ elim (read_exact_cases (len + 2) s) [
    | inl (short, e) ↦ inr (
      early_eof,
      io_error invalid_data "insufficient data for domain name",
      rw (nz, e),
      ground arith,
    )
    | inr (long, e) ↦ inl (
        rw (nz, e, take-take len (len + 2) s (omega arith), be_u16-drop-take len (len + 2) s refl)
          (ground arith))
  ]
]

-- On every input `address_read` (the reader of a stream) and `from_buf` (the parser of a datagram)
-- read the same address and leave the same rest, or both fail.
pub address_read-from_buf : (s : Bytes) → SameReading (address_read s) (from_buf s)
unfolding address_read from_buf read_u8
address_read-from_buf [] = inr (_, _, refl, refl)
address_read-from_buf (atyp ∷ s) =
    ground (arith, buf_ipv4-same s, buf_ipv6-same s, buf_domain-same s)

-- What `encode` wrote is read back by `from_buf`, and the octets behind it are left.
pub from_buf-encode :
    (a : SocksAddress) (rest : Bytes) → IsSocks a → from_buf (encode a ++ rest) ≡ ok (a, rest)
from_buf-encode a rest h = elim (address_read-from_buf (encode a ++ rest)) [
  | inl same ↦ sym same ∙ address_read-encode a rest h
  | inr (e, e', r, _) ↦ cc (address_read-encode a rest h)
]

-- `encoded_len` is the length of the encoding.
pub length-encode : (a : SocksAddress) → IsSocks a → length (encode a) ≡ encoded_len a
unfolding encode encoded_len
length-encode (ipv4 a) (n, _, _) =
    omega (arith, length-append a.ip (put_u16 a.port), length-put_u16 a.port)
length-encode (ipv6 a) ((n, _, _), _, _) =
    omega (arith, length-append a.ip (put_u16 a.port), length-put_u16 a.port)
length-encode (domain_name name port) h =
    omega (arith, length-append name (put_u16 port), length-put_u16 port)
