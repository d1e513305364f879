-- ===== src/Socks/Message.antt =====
-- SOCKS5 requests, replies and UDP datagrams (crates/ombrac-client/src/endpoint/socks/protocol.rs).
use ombrac.Prelude.{ℕ, ◌<◌, ◌≡◌, refl, ◌⊎◌, inl, inr, [], ◌∷◌, ◌++◌, arith, length, ok, err}
use native.Mathlib.Decide.{dec_lt}
use ombrac.Net.{Bytes, io_error, invalid_data}
use ombrac.Wire.{read_exact}
use ombrac.Protocol.{socket_v4, socket_v6, domain}
use ombrac.Protocol.{Address as OmbracAddress}
use ombrac.Socks.{
  SocksAddress, ipv4, ipv6, domain_name, address_read, encode, to_ombrac, try_from_ombrac, Request,
  connect, bind, associate, request_read, version, cmd_connect, cmd_bind, cmd_associate, Reply,
  as_u8, udp_from_buf, encode_unfragmented,
}
use ombrac.Socks.Address.{IsSocks, address_read-encode, from_buf-encode}

-- The command octet of a request, and its address.
abbrev pub command : Request → ℕ
command (connect a) = cmd_connect
command (bind a) = cmd_bind
command (associate a) = cmd_associate

abbrev pub target : Request → SocksAddress
target (connect a) = a
target (bind a) = a
target (associate a) = a

-- A request in its wire form is read as this request, whatever its reserved octet, and what
-- follows it is left.
pub request_read-encode :
    (r : Request) (rsv : ℕ) (rest : Bytes)
    → IsSocks (target r)
    → request_read (version ∷ command r ∷ rsv ∷ (encode (target r) ++ rest)) ≡ ok (r, rest)
unfolding request_read read_exact
request_read-encode (connect a) rsv rest h = ground (arith, address_read-encode a rest h)
request_read-encode (bind a) rsv rest h = ground (arith, address_read-encode a rest h)
request_read-encode (associate a) rsv rest h = ground (arith, address_read-encode a rest h)

-- A request that is read came with the version 5 and its own command, and its address is what
-- `address_read` reads behind the three octets.
pub request_read-ok :
    (s : Bytes) (r : Request) (rest : Bytes)
    → request_read s ≡ ok (r, rest)
    → (rsv : ℕ) × (s' : Bytes) × (s ≡ version ∷ command r ∷ rsv ∷ s')
      × (address_read s' ≡ ok (target r, rest))
unfolding request_read read_exact
request_read-ok [] r rest e = ground arith
request_read-ok (a ∷ []) r rest e = ground arith
request_read-ok (a ∷ b ∷ []) r rest e = ground arith
request_read-ok (ver ∷ cmd ∷ rsv ∷ s) (connect a) rest e = (rsv, s, ground arith, ground arith)
request_read-ok (ver ∷ cmd ∷ rsv ∷ s) (bind a) rest e = (rsv, s, ground arith, ground arith)
request_read-ok (ver ∷ cmd ∷ rsv ∷ s) (associate a) rest e = (rsv, s, ground arith, ground arith)

-- A datagram that `encode_unfragmented` made is read back: not a fragment, with its address and data.
pub udp_from_buf-encode :
    (a : SocksAddress) (payload : Bytes)
    → IsSocks a
    → udp_from_buf (encode_unfragmented a payload)
      ≡ ok (record { frag = 0; address = a; payload = payload })
unfolding udp_from_buf encode_unfragmented
udp_from_buf-encode a payload h = rw (from_buf-encode a payload h)

-- Two replies with one code are the same reply.
pub as_u8-injective : (r r' : Reply) → as_u8 r ≡ as_u8 r' → r ≡ r'
unfolding as_u8
as_u8-injective r r' e = ground arith

-- The conversion from the tunnel's addresses fails exactly for a domain of more than 255 octets, and
-- otherwise is the inverse of the conversion to them.
pub try_from_ombrac_lem :
    (o : OmbracAddress)
    → ((a : SocksAddress) × (try_from_ombrac o ≡ ok a) × (to_ombrac a ≡ o))
      ⊎ ((name : Bytes) × (port : ℕ) × (o ≡ domain name port)
          × (255 < length name)
          × (try_from_ombrac o ≡ err (io_error invalid_data "domain exceeds maximum length")))
unfolding try_from_ombrac to_ombrac
try_from_ombrac_lem (socket_v4 a) = inl (ipv4 a, refl, refl)
try_from_ombrac_lem (socket_v6 a) = inl (ipv6 a, refl, refl)
try_from_ombrac_lem (domain name port) = elim (dec_lt 255 (length name)) [
  | yes h ↦ inr (name, port, refl, h, ground arith)
  | no h ↦ inl (domain_name name port, ground arith, refl)
]
