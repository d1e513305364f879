-- ===== src/Socks.antt =====
-- crates/ombrac-client/src/endpoint/socks/protocol.rs: the SOCKS5 wire protocol. A reader takes the
-- octets that are left and returns what it read with the rest.
pub mod Address
pub mod Canonical
pub mod Message
mod Examples
use ombrac.Prelude.{
  ℕ, zero, suc, Bool, true, false, List, [], ◌∷◌, ◌++◌, ◌+◌, ◌%◌, ltb, leb, ◌==◌, if◌then◌else◌,
  length, take, drop, ok, err, ◌>>=◌,
}
use ombrac.Net.{
  Bytes, ErrorKind, connection_refused, timed_out, host_unreachable, network_unreachable,
  permission_denied, invalid_data, IoError, io_error, IoResult, SocketAddrV4, SocketAddrV6,
  SocketAddr, v4, v6,
}
use ombrac.Wire.{read_u8, read_exact, be_u16, put_u16}
use ombrac.Protocol.{socket_v4, socket_v6, domain}
use ombrac.Protocol.{Address as OmbracAddress}

abbrev pub version : ℕ
version = 0x05

abbrev pub atyp_ipv4 : ℕ
atyp_ipv4 = 0x01

abbrev pub atyp_domain : ℕ
atyp_domain = 0x03

abbrev pub atyp_ipv6 : ℕ
atyp_ipv6 = 0x04

abbrev pub cmd_connect : ℕ
cmd_connect = 0x01

abbrev pub cmd_bind : ℕ
cmd_bind = 0x02

abbrev pub cmd_associate : ℕ
cmd_associate = 0x03

abbrev pub no_authentication : ℕ
no_authentication = 0x00

abbrev pub no_acceptable_method : ℕ
no_acceptable_method = 0xff

pub data SocksAddress : Type 0 where
  ipv4 : SocketAddrV4 → SocksAddress
  ipv6 : SocketAddrV6 → SocksAddress
  domain_name : Bytes → ℕ → SocksAddress

-- Address::UNSPECIFIED
abbrev pub unspecified_address : SocksAddress
unspecified_address = ipv4 (record { ip = 0 ∷ 0 ∷ 0 ∷ 0 ∷ []; port = 0 })

abbrev invalid_address : {A : Type 0} → IoResult A
invalid_address = err (io_error invalid_data "invalid address type: {other}")

-- The addresses that the octets of an IPv4 or IPv6 address and a port make.
abbrev pub address_v4 : Bytes → SocksAddress
address_v4 buf = ipv4 (record { ip = take 4 buf; port = be_u16 (drop 4 buf) })

abbrev pub address_v6 : Bytes → SocksAddress
address_v6 buf =
    ipv6 (record { ip = take 16 buf; port = be_u16 (drop 16 buf); flowinfo = 0; scope_id = 0 })

pub read_ipv4 : Bytes → IoResult (SocksAddress × Bytes)
read_ipv4 s = do (buf, rest) ← read_exact 6 s; ok (address_v4 buf, rest)

pub read_ipv6 : Bytes → IoResult (SocksAddress × Bytes)
read_ipv6 s = do (buf, rest) ← read_exact 18 s; ok (address_v6 buf, rest)

pub read_domain : Bytes → IoResult (SocksAddress × Bytes)
read_domain s = do
  (len, s') ← read_u8 s
  if len == 0
      then err (io_error invalid_data "empty domain")
      else (read_exact (len + 2) s' >>= λ (buf, rest).
          ok (domain_name (take len buf) (be_u16 (drop len buf)), rest))

-- Address::read
pub address_read : Bytes → IoResult (SocksAddress × Bytes)
unfolding read_ipv4 read_ipv6 read_domain
address_read s = do
  (atyp, rest) ← read_u8 s
  if atyp == atyp_ipv4
      then read_ipv4 rest
      else if atyp == atyp_ipv6
      then read_ipv6 rest
      else if atyp == atyp_domain
      then read_domain rest
      else invalid_address

pub buf_ipv4 : Bytes → IoResult (SocksAddress × Bytes)
buf_ipv4 buf =
    if ltb (length buf) 6
    then err (io_error invalid_data "insufficient data for IPv4 address")
    else ok (ipv4 (record { ip = take 4 buf; port = be_u16 (drop 4 buf) }), drop 6 buf)

pub buf_ipv6 : Bytes → IoResult (SocksAddress × Bytes)
buf_ipv6 buf =
    if ltb (length buf) 18
    then err (io_error invalid_data "insufficient data for IPv6 address")
    else ok (
      ipv6 (record { ip = take 16 buf; port = be_u16 (drop 16 buf); flowinfo = 0; scope_id = 0 }),
      drop 18 buf,
    )

pub buf_domain : Bytes → IoResult (SocksAddress × Bytes)
buf_domain [] = err (io_error invalid_data "insufficient data for domain length")
buf_domain (len ∷ buf) =
    if len == 0
    then err (io_error invalid_data "empty domain")
    else if ltb (length buf) (len + 2)
    then err (io_error invalid_data "insufficient data for domain name")
    else ok (domain_name (take len buf) (be_u16 (drop len buf)), drop (len + 2) buf)

-- Address::from_buf
unfoldable pub from_buf : Bytes → IoResult (SocksAddress × Bytes)
unfolding buf_ipv4 buf_ipv6 buf_domain
from_buf [] = err (io_error invalid_data "insufficient data for address type")
from_buf (atyp ∷ buf) =
    if atyp == atyp_ipv4
    then buf_ipv4 buf
    else if atyp == atyp_ipv6
    then buf_ipv6 buf
    else if atyp == atyp_domain
    then buf_domain buf
    else invalid_address

-- Address::encode, what it appends to `dst`. The length of a domain is cut to an octet.
unfoldable pub encode : SocksAddress → Bytes
encode (ipv4 a) = atyp_ipv4 ∷ (a.ip ++ put_u16 a.port)
encode (ipv6 a) = atyp_ipv6 ∷ (a.ip ++ put_u16 a.port)
encode (domain_name name port) = atyp_domain ∷ (length name % 256) ∷ (name ++ put_u16 port)

pub encoded_len : SocksAddress → ℕ
encoded_len (ipv4 a) = 1 + 4 + 2
encoded_len (ipv6 a) = 1 + 16 + 2
encoded_len (domain_name name port) = 1 + 1 + length name + 2

-- `Address: From<SocketAddr>`
unfoldable pub from_socket_addr : SocketAddr → SocksAddress
from_socket_addr (v4 a) = ipv4 a
from_socket_addr (v6 a) = ipv6 a

-- `OmbracAddress: From<Address>`
unfoldable pub to_ombrac : SocksAddress → OmbracAddress
to_ombrac (ipv4 a) = socket_v4 a
to_ombrac (ipv6 a) = socket_v6 a
to_ombrac (domain_name name port) = domain name port

-- `Address: TryFrom<OmbracAddress>`
unfoldable pub try_from_ombrac : OmbracAddress → IoResult SocksAddress
try_from_ombrac (socket_v4 a) = ok (ipv4 a)
try_from_ombrac (socket_v6 a) = ok (ipv6 a)
try_from_ombrac (domain name port) =
    if ltb 255 (length name)
    then err (io_error invalid_data "domain exceeds maximum length")
    else ok (domain_name name port)

pub data Request : Type 0 where
  connect bind associate : SocksAddress → Request

pub make_request : ℕ → SocksAddress → IoResult Request
make_request cmd address =
    if cmd == cmd_connect
    then ok (connect address)
    else if cmd == cmd_bind
    then ok (bind address)
    else if cmd == cmd_associate
    then ok (associate address)
    else err (io_error invalid_data "invalid request command: {other}")

-- The rest of Request::read, on the three octets of its header.
pub read_body : Bytes → Bytes → IoResult (Request × Bytes)
unfolding make_request
read_body (ver ∷ cmd ∷ rsv ∷ []) s =
    if ver == version
    then (address_read s >>= λ (address, rest). make_request cmd address >>= λ r. ok (r, rest))
    else err (io_error invalid_data "unsupported SOCKS version")
read_body header s = err (io_error invalid_data "unsupported SOCKS version")

-- Request::read
pub request_read : Bytes → IoResult (Request × Bytes)
unfolding read_body
request_read s = do (header, rest) ← read_exact 3 s; read_body header rest

pub data Reply : Type 0 where
  succeeded general_failure connection_not_allowed reply_network_unreachable reply_host_unreachable
        reply_connection_refused ttl_expired command_not_supported :
      Reply

-- Reply::as_u8
unfoldable pub as_u8 : Reply → ℕ
as_u8 succeeded = 0x00
as_u8 general_failure = 0x01
as_u8 connection_not_allowed = 0x02
as_u8 reply_network_unreachable = 0x03
as_u8 reply_host_unreachable = 0x04
as_u8 reply_connection_refused = 0x05
as_u8 ttl_expired = 0x06
as_u8 command_not_supported = 0x07

-- Reply::from_connect_error
unfoldable pub from_connect_error : IoError → Reply
from_connect_error e = elim e.kind [
  | connection_refused ↦ reply_connection_refused
  | timed_out ↦ ttl_expired
  | host_unreachable ↦ reply_host_unreachable
  | network_unreachable ↦ reply_network_unreachable
  | permission_denied ↦ connection_not_allowed
  | _ ↦ general_failure
]

unfoldable pub encode_reply : Reply → SocksAddress → Bytes
encode_reply reply address = version ∷ as_u8 reply ∷ 0x00 ∷ encode address

pub record SocksUdpPacket : Type 0 where
  pub frag : ℕ
  pub address : SocksAddress
  pub payload : Bytes

-- UdpPacket::from_buf
unfoldable pub udp_from_buf : Bytes → IoResult SocksUdpPacket
udp_from_buf (rsv ∷ rsv' ∷ frag ∷ buf) = do
  (address, payload) ← from_buf buf
  ok (record { frag = frag; address = address; payload = payload })
udp_from_buf short = err (io_error invalid_data "insufficient data for UDP header")

-- UdpPacket::encode_unfragmented
unfoldable pub encode_unfragmented : SocksAddress → Bytes → Bytes
encode_unfragmented address payload = 0x00 ∷ 0x00 ∷ 0x00 ∷ (encode address ++ payload)
