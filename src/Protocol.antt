-- ===== src/Protocol.antt =====
-- crates/ombrac/src/protocol.rs: the messages of the tunnel, addresses, and the splitting of a large
-- UDP packet into fragments. Their bincode encoding is a third-party format and is not modelled.
pub mod Split
pub mod Parse
mod Examples
use ombrac.Prelude.{
  ℕ, zero, suc, String, Bool, true, false, Option, none, some, List, [], ◌∷◌, ◌++◌, ◌+◌, ◌-◌, ◌*◌,
  ◌/◌, ◌%◌, ◌&&◌, ltb, leb, ◌==◌, if◌then◌else◌, length, take, drop, ok, err, ok_or, ◌>>=◌,
}
use ombrac.Net.{
  Bytes, ErrorKind, connection_refused, network_unreachable, host_unreachable, timed_out,
  invalid_input, not_found, IoError, io_error, IoResult, SocketAddrV4, SocketAddrV6, SocketAddr, v4,
  v6,
}

abbrev pub protocol_version : ℕ
protocol_version = 0x01

abbrev pub max_domain_length : ℕ
max_domain_length = 255

pub data Address : Type 0 where
  socket_v4 : SocketAddrV4 → Address
  socket_v6 : SocketAddrV6 → Address
  domain : Bytes → ℕ → Address

pub record ClientHello : Type 0 where
  pub version : ℕ
  pub secret : Bytes
  pub options : Bytes

pub record ClientConnect : Type 0 where
  pub address : Address

-- `ServerAuthResponse::Ok` and `Err`.
pub data ServerAuthResponse : Type 0 where
  auth_ok auth_err : ServerAuthResponse

-- The fields of `UdpPacket::Fragmented`.
pub record Fragment : Type 0 where
  pub session_id : ℕ
  pub fragment_id : ℕ
  pub fragment_index : ℕ
  pub fragment_count : ℕ
  pub address : Option Address
  pub payload : Bytes

-- `unfragmented session_id address data`.
pub data UdpPacket : Type 0 where
  unfragmented : ℕ → Address → Bytes → UdpPacket
  fragmented : Fragment → UdpPacket

pub data ConnectErrorKind : Type 0 where
  refused net_unreachable unreachable timeout unspecified : ConnectErrorKind

-- `ServerConnectResponse::Ok` and `Err { kind, message }`.
pub data ServerConnectResponse : Type 0 where
  connect_ok : ServerConnectResponse
  connect_err : ConnectErrorKind → String → ServerConnectResponse

unfoldable pub fragmented_overhead : ℕ
fragmented_overhead =
    let fixed_overhead : ℕ = 1 + 8 + 4 + 2 + 2 in
    let max_address_overhead : ℕ = 1 + 2 + max_domain_length + 2 in
    fixed_overhead + max_address_overhead

-- `data.chunks(size)` of the standard library, on fuel: a chunk takes an octet at least, so the
-- length of the input is enough.
pub chunks_loop : ℕ → ℕ → Bytes → List Bytes
chunks_loop zero size xs = []
chunks_loop (suc fuel) size [] = []
chunks_loop (suc fuel) size (x ∷ xs) =
    take size (x ∷ xs) ∷ chunks_loop fuel size (drop size (x ∷ xs))

unfoldable pub chunks : ℕ → Bytes → List Bytes
unfolding chunks_loop
chunks size xs = chunks_loop (length xs) size xs

-- The closure that `split_packet` maps over the numbered chunks; `i as u16` wraps.
unfoldable pub make_fragment : ℕ → Address → ℕ → ℕ → ℕ → Bytes → UdpPacket
make_fragment session_id address fragment_id fragment_count i chunk =
    let fragment_index = i % 65536 in
    fragmented (record {
      session_id = session_id;
      fragment_id = fragment_id;
      fragment_index = fragment_index;
      fragment_count = fragment_count;
      address = if fragment_index == 0 then some address else none;
      payload = chunk;
    })

-- `into_iter().enumerate().map(f)`, counting from `i`.
abbrev pub enumerate_map {ℓ κ} : {A : Type ℓ} {B : Type κ} → (ℕ → A → B) → ℕ → List A → List B
enumerate_map f i [] = []
enumerate_map f i (x ∷ xs) = f i x ∷ enumerate_map f (i + 1) xs

-- `none` is a panic: of `chunks` at the size 0, or of the assertion on the count, which is the
-- number of chunks as a u16.
unfoldable pub split_packet : ℕ → Address → Bytes → ℕ → ℕ → Option (List UdpPacket)
split_packet session_id address payload max_payload_size fragment_id =
    let data_chunks = chunks max_payload_size payload in
    let fragment_count = length data_chunks % 65536 in
    if max_payload_size == 0
    then none
    else if ltb 0 fragment_count
    then some
        (enumerate_map (make_fragment session_id address fragment_id fragment_count) 0 data_chunks)
    else none

-- ConnectErrorKind::from_io_error
unfoldable pub from_io_error : IoError → ConnectErrorKind
from_io_error e = elim e.kind [
  | connection_refused ↦ refused
  | network_unreachable ↦ net_unreachable
  | host_unreachable ↦ unreachable
  | timed_out ↦ timeout
  | _ ↦ unspecified
]

-- `Address: From<SocketAddr>`
unfoldable pub from_socket_addr : SocketAddr → Address
from_socket_addr (v4 a) = socket_v4 a
from_socket_addr (v6 a) = socket_v6 a

-- Address::to_socket_addr. The UTF-8 test of the standard library and tokio's resolver are arguments.
unfoldable pub to_socket_addr :
    (Bytes → Bool) → (Bytes → ℕ → IoResult (List SocketAddr)) → Address → IoResult SocketAddr
to_socket_addr is_utf8 lookup_host (socket_v4 a) = ok (v4 a)
to_socket_addr is_utf8 lookup_host (socket_v6 a) = ok (v6 a)
to_socket_addr is_utf8 lookup_host (domain name port) =
    if is_utf8 name
    then (lookup_host name port >>= λ found. elim found [
      | [] ↦ err (io_error not_found "domain name '{}' could not be resolved")
      | a ∷ rest ↦ ok a
    ])
    else err (io_error invalid_input "domain name contains invalid utf-8 characters")

-- `str::rsplit_once`: the text before and after the last occurrence of an octet.
pub rsplit_once : ℕ → Bytes → Option (Bytes × Bytes)
rsplit_once sep [] = none
rsplit_once sep (x ∷ xs) = elim (rsplit_once sep xs) [
  | some (front, back) ↦ some (x ∷ front, back)
  | none ↦ if x == sep then some ([], xs) else none
]

pub is_digit : ℕ → Bool
is_digit c = leb 48 c && leb c 57

-- The digits of a u16, `none` for another character or a value that does not fit.
pub parse_digits : ℕ → Bytes → Option ℕ
unfolding is_digit
parse_digits acc [] = some acc
parse_digits acc (c ∷ cs) =
    let acc' = acc * 10 + (c - 48) in
    if is_digit c && ltb acc' 65536 then parse_digits acc' cs else none

-- `str::parse::<u16>`: a `+` may stand in front, and there is a digit at least.
pub parse_u16 : Bytes → Option ℕ
unfolding parse_digits
parse_u16 [] = none
parse_u16 (c ∷ []) = parse_digits 0 (c ∷ [])
parse_u16 (c ∷ d ∷ cs) = if c == 43 then parse_digits 0 (d ∷ cs) else parse_digits 0 (c ∷ d ∷ cs)

-- The last part of `try_from`, on what `rsplit_once(':')` and the port's `parse` gave.
pub domain_address : Bytes → Option ℕ → IoResult Address
domain_address name none = err (io_error invalid_input "invalid address format: {}")
domain_address name (some port) =
    if length name == 0
    then err (io_error invalid_input "domain name cannot be empty")
    else if ltb max_domain_length (length name)
    then err (io_error invalid_input "domain name is too long: {} bytes (max {})")
    else ok (domain name port)

pub split_address : Bytes → IoResult Address
unfolding rsplit_once parse_u16 domain_address
split_address value = elim (rsplit_once 58 value) [
  | some (name, port) ↦ domain_address name (parse_u16 port)
  | none ↦ err (io_error invalid_input "invalid address format: {}")
]

-- `Address: TryFrom<&str>`. The standard library's parser of socket addresses is an argument.
unfoldable pub try_from : (Bytes → Option SocketAddr) → Bytes → IoResult Address
unfolding split_address from_socket_addr
try_from parse_socket_addr value = elim (parse_socket_addr value) [
  | some a ↦ ok (from_socket_addr a)
  | none ↦ split_address value
]

-- A u16 in decimal digits, as the standard library prints it; five rounds are enough.
pub decimal_loop : ℕ → ℕ → Bytes → Bytes
decimal_loop zero n digits = digits
decimal_loop (suc fuel) n digits =
    let digits' = (48 + n % 10) ∷ digits in
    let rest = decimal_loop fuel (n / 10) digits' in if n / 10 == 0 then digits' else rest

pub decimal : ℕ → Bytes
unfolding decimal_loop
decimal n = decimal_loop 5 n []

-- `Address: Display`, the branch of a domain, whose octets are valid UTF-8.
unfoldable pub display_domain : Bytes → ℕ → Bytes
unfolding decimal
display_domain name port = name ++ (58 ∷ decimal port)
