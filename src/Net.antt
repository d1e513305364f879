-- ===== src/Net.antt =====
-- The types of Rust's standard library that the repository's code passes around: socket addresses
-- (std::net) and errors (std::io). An octet, a port and a count are plain numbers; byte strings
-- (bytes::Bytes, Vec<u8>) are lists of octets.
use ombrac.Prelude.{ℕ, String, List, ◌<◌, Result, length, All, ◌≡◌}

abbrev pub Bytes : Type 0
Bytes = List ℕ

abbrev pub IsByte : ℕ → Type 0
IsByte b = b < 256

abbrev pub IsU16 : ℕ → Type 0
IsU16 n = n < 65536

-- std::io::ErrorKind, as far as the repository names its members.
pub data ErrorKind : Type 0 where
  connection_refused network_unreachable host_unreachable timed_out permission_denied not_found
        invalid_input invalid_data unexpected_eof connection_reset connection_aborted not_connected
        broken_pipe interrupted network_down unsupported would_block other :
      ErrorKind

-- std::io::Error. A text that the code formats keeps its format string.
pub record IoError : Type 0 where
  pub kind : ErrorKind
  pub message : String

abbrev pub io_error : ErrorKind → String → IoError
io_error k m = record { kind = k; message = m }

abbrev pub IoResult : Type 0 → Type 0
IoResult A = Result A IoError

-- An IPv4 address has four octets, an IPv6 address sixteen (`IsV4`, `IsV6`).
pub record SocketAddrV4 : Type 0 where
  pub ip : Bytes
  pub port : ℕ

pub record SocketAddrV6 : Type 0 where
  pub ip : Bytes
  pub port : ℕ
  pub flowinfo : ℕ
  pub scope_id : ℕ

pub data SocketAddr : Type 0 where
  v4 : SocketAddrV4 → SocketAddr
  v6 : SocketAddrV6 → SocketAddr

pub data IpAddr : Type 0 where
  ip_v4 : Bytes → IpAddr
  ip_v6 : Bytes → IpAddr

abbrev pub IsV4 : SocketAddrV4 → Type 0
IsV4 a = (length a.ip ≡ 4) × All IsByte a.ip × IsU16 a.port

abbrev pub IsV6 : SocketAddrV6 → Type 0
IsV6 a = (length a.ip ≡ 16) × All IsByte a.ip × IsU16 a.port

-- SocketAddr::new
abbrev pub socket_addr : IpAddr → ℕ → SocketAddr
socket_addr (ip_v4 o) p = v4 (record { ip = o; port = p })
socket_addr (ip_v6 o) p = v6 (record { ip = o; port = p; flowinfo = 0; scope_id = 0 })

-- SocketAddr::port
abbrev pub port_of : SocketAddr → ℕ
port_of (v4 a) = a.port
port_of (v6 a) = a.port

-- std::task::Poll
pub data Poll {ℓ} (A : Type ℓ) : Type ℓ where
  ready : A → Poll A
  pending : Poll A
