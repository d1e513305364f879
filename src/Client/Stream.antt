-- ===== src/Client/Stream.antt =====
-- The opening of a tunnel stream (open_bidirectional in
-- crates/ombrac-client/src/connection/mod.rs): the exchange on it, and what it counts.
use ombrac.Prelude.{ℕ, Option, none, some, ◌+◌, ◌==◌, if◌then◌else◌, ok, err, ◌>>=◌, ◌>>◌}
use ombrac.Net.{
  Bytes, ErrorKind, connection_refused, network_unreachable, host_unreachable, timed_out,
  invalid_data, unexpected_eof, other, io_error, IoResult,
}
use ombrac.Metrics.{Counters}
use ombrac.Protocol.{
  Address, ClientConnect, ConnectErrorKind, refused, net_unreachable, unreachable, timeout,
  unspecified, ServerConnectResponse, connect_ok, connect_err,
}

-- The exchange on an opened stream: the message is sent, a frame comes back, and the codec keeps
-- `read_buf` of what was read behind it, and `write_buf` octets that were not sent.
pub record Exchange : Type 0 where
  pub encode_connect : ClientConnect → IoResult Bytes
  pub decode_response : Bytes → IoResult ServerConnectResponse
  pub send : Bytes → IoResult (Unit {0})
  pub next : Bytes → Option (IoResult Bytes)
  pub read_buf : Bytes
  pub write_buf : ℕ

-- The kind of the error for a refused connection, as `open_bidirectional` maps it.
unfoldable pub to_error_kind : ConnectErrorKind → ErrorKind
to_error_kind refused = connection_refused
to_error_kind net_unreachable = network_unreachable
to_error_kind unreachable = host_unreachable
to_error_kind timeout = timed_out
to_error_kind unspecified = other

-- The server's response, read off the frame.
unfoldable pub read_response : Exchange → Address → IoResult ServerConnectResponse
read_response x dest = do
  encoded ← x.encode_connect (record { address = dest })
  x.send encoded
  payload ← elim (x.next encoded) [
    | some (ok payload) ↦ ok payload
    | some (err e) ↦ err (io_error invalid_data "failed to read server response: {}")
    | none ↦ err (io_error unexpected_eof "stream closed before receiving server response")
  ]
  response ← x.decode_response payload
  if x.write_buf == 0
      then ok response
      else err (io_error other "write buffer not empty after send: {} bytes remaining")

-- The last part of `open_bidirectional`: the octets behind the response, for BufferedStream.
unfoldable pub finish_open : Counters → Bytes → ServerConnectResponse → Counters × IoResult Bytes
unfolding to_error_kind
finish_open c rest connect_ok = (record c { streams_opened = c.streams_opened + 1 }, ok rest)
finish_open c rest (connect_err kind message) = (
  record c { streams_failed = c.streams_failed + 1 },
  err (io_error (to_error_kind kind) message),
)

-- ClientConnection::open_bidirectional, behind `with_retry` on the stream: the counters it leaves,
-- and the octets that BufferedStream gives before those of the stream.
unfoldable pub open_bidirectional :
    Counters → IoResult Exchange → Address → Counters × IoResult Bytes
open_bidirectional c (err e) dest = (c, err e)
open_bidirectional c (ok x) dest = elim (read_response x dest) [
  | ok response ↦ finish_open c x.read_buf response
  | err e ↦ (c, err e)
]
