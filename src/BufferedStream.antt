-- ===== src/BufferedStream.antt =====
-- crates/ombrac-client/src/connection/stream.rs: a stream with octets in front of it, those that the
-- codec had read behind the server's answer. The stream itself is an argument.
pub mod Content
mod Examples
use ombrac.Prelude.{
  ℕ, List, [], ◌∷◌, ◌++◌, ◌+◌, min, ltb, leb, if◌then◌else◌, length, take, drop, ok, err,
}
use ombrac.Net.{Bytes, IoResult, Poll, ready, pending}

pub record BufferedStream (S : Type 0) : Type 0 where
  pub stream : S
  pub buffer : Bytes
  pub buffer_pos : ℕ

-- BufferedStream::new
abbrev pub new : {S : Type 0} → S → Bytes → BufferedStream S
new stream buffer = record { stream = stream; buffer = buffer; buffer_pos = 0 }

abbrev pub without_buffer : {S : Type 0} → S → BufferedStream S
without_buffer stream = new stream []

-- A buffer that was read to its end is dropped.
unfoldable pub release : {S : Type 0} → BufferedStream S → BufferedStream S
release s =
    if leb (length s.buffer) s.buffer_pos then record s { buffer = []; buffer_pos = 0 } else s

-- What a read of the stream itself leaves.
unfoldable pub pass_on :
    {S : Type 0}
    → BufferedStream S
    → S × Poll (IoResult Bytes)
    → BufferedStream S × Poll (IoResult Bytes)
pass_on s (stream', r) = (record s { stream = stream' }, r)

module _ {S : Type 0} (read_stream : S → ℕ → S × Poll (IoResult Bytes)) where
  -- poll_read into a buffer with room for `capacity` octets: what it puts there.
  unfoldable pub poll_read : BufferedStream S → ℕ → BufferedStream S × Poll (IoResult Bytes)
  poll_read s capacity =
      if ltb s.buffer_pos (length s.buffer)
      then (let remaining = drop s.buffer_pos s.buffer in
          let to_copy = min (length remaining) capacity in
          (
            release (record s { buffer_pos = s.buffer_pos + to_copy }),
            ready (ok (take to_copy remaining)),
          ))
      else pass_on s (read_stream s.stream capacity)

-- The octets that a read gave.
abbrev pub octets : Poll (IoResult Bytes) → Bytes
octets (ready (ok b)) = b
octets (ready (err e)) = []
octets pending = []

module _ {S : Type 0} (read_stream : S → ℕ → S × Poll (IoResult Bytes)) where
  -- Reads in turn, with room for this many octets each: what they gave in all.
  unfoldable pub read_all : BufferedStream S → List ℕ → BufferedStream S × Bytes
  read_all s [] = (s, [])
  read_all s (n ∷ ns) =
      let (s', r) = poll_read read_stream s n in
      let (s'', given) = read_all s' ns in (s'', octets r ++ given)

  -- The same of the stream itself.
  unfoldable pub read_inner : S → List ℕ → S × Bytes
  read_inner s [] = (s, [])
  read_inner s (n ∷ ns) =
      let (s', r) = read_stream s n in
      let (s'', given) = read_inner s' ns in (s'', octets r ++ given)
