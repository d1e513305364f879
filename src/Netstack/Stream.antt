-- ===== src/Netstack/Stream.antt =====
-- crates/ombrac-netstack/src/tcp.rs: a TCP stream of the network stack, and what its worker does with
-- the socket behind it. smoltcp's socket is an interface; a ring buffer is a bounded queue of octets.
use ombrac.Prelude.{
  ℕ, zero, suc, Bool, true, false, not, Option, none, some, [], ◌∷◌, ◌++◌, ◌-◌, min, ◌&&◌, ◌||◌,
  ◌==◌, leb, if◌then◌else◌, length, take, drop, ok, err,
}
use ombrac.Net.{Bytes, broken_pipe, io_error, IoResult, Poll, ready, pending}

-- ringbuf's HeapRb.
pub record RingBuffer : Type 0 where
  pub content : Bytes
  pub capacity : ℕ

abbrev pub is_empty : Bytes → Bool
is_empty [] = true
is_empty (x ∷ xs) = false

abbrev pub is_full : RingBuffer → Bool
is_full b = leb b.capacity (length b.content)

abbrev pub vacant_len : RingBuffer → ℕ
vacant_len b = b.capacity - length b.content

-- push_slice puts in what there is room for.
abbrev pub push_slice : RingBuffer → Bytes → RingBuffer
push_slice b slice = record b { content = b.content ++ take (vacant_len b) slice }

-- What a TcpStream and its SocketIOHandle share. A waker is true while a task waits for it.
pub record Connection : Type 0 where
  pub recv_buffer : RingBuffer
  pub send_buffer : RingBuffer
  pub recv_waker : Bool
  pub send_waker : Bool
  pub read_closed : Bool
  pub write_closed : Bool
  pub socket_dropped : Bool

-- The buffers and the SharedState of a new stream.
abbrev pub new_connection : ℕ → ℕ → Connection
new_connection recv_size send_size = record {
  recv_buffer = record { content = []; capacity = recv_size };
  send_buffer = record { content = []; capacity = send_size };
  recv_waker = false;
  send_waker = false;
  read_closed = false;
  write_closed = false;
  socket_dropped = false;
}

-- TcpStream::poll_read with room for this many octets: those that it reads.
unfoldable pub read_buffered : Connection → ℕ → Bytes → Connection × Poll (IoResult Bytes)
read_buffered c room [] =
    if c.read_closed then (c, ready (ok [])) else (record c { recv_waker = true }, pending)
read_buffered c room (b ∷ rest) = (
  record c { recv_buffer = record c.recv_buffer { content = drop room (b ∷ rest) } },
  ready (ok (take room (b ∷ rest))),
)

unfoldable pub poll_read : Connection → ℕ → Connection × Poll (IoResult Bytes)
poll_read c room = read_buffered c room c.recv_buffer.content

-- TcpStream::poll_write: how many octets it has taken.
unfoldable pub poll_write : Connection → Bytes → Connection × Poll (IoResult ℕ)
poll_write c slice =
    if c.socket_dropped || c.write_closed
    then (c, ready (err (io_error broken_pipe "Socket is closing")))
    else if is_full c.send_buffer
    then (record c { send_waker = true }, pending)
    else (
      record c { send_buffer = push_slice c.send_buffer slice },
      ready (ok (min (vacant_len c.send_buffer) (length slice))),
    )

unfoldable pub poll_flush : Connection → Connection × Poll (IoResult (Unit {0}))
poll_flush c =
    if is_empty c.send_buffer.content
    then (c, ready (ok tt))
    else (record c { send_waker = true }, pending)

-- TcpStream::poll_shutdown
unfoldable pub poll_shutdown : Connection → Connection × Poll (IoResult (Unit {0}))
poll_shutdown c =
    if is_empty c.send_buffer.content
    then (record c { write_closed = true }, ready (ok tt))
    else (record c { send_waker = true }, pending)

-- `Drop for TcpStream`
unfoldable pub drop_stream : Connection → Connection
drop_stream c = record c { socket_dropped = true }

-- smoltcp's socket: `recv_slice` is what `recv` gives to its closure, or its error; `dequeue` is how
-- many of these octets the closure took. `send_room` is the room that `send` gives, and `enqueue`
-- what was put there.
pub record TcpSocket (S : Type 0) : Type 0 where
  pub can_recv : S → Bool
  pub recv_slice : S → IoResult Bytes
  pub dequeue : S → ℕ → S
  pub can_send : S → Bool
  pub send_room : S → ℕ
  pub enqueue : S → Bytes → S
  pub is_open : S → Bool
  pub is_active : S → Bool
  pub close : S → S

module _ {S : Type 0} (t : TcpSocket S) where
  -- The first part of handle_socket_io: what came in goes to the receive buffer, whose reader is woken
  -- when there was something.
  unfoldable pub recv_result : S → Connection → IoResult Bytes → S × Connection
  recv_result s c (err e) = (s, record c { read_closed = true; recv_waker = false })
  recv_result s c (ok slice) = (
    t.dequeue s (min (vacant_len c.recv_buffer) (length slice)),
    record c {
      recv_buffer = push_slice c.recv_buffer slice;
      recv_waker = if is_empty slice then c.recv_waker else false;
    },
  )

  unfoldable pub handle_recv : S → Connection → S × Connection
  handle_recv s c = if t.can_recv s then recv_result s c (t.recv_slice s) else (s, c)

  -- A socket that is not open has nothing more to read.
  unfoldable pub close_read : S × Connection → S × Connection
  close_read (s, c) =
      if not (t.is_open s) && not c.read_closed
      then (s, record c { read_closed = true; recv_waker = false })
      else (s, c)

  -- The loop that sends, for as many rounds as there are octets: each round takes one at least, or is
  -- the last one.
  unfoldable pub send_rounds : ℕ → S → Connection → S × Connection
  send_rounds zero s c = (s, c)
  send_rounds (suc fuel) s c =
      let room = t.send_room s in
      let further = send_rounds fuel (t.enqueue s (take room c.send_buffer.content)) (record c {
        send_buffer = record c.send_buffer { content = drop room c.send_buffer.content };
        send_waker = false;
      }) in
      if t.can_send s && not (is_empty c.send_buffer.content) && not (room == 0)
      then further
      else (s, c)

  unfoldable pub handle_send : S × Connection → S × Connection
  handle_send (s, c) = send_rounds (length c.send_buffer.content) s c

  -- handle_socket_io, without the two counts that it returns.
  unfoldable pub handle_socket_io : S → Connection → S × Connection
  handle_socket_io s c = handle_send (close_read (handle_recv s c))

  -- accept_loop skips a socket whose stream was dropped.
  unfoldable pub socket_io : S → Connection → S × Connection
  socket_io s c = if c.socket_dropped then (s, c) else handle_socket_io s c

  -- prune_sockets on one socket: what is left of it.
  unfoldable pub keep_active : S → Option S
  keep_active s = if t.is_active s then some s else none

  unfoldable pub prune_socket : S → Connection → Option S
  prune_socket s c =
      if c.socket_dropped
      then none
      else keep_active (if c.write_closed && is_empty c.send_buffer.content then t.close s else s)
