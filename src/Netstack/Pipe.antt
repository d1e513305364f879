-- ===== src/Netstack/Pipe.antt =====
-- A TCP stream of the network stack as two queues of octets
-- (crates/ombrac-netstack/src/tcp.rs).
use mathlib.Core.Path.{subst}
use ombrac.Prelude.{
  ℕ, zero, suc, Bool, true, false, List, [], ◌∷◌, ◌++◌, min, ◌||◌, length, take, take-append-drop,
  length-append, if◌then◌else◌, append-nil, append_assoc, Bool-cases, ◌≡◌, inl, inr, refl, sym, ap,
  ◌∙◌, arith, ok, err,
}
use ombrac.Net.{Bytes, IoResult, Poll, ready, pending}
use ombrac.Netstack.Stream.{
  is_full, vacant_len, Connection, read_buffered, poll_read, poll_write, TcpSocket,
  handle_socket_io, socket_io,
}
use ombrac.Netstack.Flow.{Flow, Fits, push_slice-Fits, to_read, written, Kept, handle_socket_io_lem}

-- What happens to a stream and its socket: the application reads or writes, the worker turns, or
-- octets come in from the peer.
pub data StreamOperation : Type 0 where
  read : ℕ → StreamOperation
  write : Bytes → StreamOperation
  turn : StreamOperation
  segment : Bytes → StreamOperation

-- With what the application has read, what it was told that it has written, and what came in.
pub record Pipe (S : Type 0) : Type 0 where
  pub socket : S
  pub connection : Connection
  pub delivered : Bytes
  pub accepted : Bytes
  pub arrived : Bytes

abbrev pub octets_read : Poll (IoResult Bytes) → Bytes
octets_read (ready (ok b)) = b
octets_read (ready (err e)) = []
octets_read pending = []

abbrev pub octets_written : Bytes → Poll (IoResult ℕ) → Bytes
octets_written slice (ready (ok n)) = take n slice
octets_written slice (ready (err e)) = []
octets_written slice pending = []

take-min : (v : ℕ) (xs : Bytes) → take (min v (length xs)) xs ≡ take v xs
take-min zero xs =
    let none_left : min 0 (length xs) ≡ 0 = omega arith in ap (λ k. take k xs) none_left
take-min (suc v) [] =
    let none_left : min (suc v) 0 ≡ 0 = omega arith in ap (λ k. take k []) none_left
take-min (suc v) (x ∷ xs) =
    let shift : min (suc v) (suc (length xs)) ≡ suc (min v (length xs)) = omega arith in
    ap (λ k. take k (x ∷ xs)) shift ∙ ap (λ r. x ∷ r) (take-min v xs)

module _ {S : Type 0} (t : TcpSocket S) (f : Flow t) where
  unfoldable pub operate : Pipe S → StreamOperation → Pipe S
  operate p (read room) =
      let (c', r) = poll_read p.connection room in
      record p { connection = c'; delivered = p.delivered ++ octets_read r }
  operate p (write slice) =
      let (c', r) = poll_write p.connection slice in
      record p { connection = c'; accepted = p.accepted ++ octets_written slice r }
  operate p turn =
      let (s', c') = socket_io t p.socket p.connection in record p { socket = s'; connection = c' }
  operate p (segment b) = record p { socket = f.arrive p.socket b; arrived = p.arrived ++ b }

  unfoldable pub run : Pipe S → List StreamOperation → Pipe S
  run p [] = p
  run p (o ∷ os) = run (operate p o) os

  -- What came in is what was read and then what is still to be read; what was written is what the
  -- socket was given and then what waits; the buffers stay within their capacities.
  abbrev pub IsPipe : Pipe S → Type 0
  IsPipe p =
      (p.delivered ++ to_read t f (p.socket, p.connection) ≡ p.arrived)
      × (written t f (p.socket, p.connection) ≡ p.accepted)
      × Fits p.connection.recv_buffer
      × Fits p.connection.send_buffer

  read_buffered_lem :
      (c : Connection) (room : ℕ) (b : Bytes)
      → c.recv_buffer.content ≡ b
      → (octets_read (read_buffered c room b).1 ++ (read_buffered c room b).0.recv_buffer.content
          ≡ c.recv_buffer.content)
        × ((read_buffered c room b).0.send_buffer ≡ c.send_buffer)
        × ((read_buffered c room b).0.recv_buffer.capacity ≡ c.recv_buffer.capacity)
  unfolding read_buffered
  read_buffered_lem c room [] e = elim (Bool-cases c.read_closed) [
    | inl k ↦ rw k (refl, refl, refl)
    | inr k ↦ rw k (refl, refl, refl)
  ]
  read_buffered_lem c room (x ∷ xs) e = (take-append-drop room (x ∷ xs) ∙ sym e, refl, refl)

  poll_write_lem :
      (c : Connection) (slice : Bytes)
      → ((poll_write c slice).0.send_buffer.content
          ≡ c.send_buffer.content ++ octets_written slice (poll_write c slice).1)
        × ((poll_write c slice).0.recv_buffer ≡ c.recv_buffer)
        × (Fits c.send_buffer → Fits (poll_write c slice).0.send_buffer)
  unfolding poll_write
  poll_write_lem c slice = elim (Bool-cases (c.socket_dropped || c.write_closed)) [
    | inl k ↦ rw k (sym (append-nil _), refl, λ h. h)
    | inr k ↦ elim (Bool-cases (is_full c.send_buffer)) [
      | inl e ↦ rw (k, e) (sym (append-nil _), refl, λ h. h)
      | inr e ↦
          rw (k, e)
            (
              ap (λ r. c.send_buffer.content ++ r)
                  (sym (take-min (vacant_len c.send_buffer) slice)),
              refl,
              λ h. push_slice-Fits c.send_buffer slice h,
            )
    ]
  ]

  read-IsPipe : (p : Pipe S) (room : ℕ) → IsPipe p → IsPipe (operate p (read room))
  unfolding operate poll_read
  read-IsPipe p room (a, b, fr, fs) =
      let c = p.connection in
      let o = octets_read (poll_read c room).1 in
      let left = (poll_read c room).0.recv_buffer.content in
      let inc = f.incoming p.socket in
      let (e, same, cap) = read_buffered_lem c room c.recv_buffer.content refl in
      let moved =
        append_assoc p.delivered o (left ++ inc)
        ∙ ap (λ r. p.delivered ++ r) (sym (append_assoc o left inc) ∙ ap (λ r. r ++ inc) e)
        ∙ a in
      (
        moved,
        ap (λ x. f.outgoing p.socket ++ x.content) same ∙ b,
        omega (arith, fr, length-append o left, ap length e, cap),
        subst Fits (sym same) fs,
      )

  write-IsPipe : (p : Pipe S) (slice : Bytes) → IsPipe p → IsPipe (operate p (write slice))
  unfolding operate
  write-IsPipe p slice (a, b, fr, fs) =
      let w = octets_written slice (poll_write p.connection slice).1 in
      let (e, same, fits) = poll_write_lem p.connection slice in
      (
        ap (λ x. p.delivered ++ (x.content ++ f.incoming p.socket)) same ∙ a,
        ap (λ r. f.outgoing p.socket ++ r) e
            ∙ sym (append_assoc (f.outgoing p.socket) p.connection.send_buffer.content w)
            ∙ ap (λ r. r ++ w) b,
        subst Fits (sym same) fr,
        fits fs,
      )

  if-Kept : (b : Bool) (x y : S × Connection) → Kept t f x y → Kept t f x (if b then x else y)
  if-Kept true x y k = (refl, refl, λ h. h, λ h. h)
  if-Kept false x y k = k

  socket_io-Kept : (s : S) (c : Connection) → Kept t f (s, c) (socket_io t s c)
  unfolding socket_io
  socket_io-Kept s c =
      if-Kept c.socket_dropped (s, c) (handle_socket_io t s c) (handle_socket_io_lem t f s c).0

  turn-IsPipe : (p : Pipe S) → IsPipe p → IsPipe (operate p turn)
  unfolding operate
  turn-IsPipe p (a, b, fr, fs) =
      let (r, w, kr, ks) = socket_io-Kept p.socket p.connection in
      (ap (λ x. p.delivered ++ x) r ∙ a, w ∙ b, kr fr, ks fs)

  segment-IsPipe : (p : Pipe S) (b : Bytes) → IsPipe p → IsPipe (operate p (segment b))
  unfolding operate
  segment-IsPipe p b (a, w, fr, fs) =
      let content = p.connection.recv_buffer.content in
      (
        ap (λ r. p.delivered ++ (content ++ r)) (f.incoming-arrive p.socket b)
            ∙ ap (λ r. p.delivered ++ r) (sym (append_assoc content (f.incoming p.socket) b))
            ∙ sym (append_assoc p.delivered (content ++ f.incoming p.socket) b)
            ∙ ap (λ r. r ++ b) a,
        ap (λ r. r ++ p.connection.send_buffer.content) (f.outgoing-arrive p.socket b) ∙ w,
        fr,
        fs,
      )

  operate-IsPipe : (p : Pipe S) (o : StreamOperation) → IsPipe p → IsPipe (operate p o)
  operate-IsPipe p (read room) = read-IsPipe p room
  operate-IsPipe p (write slice) = write-IsPipe p slice
  operate-IsPipe p turn = turn-IsPipe p
  operate-IsPipe p (segment b) = segment-IsPipe p b

  -- Nothing is lost, repeated or overtaken in either direction, and no buffer overflows, however the
  -- application reads and writes, the worker turns and octets come in: what came in is what the
  -- application has read, then what is buffered, then what the socket still has, and what the
  -- application has written is what the socket was given to send, then what is buffered.
  pub run-IsPipe : (p : Pipe S) (os : List StreamOperation) → IsPipe p → IsPipe (run p os)
  unfolding run
  run-IsPipe p [] h = h
  run-IsPipe p (o ∷ os) h = run-IsPipe (operate p o) os (operate-IsPipe p o h)
