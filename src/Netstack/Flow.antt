-- ===== src/Netstack/Flow.antt =====
-- What flows through a stream of the network stack
-- (crates/ombrac-netstack/src/tcp.rs).
use ombrac.Prelude.{
  ℕ, zero, suc, Bool, true, false, not, [], ◌∷◌, ◌++◌, ◌≤◌, min, ◌&&◌, ◌==◌, length, take, drop,
  take-append-drop, length-take, length-append, length-drop, append_assoc, Bool-cases, ◌≡◌, inl,
  inr, refl, sym, ap, ◌∙◌, arith, ok, err,
}
use ombrac.Net.{Bytes, IoResult}
use ombrac.Netstack.Stream.{
  RingBuffer, is_empty, vacant_len, push_slice, Connection, TcpSocket, recv_result, handle_recv,
  close_read, send_rounds, handle_send, handle_socket_io,
}

-- What the code relies on of a socket: the octets that came in and were not taken, of which `recv`
-- gives the first, and the octets that it was given to send. `arrive` is the coming in of more.
pub record Flow {S : Type 0} (t : TcpSocket S) : Type 0 where
  pub incoming : S → Bytes
  pub outgoing : S → Bytes
  pub recv_slice-incoming :
      (s : S) (slice : Bytes)
      → t.recv_slice s ≡ ok slice
      → (rest : Bytes) × (incoming s ≡ slice ++ rest)
  pub incoming-dequeue : (s : S) (n : ℕ) → incoming (t.dequeue s n) ≡ drop n (incoming s)
  pub outgoing-dequeue : (s : S) (n : ℕ) → outgoing (t.dequeue s n) ≡ outgoing s
  pub incoming-enqueue : (s : S) (b : Bytes) → incoming (t.enqueue s b) ≡ incoming s
  pub arrive : S → Bytes → S
  pub incoming-arrive : (s : S) (b : Bytes) → incoming (arrive s b) ≡ incoming s ++ b
  pub outgoing-arrive : (s : S) (b : Bytes) → outgoing (arrive s b) ≡ outgoing s
  pub outgoing-enqueue : (s : S) (b : Bytes) → outgoing (t.enqueue s b) ≡ outgoing s ++ b

take-drop_within :
    (v : ℕ) (xs ys : Bytes) → take v xs ++ drop (min v (length xs)) (xs ++ ys) ≡ xs ++ ys
take-drop_within zero xs ys =
    let none_left : min 0 (length xs) ≡ 0 = omega arith in ap (λ k. drop k (xs ++ ys)) none_left
take-drop_within (suc v) [] ys =
    let none_left : min (suc v) 0 ≡ 0 = omega arith in ap (λ k. drop k ys) none_left
take-drop_within (suc v) (x ∷ xs) ys =
    let shift : min (suc v) (suc (length xs)) ≡ suc (min v (length xs)) = omega arith in
    ap (λ r. x ∷ r) (ap (λ k. take v xs ++ drop k (x ∷ xs ++ ys)) shift ∙ take-drop_within v xs ys)

-- The receive buffer stays within its capacity.
abbrev pub Fits : RingBuffer → Type 0
Fits b = length b.content ≤ b.capacity

pub push_slice-Fits : (b : RingBuffer) (slice : Bytes) → Fits b → Fits (push_slice b slice)
push_slice-Fits b slice h = omega (
  arith,
  h,
  length-append b.content (take (vacant_len b) slice),
  length-take (vacant_len b) slice,
)

is_empty-true : (b : Bytes) → is_empty b ≡ true → b ≡ []
is_empty-true [] e = refl
is_empty-true (x ∷ xs) e = absurd (cc (e))

and-stop : (a e r : Bool) → e ≡ true → (a && not e && not r) ≡ false
and-stop true true r h = refl
and-stop false true r h = refl
and-stop a false r h = absurd (cc (h))

and-go : (a e r : Bool) → (a && not e && not r) ≡ true → (e ≡ false) × (r ≡ false)
and-go true false false h = (refl, refl)
and-go true false true h = absurd (cc (h))
and-go true true r h = absurd (cc (h))
and-go false false r h = absurd (cc (h))
and-go false true r h = absurd (cc (h))

length-zero : (b : Bytes) → length b ≤ 0 → b ≡ []
length-zero [] h = refl
length-zero (x ∷ xs) h = absurd (omega arith)

module _ {S : Type 0} (t : TcpSocket S) (f : Flow t) where
  -- What was received and not read yet, and what was written.
  abbrev pub to_read : S × Connection → Bytes
  to_read (s, c) = c.recv_buffer.content ++ f.incoming s

  abbrev pub written : S × Connection → Bytes
  written (s, c) = f.outgoing s ++ c.send_buffer.content

  -- Both are kept, and the buffers stay within their capacities.
  abbrev pub Kept : S × Connection → S × Connection → Type 0
  Kept (s, c) (s', c') =
      (to_read (s', c') ≡ to_read (s, c))
      × (written (s', c') ≡ written (s, c))
      × (Fits c.recv_buffer → Fits c'.recv_buffer)
      × (Fits c.send_buffer → Fits c'.send_buffer)

  Kept-trans : (x y z : S × Connection) → Kept x y → Kept y z → Kept x z
  Kept-trans x y z (a, b, p, q) (a', b', p', q') = (a' ∙ a, b' ∙ b, λ h. p' (p h), λ h. q' (q h))

  recv_result-Kept :
      (s : S) (c : Connection) (r : IoResult Bytes)
      → t.recv_slice s ≡ r
      → Kept (s, c) (recv_result t s c r)
  unfolding recv_result
  recv_result-Kept s c (err e) k = (refl, refl, λ h. h, λ h. h)
  recv_result-Kept s c (ok slice) k =
      let (rest, whole) = f.recv_slice-incoming s slice k in
      let v = vacant_len c.recv_buffer in
      let moved =
        append_assoc c.recv_buffer.content (take v slice) _
        ∙ ap (λ r. c.recv_buffer.content ++ (take v slice ++ r))
            (f.incoming-dequeue s (min v (length slice))
              ∙ ap (λ r. drop (min v (length slice)) r) whole)
        ∙ ap (λ r. c.recv_buffer.content ++ r) (take-drop_within v slice rest ∙ sym whole) in
      (
        moved,
        ap (λ r. r ++ c.send_buffer.content) (f.outgoing-dequeue s _),
        λ h. push_slice-Fits c.recv_buffer slice h,
        λ h. h,
      )

  handle_recv-Kept : (s : S) (c : Connection) → Kept (s, c) (handle_recv t s c)
  unfolding handle_recv
  handle_recv-Kept s c = elim (Bool-cases (t.can_recv s)) [
    | inl e ↦ rw e (recv_result-Kept s c (t.recv_slice s) refl)
    | inr e ↦ rw e (refl, refl, λ h. h, λ h. h)
  ]

  close_read-Kept : (x : S × Connection) → Kept x (close_read t x)
  unfolding close_read
  close_read-Kept (s, c) = elim (Bool-cases (not (t.is_open s) && not c.read_closed)) [
    | inl e ↦ rw e (refl, refl, λ h. h, λ h. h)
    | inr e ↦ rw e (refl, refl, λ h. h, λ h. h)
  ]

  -- One round of sending.
  abbrev sent_round : S → Connection → S × Connection
  sent_round s c = (
    t.enqueue s (take (t.send_room s) c.send_buffer.content),
    record c {
      send_buffer = record c.send_buffer { content = drop (t.send_room s) c.send_buffer.content };
      send_waker = false;
    },
  )

  sent_round-Kept : (s : S) (c : Connection) → Kept (s, c) (sent_round s c)
  sent_round-Kept s c =
      let n = t.send_room s in
      let b = c.send_buffer.content in
      (
        ap (λ r. c.recv_buffer.content ++ r) (f.incoming-enqueue s (take n b)),
        ap (λ r. r ++ drop n b) (f.outgoing-enqueue s (take n b))
            ∙ append_assoc (f.outgoing s) (take n b) (drop n b)
            ∙ ap (λ r. f.outgoing s ++ r) (take-append-drop n b),
        λ h. h,
        λ h. omega (arith, h, length-drop n b),
      )

  -- The loop has ended: there is nothing to send, or the socket takes nothing more.
  abbrev pub Finished : S × Connection → Type 0
  Finished (s, c) =
      (t.can_send s && not (is_empty c.send_buffer.content) && not (t.send_room s == 0)) ≡ false

  Finished-empty : (s : S) (c : Connection) → c.send_buffer.content ≡ [] → Finished (s, c)
  Finished-empty s c e =
      and-stop (t.can_send s) (is_empty c.send_buffer.content) (t.send_room s == 0) (ap is_empty e)

  send_rounds_lem :
      (fuel : ℕ) (s : S) (c : Connection)
      → length c.send_buffer.content ≤ fuel
      → Kept (s, c) (send_rounds t fuel s c) × Finished (send_rounds t fuel s c)
  unfolding send_rounds
  send_rounds_lem zero s c le =
      ((refl, refl, λ h. h, λ h. h), Finished-empty s c (length-zero c.send_buffer.content le))
  send_rounds_lem (suc fuel) s c le =
      elim (Bool-cases
        (t.can_send s && not (is_empty c.send_buffer.content) && not (t.send_room s == 0))) [
          | inl e ↦
              let room =
                (and-go (t.can_send s) (is_empty c.send_buffer.content) (t.send_room s == 0) e).1 in
              let (s', c') = sent_round s c in
              let shorter : length c'.send_buffer.content ≤ fuel =
                ground (arith, le, room, length-drop (t.send_room s) c.send_buffer.content) in
              let (kept, done) = send_rounds_lem fuel s' c' shorter in
              rw e (
                Kept-trans (s, c) (s', c') (send_rounds t fuel s' c') (sent_round-Kept s c) kept,
                done,
              )
          | inr e ↦ rw e ((refl, refl, λ h. h, λ h. h), e)
        ]

  pub handle_socket_io_lem :
      (s : S) (c : Connection)
      → Kept (s, c) (handle_socket_io t s c) × Finished (handle_socket_io t s c)
  unfolding handle_socket_io handle_send
  handle_socket_io_lem s c =
      let x = close_read t (handle_recv t s c) in
      let (kept, done) = send_rounds_lem (length x.1.send_buffer.content) x.0 x.1 (omega arith) in
      let before =
        Kept-trans (s, c) (handle_recv t s c) x (handle_recv-Kept s c)
          (close_read-Kept (handle_recv t s c)) in
      (Kept-trans (s, c) x (handle_socket_io t s c) before kept, done)
