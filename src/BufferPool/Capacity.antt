-- ===== src/BufferPool/Capacity.antt =====
-- What the pool guarantees (crates/ombrac-netstack/src/buffer.rs).
use ombrac.Prelude.{
  ℕ, ◌+◌, ◌-◌, ◌≤◌, ◌<◌, ◌≡◌, max, List, [], ◌∷◌, length, length-append, ltb, arith, true,
  Bool-cases, inl, inr,
}
use ombrac.BufferPool.{
  Buffer, BytesMut, BufferPool, pop_or, prepare, get, release, Operation, take_buffer, give_buffer,
  run,
}

abbrev pub Bounded : BufferPool → Type 0
Bounded p = length p.pool ≤ p.max_pool_size

pop_or-length : (l : List Buffer) (required : ℕ) → length (pop_or l required).0 ≤ length l
unfolding pop_or
pop_or-length [] required = omega arith
pop_or-length (b ∷ rest) required = omega arith

get-Bounded :
    (m : BytesMut) (p : BufferPool) (capacity : ℕ) → Bounded p → Bounded (get m p capacity).0
unfolding get
get-Bounded m p capacity h =
    omega (arith, pop_or-length p.pool (max capacity p.default_buffer_size), h)

release-Bounded : (p : BufferPool) (b : Buffer) → Bounded p → Bounded (release p b)
unfolding release
release-Bounded p b h = elim (Bool-cases (ltb (length p.pool) p.max_pool_size)) [
  | inl e ↦ rw e (ground (arith, length-append p.pool (b ∷ [])))
  | inr e ↦ rw e h
]

-- The pool never holds more buffers than its maximum, whatever is taken from it and given back, one
-- operation after the other.
pub run-Bounded :
    (m : BytesMut) (p : BufferPool) (l : List Operation) → Bounded p → Bounded (run m p l)
unfolding run
run-Bounded m p [] h = h
run-Bounded m p (take_buffer n ∷ rest) h = run-Bounded m (get m p n).0 rest (get-Bounded m p n h)
run-Bounded m p (give_buffer b ∷ rest) h = run-Bounded m (release p b) rest (release-Bounded p b h)

prepare-short :
    (m : BytesMut) (required : ℕ) (b : Buffer)
    → b.capacity < required
    → b.len + (required - b.capacity) ≤ b.capacity
    → (prepare m required b).capacity < required
unfolding prepare
prepare-short m required b lt room =
    let below : ltb b.capacity required ≡ true = ground arith in
    let same = m.reserve-same b (required - b.capacity) room in simp (below, same) lt

-- A buffer from the pool whose free room is at least what it lacks is handed out as it is: its
-- capacity is below the one asked for.
pub get-short :
    (m : BytesMut) (p : BufferPool) (b : Buffer) (rest : List Buffer) (capacity : ℕ)
    → p.pool ≡ b ∷ rest
    → b.capacity < max capacity p.default_buffer_size
    → b.len + (max capacity p.default_buffer_size - b.capacity) ≤ b.capacity
    → (get m p capacity).1.capacity < max capacity p.default_buffer_size
unfolding get pop_or
get-short m p b rest capacity e lt room =
    rw e (prepare-short m (max capacity p.default_buffer_size) b lt room)
