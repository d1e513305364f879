-- ===== src/BufferPool.antt =====
-- crates/ombrac-netstack/src/buffer.rs: the pool of byte buffers. The bytes crate's BytesMut is an
-- interface with the documented law of `reserve`.
pub mod Capacity
mod Examples
use ombrac.Prelude.{
  ℕ, ◌+◌, ◌-◌, ◌≤◌, ◌≡◌, max, Bool, Option, none, some, List, [], ◌∷◌, ◌++◌, length, ltb,
  if◌then◌else◌,
}

-- A BytesMut: how many octets it holds, and for how many it has room.
pub record Buffer : Type 0 where
  pub len : ℕ
  pub capacity : ℕ

-- `BytesMut::reserve` makes room for that many octets behind those held; when there is room already,
-- it does nothing.
pub record BytesMut : Type 0 where
  pub reserve : Buffer → ℕ → Buffer
  pub reserve-room : (b : Buffer) (n : ℕ) → b.len + n ≤ (reserve b n).capacity
  pub reserve-same : (b : Buffer) (n : ℕ) → b.len + n ≤ b.capacity → reserve b n ≡ b

-- The queue, its oldest buffer first, and the two settings.
pub record BufferPool : Type 0 where
  pub pool : List Buffer
  pub max_pool_size : ℕ
  pub default_buffer_size : ℕ

abbrev pub new : ℕ → ℕ → BufferPool
new max_pool_size default_buffer_size = record {
  pool = [];
  max_pool_size = max_pool_size;
  default_buffer_size = default_buffer_size;
}

-- `pool.pop().unwrap_or_else(...)`
unfoldable pub pop_or : List Buffer → ℕ → List Buffer × Buffer
pop_or [] required = ([], record { len = 0; capacity = required })
pop_or (b ∷ rest) required = (rest, b)

module _ (m : BytesMut) where
  -- The test and the reservation of `get`, and `clear`.
  unfoldable pub prepare : ℕ → Buffer → Buffer
  prepare required b =
      let grown = if ltb b.capacity required then m.reserve b (required - b.capacity) else b in
      record grown { len = 0 }

  -- BufferPool::get
  unfoldable pub get : BufferPool → ℕ → BufferPool × Buffer
  get p capacity =
      let required_capacity = max capacity p.default_buffer_size in
      let (pool', b) = pop_or p.pool required_capacity in
      (record p { pool = pool' }, prepare required_capacity b)

-- BufferPool::release, which dropping a PooledBytesMut calls.
unfoldable pub release : BufferPool → Buffer → BufferPool
release p b =
    if ltb (length p.pool) p.max_pool_size then record p { pool = p.pool ++ (b ∷ []) } else p

-- What users of the pool do.
pub data Operation : Type 0 where
  take_buffer : ℕ → Operation
  give_buffer : Buffer → Operation

unfoldable pub run : BytesMut → BufferPool → List Operation → BufferPool
run m p [] = p
run m p (take_buffer capacity ∷ rest) = run m (get m p capacity).0 rest
run m p (give_buffer b ∷ rest) = run m (release p b) rest
