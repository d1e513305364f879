-- ===== src/BufferPool/Examples.antt =====
-- Buffers of 1500 octets (crates/ombrac-netstack/src/buffer.rs), and the theorems at these inputs.
use ombrac.Prelude.{
  ℕ, ◌+◌, ◌≤◌, ◌≡◌, refl, [], ◌∷◌, leb, if◌then◌else◌, arith, true, Bool-cases, inl, inr,
}
use ombrac.BufferPool.{Buffer, BytesMut, BufferPool, new, pop_or, prepare, get}

-- A BytesMut that grows to exactly the room asked for.
exact_reserve : Buffer → ℕ → Buffer
exact_reserve b n = if leb (b.len + n) b.capacity then b else record b { capacity = b.len + n }

exact_reserve-room : (b : Buffer) (n : ℕ) → b.len + n ≤ (exact_reserve b n).capacity
unfolding exact_reserve
exact_reserve-room b n = elim (Bool-cases (leb (b.len + n) b.capacity)) [
  | inl e ↦ simp (e) (ground arith)
  | inr e ↦ simp (e) (omega arith)
]

exact_reserve-same : (b : Buffer) (n : ℕ) → b.len + n ≤ b.capacity → exact_reserve b n ≡ b
unfolding exact_reserve
exact_reserve-same b n h =
    let fits : leb (b.len + n) b.capacity ≡ true = ground arith in simp (fits) refl

abbrev test_bytes_mut : BytesMut
test_bytes_mut = record {
  reserve = exact_reserve;
  reserve-room = exact_reserve-room;
  reserve-same = exact_reserve-same;
}

abbrev test_buffer : Buffer
test_buffer = record { len = 0; capacity = 1500 }

abbrev test_pool : BufferPool
test_pool = record (new 1 1500) { pool = test_buffer ∷ [] }

-- 2000 octets are asked for, and a buffer of 1500 is handed out.
test_get : (get test_bytes_mut test_pool 2000).1.capacity ≡ 1500
unfolding get pop_or prepare exact_reserve
test_get = refl
