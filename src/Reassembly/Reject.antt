-- ===== src/Reassembly/Reject.antt =====
-- Fragments that are refused, and what a call leaves alone (crates/ombrac/src/reassembly.rs).
use ombrac.Prelude.{
  ℕ, suc, ◌+◌, ◌%◌, ◌≤◌, ◌<◌, ◌≡◌, refl, ap, ◌≢◌, Bool, true, false, Option, none, some, List, [],
  ◌∷◌, length, inl, inr, zero, get_elem?, replicate, arith, if◌then◌else◌, ok, Bool-cases,
}
use ombrac.Net.{Bytes}
use ombrac.Cache.{Retains}
use ombrac.Protocol.{Address, Fragment, UdpPacket, unfragmented, fragmented, split_packet}
use ombrac.Protocol.Split.{Counted, split_packet-Counted}
use ombrac.Reassembly.{
  ReassemblyBuffer, Buffers, max_fragment_count, store_slot, store_fragment, check_address,
  add_checked, add_fragment, is_complete, process_buffer, process,
}
use ombrac.Reassembly.Invariant.{IsValid, received-le-length}
use ombrac.Reassembly.Pieces.{Sent}

abbrev one_if : Bool → ℕ
one_if b = if b then 1 else 0

store_slot-counter :
    (b : ReassemblyBuffer) (i : ℕ) (p : Bytes) (o : Option (Option Bytes))
    → b.received_count ≤ 256
    → (store_slot b i p o).0.received_count ≡ b.received_count + one_if (store_slot b i p o).1
unfolding store_slot
store_slot-counter b i p none h = omega arith
store_slot-counter b i p (some none) h = omega arith
store_slot-counter b i p (some (some q)) h = omega arith

store_fragment-counter :
    (b : ReassemblyBuffer) (f : Fragment)
    → b.received_count ≤ 256
    → (store_fragment b f).0.received_count ≡ b.received_count + one_if (store_fragment b f).1
unfolding store_fragment
store_fragment-counter b f h = store_slot-counter b f.fragment_index f.payload _ h

check_address-counter :
    (b : ReassemblyBuffer) (f : Fragment) (old given : Option Address)
    → b.received_count ≤ 256
    → (check_address b f old given).0.received_count
      ≡ b.received_count + one_if (check_address b f old given).1
unfolding check_address
check_address-counter b f none given h = store_fragment-counter (record b { address = given }) f h
check_address-counter b f (some a) (some a') h = ground (arith, store_fragment-counter b f h)
check_address-counter b f (some a) none h = omega arith

add_checked-counter :
    (b : ReassemblyBuffer) (f : Fragment)
    → b.received_count ≤ 256
    → (add_checked b f).0.received_count ≡ b.received_count + one_if (add_checked b f).1
unfolding add_checked
add_checked-counter b f h =
    ground (arith, store_fragment-counter b f h, check_address-counter b f b.address f.address h)

-- The counter of a valid buffer is stepped exactly by the packets that `add_fragment` takes: a
-- refused one (another kind of packet, a count of 0, above 256 or unlike the buffer's, another or a
-- missing destination, an occupied or missing slot) leaves it.
pub add_fragment-counter :
    (b : ReassemblyBuffer) (p : UdpPacket)
    → IsValid b
    → (add_fragment b p).0.received_count ≡ b.received_count + one_if (add_fragment b p).1
unfolding add_fragment
add_fragment-counter b (unfragmented s a d) v = omega arith
add_fragment-counter b (fragmented f) v =
    let small : b.received_count ≤ 256 =
      omega (arith, v.sized, v.counted, v.bounded, received-le-length b.fragments) in
    ground (
      arith,
      add_checked-counter b f small,
      add_checked-counter
          (record b { total_count = f.fragment_count; fragments = replicate f.fragment_count none })
          f small,
    )

Counted-Sent :
    (n : ℕ) (packets : List UdpPacket) (f : Fragment) (i : ℕ)
    → Counted n packets
    → get_elem? packets i ≡ some (fragmented f)
    → f.fragment_count ≡ n
Counted-Sent n [] f i k e = cc
Counted-Sent n (unfragmented s a d ∷ ps) f i k e = absurd k
Counted-Sent n (fragmented g ∷ ps) f zero k e = cc
Counted-Sent n (fragmented g ∷ ps) f (suc i) k e = Counted-Sent n ps f i k.1 e

oversized :
    (b : ReassemblyBuffer) (f : Fragment)
    → max_fragment_count < f.fragment_count
    → add_fragment b (fragmented f) ≡ (b, false)
unfolding add_fragment
oversized b f h = ground arith

-- A packet that was split into more than 256 fragments (and fewer than 65536) never arrives: each
-- of its fragments is refused by every buffer, and the call on it delivers nothing.
pub process-oversized :
    (c : Buffers) (s : c.State) (sid fid : ℕ) (addr : Address) (payload : Bytes) (size : ℕ)
    (packets : List UdpPacket) (f : Fragment)
    → split_packet sid addr payload size fid ≡ some packets
    → max_fragment_count < length packets
    → length packets < 65536
    → Sent packets (fragmented f)
    → ((b : ReassemblyBuffer) → add_fragment b (fragmented f) ≡ (b, false))
      × ((process c s (fragmented f)).1 ≡ ok none)
unfolding process process_buffer
process-oversized c s sid fid addr payload size packets f split over under (i, e) =
    (refused, rw refused)
  where
    count : f.fragment_count ≡ length packets % 65536
    count =
        Counted-Sent _ packets f i (split_packet-Counted sid addr payload size fid packets split) e

    refused : (b : ReassemblyBuffer) → add_fragment b (fragmented f) ≡ (b, false)
    refused b = oversized b f (omega (arith, count))

abbrev pub OtherKey : ℕ → ℕ → UdpPacket → Type 0
OtherKey sid fid (unfragmented s a d) = Unit
OtherKey sid fid (fragmented f) = ¬ ((sid ≡ f.session_id) × (fid ≡ f.fragment_id))

module _ (c : Buffers) (r : Retains c) where
  open c use {State, find}

  process_buffer-others :
      (s : State) (key j : ℕ × ℕ) (b : ReassemblyBuffer × Bool)
      → j ≢ key
      → find (process_buffer c s key b).0 j ≡ find s j
  unfolding process_buffer
  process_buffer-others s key j (b, false) ne = r.find-insert_ne s key j b ne
  process_buffer-others s key j (b, true) ne = elim (Bool-cases (is_complete b)) [
    | inl e ↦ rw e (r.find-invalidate_ne s key j ne)
    | inr e ↦ rw e (r.find-insert_ne s key j b ne)
  ]

  -- While the cache drops nothing, a packet touches no other packet's buffer: a fragment that has
  -- another session or another fragment id, and an unfragmented packet, leave the buffer as it is.
  pub process-others :
      (s : State) (p : UdpPacket) (sid fid : ℕ)
      → OtherKey sid fid p
      → find (process c s p).0 (sid, fid) ≡ find s (sid, fid)
  unfolding process
  process-others s (unfragmented s' a d) sid fid other = refl
  process-others s (fragmented f) sid fid other =
      process_buffer-others s _ (sid, fid) _ (λ e. other (ap (λ k. k.0) e, ap (λ k. k.1) e))
