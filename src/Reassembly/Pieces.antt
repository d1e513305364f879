-- ===== src/Reassembly/Pieces.antt =====
-- The fragments that `split_packet` makes, as the reassembler meets them
-- (crates/ombrac/src/protocol.rs, crates/ombrac/src/reassembly.rs).
use ombrac.Prelude.{
  ℕ, zero, suc, ◌+◌, ◌%◌, ◌≤◌, ◌<◌, ◌≡◌, refl, ap, ◌∙◌, some, List, [], ◌∷◌, arith, length,
  get_elem?, get_elem?-lt,
}
use native.Mathlib.Nat.{add-zero}
use ombrac.Net.{Bytes}
use ombrac.Protocol.{
  Address, Fragment, UdpPacket, fragmented, chunks, make_fragment, enumerate_map, split_packet,
}
use ombrac.Protocol.Split.{split_packet-some, length-enumerate_map}
use ombrac.Reassembly.{max_fragment_count}
use ombrac.Reassembly.Consistent.{IsPiece}

-- `p` is one of the packets.
abbrev pub Sent : List UdpPacket → UdpPacket → Type 0
Sent packets p = (i : ℕ) × (get_elem? packets i ≡ some p)

pub fragmented-injective : {f g : Fragment} → fragmented f ≡ fragmented g → f ≡ g
fragmented-injective e = cc

enumerate-get_elem? {ℓ κ} :
    {A : Type ℓ} {B : Type κ} (f : ℕ → A → B) (j : ℕ) (xs : List A) (i : ℕ) (y : B)
    → get_elem? (enumerate_map f j xs) i ≡ some y
    → (x : A) × (get_elem? xs i ≡ some x) × (y ≡ f (j + i) x)
enumerate-get_elem? f j [] i y e = cc
enumerate-get_elem? f j (x ∷ xs) zero y e = (x, refl, ground (arith, ap (λ n. f n x) (add-zero j)))
enumerate-get_elem? f j (x ∷ xs) (suc i) y e =
    let (x', e', d) = enumerate-get_elem? f (j + 1) xs i y e in
    (x', e', d ∙ ap (λ n. f n x') (omega arith))

module _ (sid fid : ℕ) (addr : Address) (payload : Bytes) (size : ℕ) (packets : List UdpPacket)
    (split : split_packet sid addr payload size fid ≡ some packets)
    (small : length packets ≤ max_fragment_count) where
  pub length-packets : length packets ≡ length (chunks size payload)
  length-packets =
      ap length (split_packet-some sid addr payload size fid packets split).2
      ∙ length-enumerate_map _ 0 (chunks size payload)

  -- The packet with the index `i` is a fragment, and it is numbered so.
  pub packet-IsPiece :
      (i : ℕ) (p : UdpPacket)
      → get_elem? packets i ≡ some p
      → (f : Fragment) × (p ≡ fragmented f)
        × (f.fragment_index ≡ i)
        × IsPiece sid fid addr (chunks size payload) f
  unfolding make_fragment
  packet-IsPiece i p e =
      let (_, _, made) = split_packet-some sid addr payload size fid packets split in
      let (x, slot, q) = enumerate-get_elem? _ 0 (chunks size payload) i p (rw made at e) in
      let bound : i < length (chunks size payload) = get_elem?-lt (chunks size payload) i slot in
      let index : (0 + i) % 65536 ≡ i = omega (arith, length-packets) in
      (
        _,
        q,
        index,
        record {
          session = refl;
          fragment = refl;
          count = omega (arith, length-packets);
          small = omega (arith, length-packets);
          slot = rw index slot;
          first = refl;
        },
      )
