-- ===== src/Protocol/Split.antt =====
-- The fragments that `UdpPacket::split_packet` makes (crates/ombrac/src/protocol.rs).
use ombrac.Prelude.{
  ℕ, zero, suc, ◌+◌, ◌*◌, ◌%◌, ◌≤◌, ◌<◌, ◌≡◌, refl, ap, ◌∙◌, none, some, List, [], ◌∷◌, ◌++◌, arith,
  lt_of_mul-lt-mul, length, take, drop, length-take, length-drop, take-append-drop, concat, All,
  ◌==◌, if◌then◌else◌,
}
use mathlib.Core.Path.{subst}
use ombrac.Net.{Bytes}
use ombrac.Protocol.{
  Address, UdpPacket, unfragmented, fragmented, chunks_loop, chunks, make_fragment, enumerate_map,
  split_packet,
}

-- A chunk holds an octet at least, and `size` at most.
abbrev pub IsChunk : ℕ → Bytes → Type 0
IsChunk size c = (0 < length c) × (length c ≤ size)

chunks_loop-concat :
    (fuel size : ℕ) (xs : Bytes)
    → 0 < size
    → length xs ≤ fuel
    → concat (chunks_loop fuel size xs) ≡ xs
unfolding chunks_loop
chunks_loop-concat zero size [] h k = refl
chunks_loop-concat zero size (x ∷ xs) h k = absurd (omega arith)
chunks_loop-concat (suc fuel) size [] h k = refl
chunks_loop-concat (suc fuel) size (x ∷ xs) h k =
    ap (◌++◌ (take size (x ∷ xs))) (
      chunks_loop-concat fuel size (drop size (x ∷ xs)) h
        (omega (arith, length-drop size (x ∷ xs))))
    ∙ take-append-drop size (x ∷ xs)

chunks_loop-IsChunk :
    (fuel size : ℕ) (xs : Bytes) → 0 < size → All (IsChunk size) (chunks_loop fuel size xs)
unfolding chunks_loop
chunks_loop-IsChunk zero size xs h = tt
chunks_loop-IsChunk (suc fuel) size [] h = tt
chunks_loop-IsChunk (suc fuel) size (x ∷ xs) h = (
  (omega (arith, length-take size (x ∷ xs)), omega (arith, length-take size (x ∷ xs))),
  chunks_loop-IsChunk fuel size (drop size (x ∷ xs)) h,
)

-- The number of chunks is the length divided by the size, rounded up.
chunks_loop-count :
    (fuel size : ℕ) (xs : Bytes)
    → 0 < size
    → length xs ≤ fuel
    → (length xs ≤ size * length (chunks_loop fuel size xs))
      × (size * length (chunks_loop fuel size xs) < length xs + size)
unfolding chunks_loop
chunks_loop-count zero size [] h k = omega arith
chunks_loop-count zero size (x ∷ xs) h k = absurd (omega arith)
chunks_loop-count (suc fuel) size [] h k = omega arith
chunks_loop-count (suc fuel) size (x ∷ xs) h k = grind (
  arith,
  length-drop size (x ∷ xs),
  chunks_loop-count fuel size (drop size (x ∷ xs)) h (omega (arith, length-drop size (x ∷ xs))),
)

pub chunks-concat : (size : ℕ) (xs : Bytes) → 0 < size → concat (chunks size xs) ≡ xs
unfolding chunks
chunks-concat size xs h = chunks_loop-concat (length xs) size xs h (omega arith)

pub chunks-IsChunk : (size : ℕ) (xs : Bytes) → 0 < size → All (IsChunk size) (chunks size xs)
unfolding chunks
chunks-IsChunk size xs h = chunks_loop-IsChunk (length xs) size xs h

pub chunks-count :
    (size : ℕ) (xs : Bytes)
    → 0 < size
    → (length xs ≤ size * length (chunks size xs))
      × (size * length (chunks size xs) < length xs + size)
unfolding chunks
chunks-count size xs h = chunks_loop-count (length xs) size xs h (omega arith)

abbrev pub payloads : List UdpPacket → Bytes
payloads [] = []
payloads (unfragmented s a d ∷ ps) = d ++ payloads ps
payloads (fragmented f ∷ ps) = f.payload ++ payloads ps

-- The packets are fragments of one packet of `n`, numbered from `i` on; the one numbered 0 alone
-- names the destination.
abbrev pub Numbered : ℕ → Address → ℕ → ℕ → ℕ → ℕ → List UdpPacket → Type 0
Numbered sid addr fid size n i [] = Unit
Numbered sid addr fid size n i (unfragmented s a d ∷ ps) = ⊥
Numbered sid addr fid size n i (fragmented f ∷ ps) =
    ((f.session_id ≡ sid)
      × (f.fragment_id ≡ fid)
      × (f.fragment_index ≡ i)
      × (f.fragment_count ≡ n)
      × (f.address ≡ (if i == 0 then some addr else none))
      × IsChunk size f.payload)
    × Numbered sid addr fid size n (i + 1) ps

enumerate-Numbered :
    (sid : ℕ) (addr : Address) (fid size n i : ℕ) (cs : List Bytes)
    → i + length cs < 65536
    → All (IsChunk size) cs
    → Numbered sid addr fid size n i (enumerate_map (make_fragment sid addr fid n) i cs)
unfolding make_fragment
enumerate-Numbered sid addr fid size n i [] h a = tt
enumerate-Numbered sid addr fid size n i (c ∷ cs) h (a, as') = (
  (refl, refl, omega arith, refl, ground arith, a),
  enumerate-Numbered sid addr fid size n (i + 1) cs (omega arith) as',
)

enumerate-payloads :
    (sid : ℕ) (addr : Address) (fid n i : ℕ) (cs : List Bytes)
    → payloads (enumerate_map (make_fragment sid addr fid n) i cs) ≡ concat cs
unfolding make_fragment
enumerate-payloads sid addr fid n i [] = refl
enumerate-payloads sid addr fid n i (c ∷ cs) =
    ap (◌++◌ c) (enumerate-payloads sid addr fid n (i + 1) cs)

pub length-enumerate_map {ℓ κ} :
    {A : Type ℓ} {B : Type κ} (f : ℕ → A → B) (i : ℕ) (xs : List A)
    → length (enumerate_map f i xs) ≡ length xs
length-enumerate_map f i [] = refl
length-enumerate_map f i (x ∷ xs) = ap suc (length-enumerate_map f (i + 1) xs)

pub split_packet-made :
    (sid : ℕ) (addr : Address) (payload : Bytes) (size fid : ℕ)
    → 0 < size
    → 0 < length (chunks size payload) % 65536
    → split_packet sid addr payload size fid
      ≡ some (
          enumerate_map
            (make_fragment sid addr fid (length (chunks size payload) % 65536))
            0
            (chunks size payload))
unfolding split_packet
split_packet-made sid addr payload size fid pos h = ground arith

-- A successful split made this list.
pub split_packet-some :
    (sid : ℕ) (addr : Address) (payload : Bytes) (size fid : ℕ) (packets : List UdpPacket)
    → split_packet sid addr payload size fid ≡ some packets
    → (0 < size)
      × (0 < length (chunks size payload) % 65536)
      × (packets
          ≡ enumerate_map
              (make_fragment sid addr fid (length (chunks size payload) % 65536))
              0
              (chunks size payload))
unfolding split_packet
split_packet-some sid addr payload size fid packets e = ground arith

-- A split into at most 65535 packets yields fragments numbered from 0, of one session and fragment
-- id, each with the number of the packets as its count and with 1 to `size` octets; the first alone
-- names the destination, and the payloads in order are the data.
pub split_packet-Numbered :
    (sid : ℕ) (addr : Address) (payload : Bytes) (size fid : ℕ) (packets : List UdpPacket)
    → split_packet sid addr payload size fid ≡ some packets
    → length packets < 65536
    → Numbered sid addr fid size (length packets) 0 packets × (payloads packets ≡ payload)
split_packet-Numbered sid addr payload size fid packets e h =
    let (pos, _, made) = split_packet-some sid addr payload size fid packets e in
    let cs : List Bytes = chunks size payload in
    let count : length packets ≡ length cs = ap length made ∙ length-enumerate_map _ 0 cs in
    let whole : length cs % 65536 ≡ length packets = omega arith in
    (
      rw made (
          rw (length-enumerate_map (make_fragment sid addr fid (length cs % 65536)) 0 cs) (
            subst
              (λ n.
                Numbered sid addr fid size n 0
                  (enumerate_map (make_fragment sid addr fid (length cs % 65536)) 0 cs))
              (omega arith)
              (enumerate-Numbered sid addr fid size (length cs % 65536) 0 cs (omega arith)
                (chunks-IsChunk size payload pos)))),
      ap payloads made ∙ enumerate-payloads sid addr fid _ 0 cs ∙ chunks-concat size payload pos,
    )

-- The split of 1 to 65535 * `size` octets succeeds, and makes as many packets as the length divided
-- by `size`, rounded up.
pub split_packet-total :
    (sid : ℕ) (addr : Address) (payload : Bytes) (size fid : ℕ)
    → 0 < size
    → 0 < length payload
    → length payload ≤ size * 65535
    → (packets : List UdpPacket) × (split_packet sid addr payload size fid ≡ some packets)
      × (length payload ≤ size * length packets)
      × (size * length packets < length payload + size)
split_packet-total sid addr payload size fid pos some' fits =
    let cs : List Bytes = chunks size payload in
    let (enough, tight) = chunks-count size payload pos in
    let below : length cs < 65536 = lt_of_mul-lt-mul size (length cs) 65536 (omega arith) in
    let count = length-enumerate_map (make_fragment sid addr fid (length cs % 65536)) 0 cs in
    let above : 0 < length cs = lt_of_mul-lt-mul size 0 (length cs) (omega arith) in
    (
      enumerate_map (make_fragment sid addr fid (length cs % 65536)) 0 cs,
      split_packet-made sid addr payload size fid pos (omega arith),
      rw count enough,
      rw count tight,
    )

-- Every packet is a fragment with this count.
abbrev pub Counted : ℕ → List UdpPacket → Type 0
Counted n [] = Unit
Counted n (unfragmented s a d ∷ ps) = ⊥
Counted n (fragmented f ∷ ps) = (f.fragment_count ≡ n) × Counted n ps

enumerate-Counted :
    (sid : ℕ) (addr : Address) (fid n i : ℕ) (cs : List Bytes)
    → Counted n (enumerate_map (make_fragment sid addr fid n) i cs)
unfolding make_fragment
enumerate-Counted sid addr fid n i [] = tt
enumerate-Counted sid addr fid n i (c ∷ cs) = (refl, enumerate-Counted sid addr fid n (i + 1) cs)

-- Every fragment's count is the number of packets, as a u16.
pub split_packet-Counted :
    (sid : ℕ) (addr : Address) (payload : Bytes) (size fid : ℕ) (packets : List UdpPacket)
    → split_packet sid addr payload size fid ≡ some packets
    → Counted (length packets % 65536) packets
split_packet-Counted sid addr payload size fid packets e =
    let (_, _, made) = split_packet-some sid addr payload size fid packets e in
    let cs : List Bytes = chunks size payload in
    let count : length packets ≡ length cs = ap length made ∙ length-enumerate_map _ 0 cs in
    rw count (rw made (enumerate-Counted sid addr fid (length cs % 65536) 0 cs))

-- From 65536 packets on all fragments carry a count that is not the number of packets: the
-- conversion to u16 wraps, and the assertion behind it refuses multiples of 65536 only.
pub split_packet-count_wraps :
    (sid : ℕ) (addr : Address) (payload : Bytes) (size fid : ℕ) (packets : List UdpPacket)
    → split_packet sid addr payload size fid ≡ some packets
    → 65535 < length packets
    → Counted (length packets % 65536) packets × (length packets % 65536 < length packets)
split_packet-count_wraps sid addr payload size fid packets e h =
    (split_packet-Counted sid addr payload size fid packets e, omega arith)
