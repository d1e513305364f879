-- ===== src/Netstack/Device.antt =====
-- crates/ombrac-netstack/src/device.rs: the device that smoltcp reads packets from and writes them to.
-- Channels are queues with a capacity; a permit is a place in the queue.
use mathlib.Core.Path.{subst}
use ombrac.Prelude.{
  ℕ, zero, suc, Bool, true, false, Option, none, some, List, [], ◌∷◌, ◌++◌, ◌-◌, ltb, if◌then◌else◌,
  length, take, drop, drop-nil, take-nil, replicate, ◌≡◌, refl, ap, sym, Bool-cases, ◌⊎◌, inl, inr,
}
use ombrac.Net.{Bytes}
use ombrac.BufferPool.{BytesMut, BufferPool, get, release}
use ombrac.Netstack.{NetStackConfig}

pub record NetstackDevice : Type 0 where
  pub rx_queue : List Bytes
  pub rx_capacity : ℕ
  pub tx_queue : List Bytes
  pub tx_capacity : ℕ
  pub max_transmission_unit : ℕ

-- NetstackDevice::new over the channel of outgoing packets.
abbrev pub new_device : List Bytes → ℕ → NetStackConfig → NetstackDevice
new_device tx_queue tx_capacity config = record {
  rx_queue = [];
  rx_capacity = config.channel_size;
  tx_queue = tx_queue;
  tx_capacity = tx_capacity;
  max_transmission_unit = config.mtu;
}

abbrev pub tx_room : NetstackDevice → Bool
tx_room d = ltb (length d.tx_queue) d.tx_capacity

-- Device::receive: the packet of the token that it gives; the other token is a permit to send one.
unfoldable pub receive_from : NetstackDevice → List Bytes → NetstackDevice × Option Bytes
receive_from d [] = (d, none)
receive_from d (packet ∷ rest) =
    if tx_room d
    then (record d { rx_queue = rest }, some packet)
    else (record d { rx_queue = rest }, none)

unfoldable pub receive : NetstackDevice → NetstackDevice × Option Bytes
receive d = receive_from d d.rx_queue

-- Device::transmit: whether it gives a permit.
unfoldable pub transmit : NetstackDevice → Bool
transmit d = tx_room d

-- TxToken::consume: the buffer that `f` fills, and the packet that is sent. A buffer of the pool is
-- empty, and `resize` makes it `len` octets.
unfoldable pub consume :
    {R : Type 0}
    → BytesMut
    → BufferPool
    → NetstackDevice
    → ℕ
    → (Bytes → Bytes × R)
    → BufferPool × NetstackDevice × R
consume m pool d len f =
    let (pool', buffer) = get m pool len in
    let grown =
      if ltb buffer.capacity len then m.reserve buffer (len - buffer.capacity) else buffer in
    let (filled, result) = f (replicate len 0) in
    (release pool' grown, record d { tx_queue = d.tx_queue ++ filled ∷ [] }, result)

-- Calls of receive in turn, whose permits are given back unused: the packets that they give.
abbrev pub add_given : Option Bytes → NetstackDevice × List Bytes → NetstackDevice × List Bytes
add_given none r = r
add_given (some packet) (d, given) = (d, packet ∷ given)

unfoldable pub receive_all : NetstackDevice → ℕ → NetstackDevice × List Bytes
receive_all d zero = (d, [])
receive_all d (suc n) = let (d', o) = receive d in add_given o (receive_all d' n)

receive_all-next :
    (d d' : NetstackDevice) (o : Option Bytes) (n : ℕ)
    → receive d ≡ (d', o)
    → receive_all d (suc n) ≡ add_given o (receive_all d' n)
unfolding receive_all
receive_all-next d d' o n e =
    ap (λ (x : NetstackDevice × Option Bytes). add_given x.1 (receive_all x.0 n)) e

-- What calls leave of the queue, and what they give when there is room.
abbrev Drained : NetstackDevice → List Bytes → List Bytes → NetstackDevice × List Bytes → Type 0
Drained d left packets r =
    (r.0 ≡ record d { rx_queue = left })
    × (((tx_room d ≡ true) × (r.1 ≡ packets)) ⊎ ((tx_room d ≡ false) × (r.1 ≡ [])))

receive-empty : (d : NetstackDevice) → d.rx_queue ≡ [] → receive d ≡ (d, none)
unfolding receive receive_from
receive-empty d e = rw e refl

receive-room :
    (d : NetstackDevice) (packet : Bytes) (rest : List Bytes)
    → d.rx_queue ≡ packet ∷ rest
    → tx_room d ≡ true
    → receive d ≡ (record d { rx_queue = rest }, some packet)
unfolding receive receive_from
receive-room d packet rest e t = rw (e, t) refl

receive-full :
    (d : NetstackDevice) (packet : Bytes) (rest : List Bytes)
    → d.rx_queue ≡ packet ∷ rest
    → tx_room d ≡ false
    → receive d ≡ (record d { rx_queue = rest }, none)
unfolding receive receive_from
receive-full d packet rest e f = rw (e, f) refl

receive_all-Drained :
    (n : ℕ) (q : List Bytes) (d : NetstackDevice)
    → d.rx_queue ≡ q
    → Drained d (drop n q) (take n q) (receive_all d n)
unfolding receive_all
receive_all-Drained zero q d e = elim (Bool-cases (tx_room d)) [
  | inl t ↦ (rw e refl, inl (t, refl))
  | inr f ↦ (rw e refl, inr (f, refl))
]
receive_all-Drained (suc n) [] d e =
    let ih : Drained d [] [] (receive_all d n) =
      subst (λ x. Drained d x [] (receive_all d n)) (drop-nil n)
        (subst (λ x. Drained d (drop n []) x (receive_all d n)) (take-nil n)
          (receive_all-Drained n [] d e)) in
    subst (Drained d [] []) (sym (receive_all-next d d none n (receive-empty d e))) ih
receive_all-Drained (suc n) (packet ∷ rest) d e =
    let (left, given) = receive_all-Drained n rest (record d { rx_queue = rest }) refl in
    elim (Bool-cases (tx_room d)) [
      | inl t ↦ elim given [
        | inl (r, same) ↦
            rw (receive_all-next d _ _ n (receive-room d packet rest e t))
              (left, inl (t, ap (λ x. packet ∷ x) same))
        | inr (r, same) ↦ absurd (cc (r, t))
      ]
      | inr f ↦ elim given [
        | inl (r, same) ↦ absurd (cc (r, f))
        | inr (r, same) ↦
            rw (receive_all-next d _ _ n (receive-full d packet rest e f)) (left, inr (f, same))
      ]
    ]

-- smoltcp is given a packet only when there is room for one that answers it. While no answer is sent
-- between them: with room, n calls give
-- the first n packets of the queue in their order. Without, they give none, and these packets have
-- left the queue all the same: they are lost.
pub receive_all_lem :
    (n : ℕ) (d : NetstackDevice)
    → ((receive_all d n).0 ≡ record d { rx_queue = drop n d.rx_queue })
      × (((tx_room d ≡ true) × ((receive_all d n).1 ≡ take n d.rx_queue))
          ⊎ ((tx_room d ≡ false) × ((receive_all d n).1 ≡ [])))
receive_all_lem n d = receive_all-Drained n d.rx_queue d refl
