-- ===== src/Reassembly/Invariant.antt =====
-- The invariant of ReassemblyBuffer (crates/ombrac/src/reassembly.rs) and what it gives `assemble_and_take`.
use mathlib.Core.List.{append_assoc}
use ombrac.Prelude.{
  ℕ, zero, suc, ◌+◌, ◌≤◌, ◌<◌, ◌≡◌, refl, ap, ◌∙◌, ◌⊎◌, inl, inr, true, false, Option, none, some,
  List, [], ◌∷◌, ◌++◌, arith, length, get_elem?, set, replicate, length-set, length-replicate,
  Bool-cases, Option-cases, append-nil,
}
use ombrac.Net.{Bytes}
use ombrac.Protocol.{Address, UdpPacket, unfragmented, fragmented, Fragment}
use ombrac.Reassembly.{
  ReassemblyBuffer, store_slot, store_fragment, check_address, add_checked, add_fragment,
  is_complete, take_fragments, with_address, assemble_and_take, max_fragment_count, new,
}

-- The number of slots that hold a payload.
abbrev pub received : List (Option Bytes) → ℕ
received [] = 0
received (none ∷ xs) = received xs
received (some p ∷ xs) = suc (received xs)

-- The payloads in the order of their slots.
abbrev pub contents : List (Option Bytes) → Bytes
contents [] = []
contents (none ∷ xs) = contents xs
contents (some p ∷ xs) = p ++ contents xs

pub record IsValid (b : ReassemblyBuffer) : Type 0 where
  pub sized : length b.fragments ≡ b.total_count
  pub counted : received b.fragments ≡ b.received_count
  pub bounded : b.total_count ≤ max_fragment_count

pub received-le-length : (xs : List (Option Bytes)) → received xs ≤ length xs
received-le-length [] = omega arith
received-le-length (none ∷ xs) = omega (arith, received-le-length xs)
received-le-length (some p ∷ xs) = omega (arith, received-le-length xs)

pub received-replicate : (n : ℕ) → received (replicate n none) ≡ 0
received-replicate zero = refl
received-replicate (suc n) = received-replicate n

pub received-set :
    (xs : List (Option Bytes)) (i : ℕ) (p : Bytes)
    → get_elem? xs i ≡ some none
    → received (set xs i (some p)) ≡ received xs + 1
received-set [] i p e = cc
received-set (none ∷ xs) zero p e = omega arith
received-set (some q ∷ xs) zero p e = cc
received-set (none ∷ xs) (suc i) p e = received-set xs i p e
received-set (some q ∷ xs) (suc i) p e = omega (arith, received-set xs i p e)

store_slot-IsValid :
    (b : ReassemblyBuffer) (i : ℕ) (p : Bytes) (o : Option (Option Bytes))
    → get_elem? b.fragments i ≡ o
    → IsValid b
    → IsValid (store_slot b i p o).0
unfolding store_slot
store_slot-IsValid b i p none e v = v
store_slot-IsValid b i p (some (some q)) e v = v
store_slot-IsValid b i p (some none) e v = record {
  sized = length-set b.fragments i (some p) ∙ v.sized;
  counted = omega (
    arith,
    received-set b.fragments i p e,
    received-le-length b.fragments,
    v.sized,
    v.counted,
    v.bounded,
  );
  bounded = v.bounded;
}

store_fragment-IsValid :
    (b : ReassemblyBuffer) (f : Fragment) → IsValid b → IsValid (store_fragment b f).0
unfolding store_fragment
store_fragment-IsValid b f v = store_slot-IsValid b _ _ _ refl v

check_address-IsValid :
    (b : ReassemblyBuffer) (f : Fragment) (old given : Option Address)
    → IsValid b
    → IsValid (check_address b f old given).0
unfolding check_address
check_address-IsValid b f none given v =
    store_fragment-IsValid (record b { address = given }) f
      (record { sized = v.sized; counted = v.counted; bounded = v.bounded })
check_address-IsValid b f (some a) (some a') v = ground (arith, store_fragment-IsValid b f)
check_address-IsValid b f (some a) none v = v

add_checked-IsValid :
    (b : ReassemblyBuffer) (f : Fragment) → IsValid b → IsValid (add_checked b f).0
unfolding add_checked
add_checked-IsValid b f v =
    ground (arith, store_fragment-IsValid b f, check_address-IsValid b f b.address f.address)

pub restart-IsValid :
    (b : ReassemblyBuffer) (n : ℕ)
    → n ≤ max_fragment_count
    → IsValid b
    → b.total_count ≡ 0
    → IsValid (record b { total_count = n; fragments = replicate n none })
restart-IsValid b n h v e = record {
  sized = length-replicate n none;
  counted = omega (arith, received-replicate n, received-le-length b.fragments, v.sized, v.counted);
  bounded = h;
}

pub complete-counts :
    (b : ReassemblyBuffer)
    → is_complete b ≡ true
    → (0 < b.total_count) × (b.received_count ≡ b.total_count)
unfolding is_complete
complete-counts b e = ground arith

pub new-IsValid : (session_id : ℕ) → IsValid (new session_id 0 none)
new-IsValid session_id = record { sized = refl; counted = refl; bounded = omega arith }

-- Every call keeps the buffer valid, whether the packet is taken or refused: as many slots as the
-- packet has fragments, at most 256, and a counter that is the number of occupied slots (so the
-- u16 counter never wraps).
pub add_fragment-IsValid :
    (b : ReassemblyBuffer) (p : UdpPacket) → IsValid b → IsValid (add_fragment b p).0
unfolding add_fragment
add_fragment-IsValid b (unfragmented s a d) v = v
add_fragment-IsValid b (fragmented f) v = ground (
  arith,
  add_checked-IsValid b f,
  add_checked-IsValid
      (record b { total_count = f.fragment_count; fragments = replicate f.fragment_count none }) f,
  restart-IsValid b f.fragment_count,
)

take_fragments-full :
    (xs : List (Option Bytes)) (acc : Bytes)
    → received xs ≡ length xs
    → (take_fragments xs acc).1 ≡ some (acc ++ contents xs)
unfolding take_fragments
take_fragments-full [] acc h = rw append-nil
take_fragments-full (none ∷ xs) acc h = absurd (omega (arith, received-le-length xs))
take_fragments-full (some p ∷ xs) acc h =
    take_fragments-full xs (acc ++ p) (omega arith) ∙ ap some (append_assoc acc p (contents xs))

-- On a valid buffer `assemble_and_take` returns a packet exactly when the buffer is complete: its
-- branch for a missing slot is never reached. The packet has the buffer's session and address, and
-- the payloads in the order of their indices.
pub assemble_complete :
    (b : ReassemblyBuffer)
    → IsValid b
    → ((is_complete b ≡ false) × ((assemble_and_take b).1 ≡ none))
      ⊎ ((a : Address) × (is_complete b ≡ true)
          × (b.address ≡ some a)
          × ((assemble_and_take b).1 ≡ some (b.session_id, a, contents b.fragments)))
unfolding assemble_and_take with_address
assemble_complete b v = elim (Bool-cases (is_complete b)) [
  | inr e ↦ inl (e, rw e)
  | inl e ↦ elim (Option-cases b.address) [
    | inl e' ↦ absurd (unfold is_complete in ground arith)
    | inr (a, e') ↦ inr (
      a,
      e,
      e',
      rw (e, e', take_fragments-full b.fragments [] (unfold is_complete in ground arith)),
    )
  ]
]
