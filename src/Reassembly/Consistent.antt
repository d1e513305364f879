-- ===== src/Reassembly/Consistent.antt =====
-- A buffer that has only met fragments of one packet (crates/ombrac/src/reassembly.rs).
use ombrac.Prelude.{
  ℕ, zero, suc, ◌≤◌, ◌<◌, ◌≡◌, refl, ap, ◌∙◌, sym, ◌⊎◌, inl, inr, true, false, Option, none, some,
  ==_iff, List, [], ◌∷◌, arith, length, get_elem?, get_elem?-lt, Bool-cases, set, replicate, concat,
  ◌==◌, if◌then◌else◌,
}
use ombrac.Net.{Bytes}
use ombrac.Protocol.{Address, fragmented, Fragment}
use ombrac.Reassembly.{
  ReassemblyBuffer, store_slot, store_fragment, check_address, add_checked, add_fragment,
  is_complete, assemble_and_take, max_fragment_count, new,
}
use ombrac.Reassembly.Invariant.{
  IsValid, received, contents, received-le-length, add_fragment-IsValid, new-IsValid,
  complete-counts, restart-IsValid, assemble_complete,
}

-- `f` is one of the fragments into which the packet with these chunks was split.
pub record IsPiece (sid fid : ℕ) (addr : Address) (chunks : List Bytes) (f : Fragment)
    : Type 0 where
  pub session : f.session_id ≡ sid
  pub fragment : f.fragment_id ≡ fid
  pub count : f.fragment_count ≡ length chunks
  pub small : length chunks ≤ max_fragment_count
  pub slot : get_elem? chunks f.fragment_index ≡ some f.payload
  pub first : f.address ≡ (if f.fragment_index == 0 then some addr else none)

-- Each occupied slot holds the chunk of its index.
abbrev pub Agrees : List (Option Bytes) → List Bytes → Type 0
Agrees [] [] = Unit
Agrees [] (c ∷ cs) = ⊥
Agrees (x ∷ xs) [] = ⊥
Agrees (none ∷ xs) (c ∷ cs) = Agrees xs cs
Agrees (some p ∷ xs) (c ∷ cs) = (p ≡ c) × Agrees xs cs

pub record Consistent (sid : ℕ) (addr : Address) (chunks : List Bytes) (b : ReassemblyBuffer)
    : Type 0 where
  pub valid : IsValid b
  pub session : b.session_id ≡ sid
  pub destination : (b.address ≡ none) ⊎ (b.address ≡ some addr)
  pub agrees : (b.total_count ≡ 0) ⊎ Agrees b.fragments chunks

Agrees-replicate : (cs : List Bytes) → Agrees (replicate (length cs) none) cs
Agrees-replicate [] = tt
Agrees-replicate (c ∷ cs) = Agrees-replicate cs

Agrees-set :
    (xs : List (Option Bytes)) (cs : List Bytes) (i : ℕ) (p : Bytes)
    → get_elem? cs i ≡ some p
    → Agrees xs cs
    → Agrees (set xs i (some p)) cs
Agrees-set [] [] i p e a = tt
Agrees-set [] (c ∷ cs) i p e a = a
Agrees-set (x ∷ xs) [] i p e a = absurd a
Agrees-set (none ∷ xs) (c ∷ cs) zero p e a = (cc, a)
Agrees-set (some q ∷ xs) (c ∷ cs) zero p e a = (cc, a.1)
Agrees-set (none ∷ xs) (c ∷ cs) (suc i) p e a = Agrees-set xs cs i p e a
Agrees-set (some q ∷ xs) (c ∷ cs) (suc i) p e a = (a.0, Agrees-set xs cs i p e a.1)

pub Agrees-length :
    (xs : List (Option Bytes)) (cs : List Bytes) → Agrees xs cs → length xs ≡ length cs
Agrees-length [] [] a = refl
Agrees-length [] (c ∷ cs) a = absurd a
Agrees-length (x ∷ xs) [] a = absurd a
Agrees-length (none ∷ xs) (c ∷ cs) a = ap suc (Agrees-length xs cs a)
Agrees-length (some p ∷ xs) (c ∷ cs) a = ap suc (Agrees-length xs cs a.1)

Agrees-full :
    (xs : List (Option Bytes)) (cs : List Bytes)
    → Agrees xs cs
    → received xs ≡ length xs
    → contents xs ≡ concat cs
Agrees-full [] [] a h = refl
Agrees-full [] (c ∷ cs) a h = absurd a
Agrees-full (x ∷ xs) [] a h = absurd a
Agrees-full (none ∷ xs) (c ∷ cs) a h = absurd (omega (arith, received-le-length xs))
Agrees-full (some p ∷ xs) (c ∷ cs) a h = rw (a.0, Agrees-full xs cs a.1 (omega arith))

pub new-Consistent :
    (sid : ℕ) (addr : Address) (chunks : List Bytes) → Consistent sid addr chunks (new sid 0 none)
new-Consistent sid addr chunks = record {
  valid = new-IsValid sid;
  session = refl;
  destination = inl refl;
  agrees = inl refl;
}

-- What `add_fragment` needs of the buffer besides its validity, kept by each of its parts.
pub record Core (sid : ℕ) (addr : Address) (chunks : List Bytes) (b : ReassemblyBuffer)
    : Type 0 where
  pub session : b.session_id ≡ sid
  pub destination : (b.address ≡ none) ⊎ (b.address ≡ some addr)
  pub agrees : Agrees b.fragments chunks

-- The buffer as `add_fragment` has it after the first fragment's count was taken.
abbrev pub started : ℕ → ReassemblyBuffer → ReassemblyBuffer
started n b =
    if b.total_count == 0 then record b { total_count = n; fragments = replicate n none } else b

module _ {sid : ℕ} {addr : Address} {chunks : List Bytes} where
  pub started-Core :
      (b : ReassemblyBuffer)
      → length chunks ≤ max_fragment_count
      → Consistent sid addr chunks b
      → Core sid addr chunks (started (length chunks) b)
        × IsValid (started (length chunks) b)
        × ((started (length chunks) b).total_count ≡ length chunks)
  started-Core b small k = elim (Bool-cases (b.total_count == 0)) [
    | inl e ↦ rw e (
      record { session = k.session; destination = k.destination; agrees = Agrees-replicate chunks },
      restart-IsValid b (length chunks) small k.valid ((==_iff b.total_count 0).0 e),
      refl,
    )
    | inr e ↦
        let a = running e k.agrees in
        rw e (
          record { session = k.session; destination = k.destination; agrees = a },
          k.valid,
          sym k.valid.sized ∙ Agrees-length b.fragments chunks a,
        )
  ]
    where
      running :
          (b.total_count == 0) ≡ false
          → (b.total_count ≡ 0) ⊎ Agrees b.fragments chunks
          → Agrees b.fragments chunks
      running e (inl z) = cc ((==_iff b.total_count 0).1 z)
      running e (inr a) = a

  -- A complete buffer yields the packet.
  pub assemble-Consistent :
      (b : ReassemblyBuffer)
      → Consistent sid addr chunks b
      → is_complete b ≡ true
      → (assemble_and_take b).1 ≡ some (sid, addr, concat chunks)
  assemble-Consistent b k e = elim (assemble_complete b k.valid) [
    | inl (e', _) ↦ cc
    | inr (a, _, ea, r) ↦ r ∙ delivered a ea
  ]
    where
      delivered :
          (a : Address)
          → b.address ≡ some a
          → ◌≡◌ {A = Option (ℕ × Address × Bytes)}
              (some (b.session_id, a, contents b.fragments))
              (some (sid, addr, concat chunks))
      delivered a ea = ground (
        arith,
        complete-counts b e,
        λ (h : Agrees b.fragments chunks) (n : received b.fragments ≡ length b.fragments).
            Agrees-full b.fragments chunks h n,
      )

module _ {sid fid : ℕ} {addr : Address} {chunks : List Bytes} where
  store_slot-Core :
      (b : ReassemblyBuffer) (f : Fragment) (o : Option (Option Bytes))
      → IsPiece sid fid addr chunks f
      → Core sid addr chunks b
      → Core sid addr chunks (store_slot b f.fragment_index f.payload o).0
  unfolding store_slot
  store_slot-Core b f none q k = k
  store_slot-Core b f (some (some p)) q k = k
  store_slot-Core b f (some none) q k = record {
    session = k.session;
    destination = k.destination;
    agrees = Agrees-set b.fragments chunks f.fragment_index f.payload q.slot k.agrees;
  }

  store_fragment-Core :
      (b : ReassemblyBuffer) (f : Fragment)
      → IsPiece sid fid addr chunks f
      → Core sid addr chunks b
      → Core sid addr chunks (store_fragment b f).0
  unfolding store_fragment
  store_fragment-Core b f q k = store_slot-Core b f _ q k

  check_address-Core :
      (b : ReassemblyBuffer) (f : Fragment) (old given : Option Address)
      → IsPiece sid fid addr chunks f
      → given ≡ some addr
      → Core sid addr chunks b
      → Core sid addr chunks (check_address b f old given).0
  unfolding check_address
  check_address-Core b f none given q e k =
      store_fragment-Core (record b { address = given }) f q
        (record { session = k.session; destination = inr e; agrees = k.agrees })
  check_address-Core b f (some a) (some a') q e k = ground (arith, store_fragment-Core b f q k)
  check_address-Core b f (some a) none q e k = k

  add_checked-Core :
      (b : ReassemblyBuffer) (f : Fragment)
      → IsPiece sid fid addr chunks f
      → Core sid addr chunks b
      → Core sid addr chunks (add_checked b f).0
  unfolding add_checked
  add_checked-Core b f q k = ground (
    arith,
    q.first,
    store_fragment-Core b f q k,
    λ (e : f.address ≡ some addr). check_address-Core b f b.address f.address q e k,
  )

  pub piece-bounds :
      (f : Fragment) → IsPiece sid fid addr chunks f → (f.fragment_index < length chunks)
  piece-bounds f q = get_elem?-lt chunks f.fragment_index q.slot

  -- On a fragment of its packet, `add_fragment` passes its checks of the count.
  pub add_fragment-piece :
      (b : ReassemblyBuffer) (f : Fragment)
      → IsPiece sid fid addr chunks f
      → Consistent sid addr chunks b
      → add_fragment b (fragmented f) ≡ add_checked (started (length chunks) b) f
  unfolding add_fragment
  add_fragment-piece b f q k =
      ground (arith, piece-bounds f q, q.count, q.small, started-Core b q.small k)

  pub add_fragment-Consistent :
      (b : ReassemblyBuffer) (f : Fragment)
      → IsPiece sid fid addr chunks f
      → Consistent sid addr chunks b
      → Consistent sid addr chunks (add_fragment b (fragmented f)).0
  add_fragment-Consistent b f q k = record {
    valid = add_fragment-IsValid b (fragmented f) k.valid;
    session = added.session;
    destination = added.destination;
    agrees = inr added.agrees;
  }
    where
      added : Core sid addr chunks (add_fragment b (fragmented f)).0
      added =
          rw (add_fragment-piece b f q k)
            (add_checked-Core (started (length chunks) b) f q (started-Core b q.small k).0)
