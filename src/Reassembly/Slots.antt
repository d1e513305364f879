-- ===== src/Reassembly/Slots.antt =====
-- Which slots a fragment of the packet fills (`add_fragment`, crates/ombrac/src/reassembly.rs).
use mathlib.Core.Logic.{if_pos}
use ombrac.Prelude.{
  ℕ, zero, suc, ◌<◌, ◌≡◌, refl, ap, ◌∙◌, sym, ◌≢◌, ◌↔◌, ◌⊎◌, inl, inr, Bool, true, false, Option,
  none, some, List, [], ◌∷◌, length, get_elem?, replicate, get_elem?-set_self, get_elem?-set_ne,
  get_elem?-lt, get_elem?-some, arith, ◌==◌, ==_iff, if◌then◌else◌, Bool-cases,
}
use ombrac.Net.{Bytes}
use ombrac.Protocol.{Address, Fragment, fragmented}
use ombrac.Reassembly.{
  ReassemblyBuffer, Address-discrete, store_slot, store_fragment, check_address, add_checked,
  add_fragment,
}
use ombrac.Reassembly.Invariant.{IsValid, received, received-le-length}
use ombrac.Reassembly.Consistent.{
  IsPiece, Consistent, Core, started, started-Core, add_fragment-piece, piece-bounds,
}

-- The slot `i` holds a payload.
abbrev pub Filled : List (Option Bytes) → ℕ → Type 0
Filled xs i = (p : Bytes) × (get_elem? xs i ≡ some (some p))

pub received-Filled :
    (xs : List (Option Bytes)) (i : ℕ) → received xs ≡ length xs → i < length xs → Filled xs i
received-Filled [] i e h = absurd (omega arith)
received-Filled (none ∷ xs) i e h = absurd (omega (arith, received-le-length xs))
received-Filled (some p ∷ xs) zero e h = (p, refl)
received-Filled (some p ∷ xs) (suc i) e h = received-Filled xs i (omega arith) (omega arith)

pub Filled-received :
    (xs : List (Option Bytes)) → ((i : ℕ) → i < length xs → Filled xs i) → received xs ≡ length xs
Filled-received [] h = refl
Filled-received (none ∷ xs) h = let (p, e) = h 0 (omega arith) in cc
Filled-received (some p ∷ xs) h = ap suc (Filled-received xs (λ i lt. h (suc i) (omega arith)))

replicate-ne-Filled : (n i : ℕ) → ¬ Filled (replicate n none) i
replicate-ne-Filled zero i (p, e) = cc
replicate-ne-Filled (suc n) zero (p, e) = cc
replicate-ne-Filled (suc n) (suc i) f = replicate-ne-Filled n i f

-- What one call did to the slots and to its result.
pub record Fills (before after : List (Option Bytes)) (i : ℕ) (added : Bool) : Type 0 where
  pub here : Filled after i
  pub kept : (j : ℕ) → Filled before j → Filled after j
  pub others : (j : ℕ) → j ≢ i → Filled after j → Filled before j
  pub fresh : ¬ Filled before i → added ≡ true

store_slot-Fills :
    (b : ReassemblyBuffer) (i : ℕ) (p : Bytes) (o : Option (Option Bytes))
    → get_elem? b.fragments i ≡ o
    → i < length b.fragments
    → Fills b.fragments (store_slot b i p o).0.fragments i (store_slot b i p o).1
unfolding store_slot
store_slot-Fills b i p none e h = let (x, e') = get_elem?-some b.fragments i h in cc
store_slot-Fills b i p (some (some q)) e h = record {
  here = (q, e);
  kept = λ j f. f;
  others = λ j n f. f;
  fresh = λ n. absurd (n (q, e));
}
store_slot-Fills b i p (some none) e h = record {
  here = (p, get_elem?-set_self b.fragments i (some p) h);
  kept = λ j (q, f).
      (q, get_elem?-set_ne b.fragments i j (some p) (λ s. cc (ap (get_elem? b.fragments) s)) ∙ f);
  others = λ j n (q, f). (q, sym (get_elem?-set_ne b.fragments i j (some p) (λ s. n (sym s))) ∙ f);
  fresh = λ n. refl;
}

-- The buffer as the slot's check finds it, on a fragment of a packet to `addr`.
abbrev pub addressed : Address → ReassemblyBuffer → Fragment → ReassemblyBuffer
addressed addr b f = record b { address = if f.fragment_index == 0 then some addr else b.address }

check_address-piece :
    (addr : Address) (b : ReassemblyBuffer) (f : Fragment) (old given : Option Address)
    → b.address ≡ old
    → given ≡ some addr
    → (old ≡ none) ⊎ (old ≡ some addr)
    → check_address b f old given ≡ store_fragment (record b { address = some addr }) f
unfolding check_address
check_address-piece addr b f none given eb eg d = rw eg
check_address-piece addr b f (some a) none eb eg d = cc
check_address-piece addr b f (some a) (some a') eb eg d =
    let known : some a ≡ some addr = elim d [ inl e ↦ cc | inr e ↦ e ] in
    rw (if_pos (Address-discrete a a') (cc))
      (ap (λ o. store_fragment (record b { address = o }) f) (eb ∙ known))

store_fragment-Fills :
    (b : ReassemblyBuffer) (f : Fragment)
    → f.fragment_index < length b.fragments
    → Fills b.fragments (store_fragment b f).0.fragments f.fragment_index (store_fragment b f).1
unfolding store_fragment
store_fragment-Fills b f h = store_slot-Fills b f.fragment_index f.payload _ refl h

started-Filled :
    (b : ReassemblyBuffer) (n i : ℕ)
    → IsValid b
    → Filled b.fragments i ↔ Filled (started n b).fragments i
started-Filled b n i v = elim (Bool-cases (b.total_count == 0)) [
  | inl e ↦ rw e (
    λ (p, f).
        absurd (omega (arith, get_elem?-lt b.fragments i f, v.sized, (==_iff b.total_count 0).0 e)),
    λ f. absurd (replicate-ne-Filled n i f),
  )
  | inr e ↦ rw e (λ f. f, λ f. f)
]

Fills-before :
    (xs ys zs : List (Option Bytes)) (i : ℕ) (r : Bool)
    → ((j : ℕ) → Filled xs j ↔ Filled ys j)
    → Fills ys zs i r
    → Fills xs zs i r
Fills-before xs ys zs i r same f = record {
  here = f.here;
  kept = λ j h. f.kept j ((same j).0 h);
  others = λ j n h. (same j).1 (f.others j n h);
  fresh = λ n. f.fresh (λ h. n ((same i).1 h));
}

-- A stored fragment leaves the rest of the buffer alone.
store_slot-rest :
    (b : ReassemblyBuffer) (i : ℕ) (p : Bytes) (o : Option (Option Bytes))
    → ((store_slot b i p o).0.address ≡ b.address)
      × ((store_slot b i p o).0.total_count ≡ b.total_count)
unfolding store_slot
store_slot-rest b i p none = (refl, refl)
store_slot-rest b i p (some none) = (refl, refl)
store_slot-rest b i p (some (some q)) = (refl, refl)

store_fragment-rest :
    (b : ReassemblyBuffer) (f : Fragment)
    → ((store_fragment b f).0.address ≡ b.address)
      × ((store_fragment b f).0.total_count ≡ b.total_count)
unfolding store_fragment
store_fragment-rest b f = store_slot-rest b f.fragment_index f.payload _

module _ {sid fid : ℕ} {addr : Address} {chunks : List Bytes} where
  add_checked-piece :
      (b : ReassemblyBuffer) (f : Fragment)
      → IsPiece sid fid addr chunks f
      → Core sid addr chunks b
      → add_checked b f ≡ store_fragment (addressed addr b f) f
  unfolding add_checked
  add_checked-piece b f q k = elim (Bool-cases (f.fragment_index == 0)) [
    | inl e ↦
        rw e (check_address-piece addr b f b.address f.address refl (q.first ∙ rw e) k.destination)
    | inr e ↦ rw e
  ]

  -- On a fragment of its packet `add_fragment` comes down to the slot's check.
  pub add_fragment-slot :
      (b : ReassemblyBuffer) (f : Fragment)
      → IsPiece sid fid addr chunks f
      → Consistent sid addr chunks b
      → add_fragment b (fragmented f)
        ≡ store_fragment (addressed addr (started (length chunks) b) f) f
  add_fragment-slot b f q k =
      add_fragment-piece b f q k
      ∙ add_checked-piece (started (length chunks) b) f q (started-Core b q.small k).0

  pub add_fragment-Fills :
      (b : ReassemblyBuffer) (f : Fragment)
      → IsPiece sid fid addr chunks f
      → Consistent sid addr chunks b
      → Fills b.fragments
          (add_fragment b (fragmented f)).0.fragments
          f.fragment_index
          (add_fragment b (fragmented f)).1
  add_fragment-Fills b f q k =
      let (core, v, total) = started-Core b q.small k in
      let b' : ReassemblyBuffer = addressed addr (started (length chunks) b) f in
      rw (add_fragment-slot b f q k) (
        Fills-before b.fragments b'.fragments _ f.fragment_index _
          (λ j. started-Filled b (length chunks) j k.valid)
          (store_fragment-Fills b' f (omega (arith, piece-bounds f q, v.sized, total))))

  -- The count is that of the packet, and the destination is known once the first slot is filled.
  pub add_fragment-address :
      (b : ReassemblyBuffer) (f : Fragment)
      → IsPiece sid fid addr chunks f
      → Consistent sid addr chunks b
      → (Filled b.fragments 0 → b.address ≡ some addr)
      → ((add_fragment b (fragmented f)).0.total_count ≡ length chunks)
        × (Filled (add_fragment b (fragmented f)).0.fragments 0
            → (add_fragment b (fragmented f)).0.address ≡ some addr)
  add_fragment-address b f q k known =
      let (core, v, total) = started-Core b q.small k in
      let b' : ReassemblyBuffer = addressed addr (started (length chunks) b) f in
      let (same, kept) = store_fragment-rest b' f in
      let fills = add_fragment-Fills b f q k in
      (
        rw (add_fragment-slot b f q k) (kept ∙ total),
        λ filled.
            ap (λ r. r.0.address) (add_fragment-slot b f q k)
            ∙ same
            ∙ address_known (Bool-cases (f.fragment_index == 0))
                (λ n. known (fills.others 0 n filled)),
      )
    where
      address_known :
          ((f.fragment_index == 0) ≡ true) ⊎ ((f.fragment_index == 0) ≡ false)
          → (0 ≢ f.fragment_index → b.address ≡ some addr)
          → (addressed addr (started (length chunks) b) f).address ≡ some addr
      address_known c h = ground arith
