-- ===== src/Reassembly/Progress.antt =====
-- A buffer on its way to completion (crates/ombrac/src/reassembly.rs).
use mathlib.Core.Path.{subst}
use ombrac.Prelude.{
  ℕ, ◌<◌, ◌≡◌, refl, ◌∙◌, sym, ◌≢◌, ◌⊎◌, inl, inr, Bool, true, false, none, some, List, length,
  arith, ok, Bool-cases,
}
use ombrac.Net.{Bytes}
use ombrac.Protocol.{Address, Fragment, fragmented}
use ombrac.Reassembly.{
  ReassemblyBuffer, Buffers, add_fragment, is_complete, assemble_and_take, process_buffer, new,
}
use ombrac.Reassembly.Invariant.{received, complete-counts}
use ombrac.Reassembly.Consistent.{
  IsPiece, Consistent, new-Consistent, add_fragment-Consistent, piece-bounds,
}
use ombrac.Reassembly.Slots.{
  Filled, received-Filled, Filled-received, add_fragment-Fills, add_fragment-address,
}

-- The buffer holds the fragments seen so far, and not the one of the index `last`.
pub record Progress (sid : ℕ) (addr : Address) (chunks : List Bytes) (last : ℕ) (seen : ℕ → Type 0)
    (b : ReassemblyBuffer) : Type 1 where
  pub consistent : Consistent sid addr chunks b
  pub filled : (i : ℕ) → seen i → Filled b.fragments i
  pub missing : ¬ Filled b.fragments last
  pub known : Filled b.fragments 0 → b.address ≡ some addr

pub Progress-weaken :
    {sid : ℕ} {addr : Address} {chunks : List Bytes} {last : ℕ} {seen seen' : ℕ → Type 0}
    {b : ReassemblyBuffer}
    → ((i : ℕ) → seen' i → seen i)
    → Progress sid addr chunks last seen b
    → Progress sid addr chunks last seen' b
Progress-weaken h k = record {
  consistent = k.consistent;
  filled = λ i s. k.filled i (h i s);
  missing = k.missing;
  known = k.known;
}

-- A new buffer holds nothing.
pub new-Progress :
    (sid : ℕ) (addr : Address) (chunks : List Bytes) (last : ℕ)
    → Progress sid addr chunks last (λ i. ⊥) (new sid 0 none)
new-Progress sid addr chunks last = record {
  consistent = new-Consistent sid addr chunks;
  filled = λ i s. absurd s;
  missing = λ (p, e). cc;
  known = λ (p, e). cc;
}

-- A buffer with an empty slot is not complete.
pub Progress-incomplete :
    {sid : ℕ} {addr : Address} {chunks : List Bytes} (b : ReassemblyBuffer) (last : ℕ)
    (seen : ℕ → Type 0)
    → last < length b.fragments
    → Progress sid addr chunks last seen b
    → is_complete b ≡ false
Progress-incomplete b last seen h k = elim (Bool-cases (is_complete b)) [
  | inr e ↦ e
  | inl e ↦
      let (_, full) = complete-counts b e in
      let v = k.consistent.valid in
      let all : received b.fragments ≡ length b.fragments = v.counted ∙ full ∙ sym v.sized in
      absurd (k.missing (received-Filled b.fragments last all h))
]

module _ {sid fid : ℕ} {addr : Address} {chunks : List Bytes} where
  pub add_fragment-Progress :
      (b : ReassemblyBuffer) (f : Fragment) (last : ℕ) (seen : ℕ → Type 0)
      → IsPiece sid fid addr chunks f
      → last ≢ f.fragment_index
      → Progress sid addr chunks last seen b
      → Progress sid addr chunks last
          (λ i. (i ≡ f.fragment_index) ⊎ seen i)
          (add_fragment b (fragmented f)).0
  add_fragment-Progress b f last seen q ne k =
      let fills = add_fragment-Fills b f q k.consistent in
      record {
        consistent = add_fragment-Consistent b f q k.consistent;
        filled = λ i s. elim s [
          | inl e ↦ subst (Filled (add_fragment b (fragmented f)).0.fragments) (sym e) fills.here
          | inr old ↦ fills.kept i (k.filled i old)
        ];
        missing = λ h. k.missing (fills.others last ne h);
        known = (add_fragment-address b f q k.consistent k.known).1;
      }

  -- Once all slots but that of `f` are filled, `f` completes the buffer.
  pub add_fragment_complete :
      (b : ReassemblyBuffer) (f : Fragment) (seen : ℕ → Type 0)
      → IsPiece sid fid addr chunks f
      → ((i : ℕ) → i < length chunks → (i ≡ f.fragment_index) ⊎ seen i)
      → Progress sid addr chunks f.fragment_index seen b
      → ((add_fragment b (fragmented f)).1 ≡ true)
        × (is_complete (add_fragment b (fragmented f)).0 ≡ true)
  unfolding is_complete
  add_fragment_complete b f seen q cover k =
      let r = add_fragment b (fragmented f) in
      let fills = add_fragment-Fills b f q k.consistent in
      let v = (add_fragment-Consistent b f q k.consistent).valid in
      let (total, known) = add_fragment-address b f q k.consistent k.known in
      let slot : (i : ℕ) → i < length chunks → Filled r.0.fragments i = λ i h. elim (cover i h) [
        | inl e ↦ subst (Filled r.0.fragments) (sym e) fills.here
        | inr s ↦ fills.kept i (k.filled i s)
      ] in
      let full = Filled-received r.0.fragments (λ i h. slot i (omega (arith, v.sized, total))) in
      let first : 0 < length chunks = omega (arith, piece-bounds f q) in
      (fills.fresh k.missing, ground (arith, v.sized, v.counted, total, full, known (slot 0 first)))

module _ (c : Buffers) where
  open c use {State, find, insert}

  pub process_buffer-waiting :
      (s : State) (key : ℕ × ℕ) (r : ReassemblyBuffer × Bool)
      → is_complete r.0 ≡ false
      → process_buffer c s key r ≡ (insert s key r.0, ok none)
  unfolding process_buffer
  process_buffer-waiting s key (b, false) e = refl
  process_buffer-waiting s key (b, true) e = rw e

  pub process_buffer-delivers :
      (s : State) (key : ℕ × ℕ) (r : ReassemblyBuffer × Bool)
      → r.1 ≡ true
      → is_complete r.0 ≡ true
      → (process_buffer c s key r).1 ≡ ok (assemble_and_take r.0).1
  unfolding process_buffer
  process_buffer-delivers s key (b, false) t e = cc
  process_buffer-delivers s key (b, true) t e = rw e
