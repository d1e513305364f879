-- ===== src/Reassembly/Deliver.antt =====
-- Every fragment received, in any order: the packet is delivered (crates/ombrac/src/reassembly.rs).
use ombrac.Prelude.{
  ℕ, ◌≤◌, ◌<◌, ◌≡◌, refl, ap, ◌∙◌, sym, ◌≢◌, ◌⊎◌, inl, inr, none, some, List, [], ◌∷◌, length,
  get_elem?, arith, ok, concat, All, get_elem?-lt,
}
use ombrac.Net.{Bytes}
use ombrac.Cache.{Retains}
use ombrac.Protocol.{Address, Fragment, UdpPacket, fragmented, chunks, split_packet}
use ombrac.Protocol.Split.{split_packet-some, chunks-concat}
use ombrac.Reassembly.{
  ReassemblyBuffer, Buffers, max_fragment_count, buffer_or_new, add_fragment, process_buffer,
  process, process_all,
}
use ombrac.Reassembly.Consistent.{IsPiece, add_fragment-Consistent, assemble-Consistent}
use ombrac.Reassembly.Pieces.{packet-IsPiece, length-packets}
use ombrac.Reassembly.Slots.{add_fragment-address}
use ombrac.Reassembly.Progress.{
  Progress, Progress-incomplete, Progress-weaken, new-Progress, add_fragment-Progress,
  add_fragment_complete, process_buffer-waiting, process_buffer-delivers,
}

-- `i` is one of the indices.
abbrev pub Occurs : ℕ → List ℕ → Type 0
Occurs i [] = ⊥
Occurs i (j ∷ js) = (i ≡ j) ⊎ Occurs i js

-- The packets with these indices, in this order.
abbrev pub Picks : List UdpPacket → List ℕ → List UdpPacket → Type 0
Picks packets [] [] = Unit
Picks packets [] (p ∷ ps) = ⊥
Picks packets (i ∷ is) [] = ⊥
Picks packets (i ∷ is) (p ∷ ps) = (get_elem? packets i ≡ some p) × Picks packets is ps

module _ (c : Buffers) (r : Retains c) where
  open c use {State, find}

  abbrev found : ℕ → ℕ → State → ReassemblyBuffer
  found sid fid s = buffer_or_new sid (find s (sid, fid))

  module _ {sid fid : ℕ} {addr : Address} {chunks : List Bytes} where
    process-piece :
        (s : State) (f : Fragment)
        → IsPiece sid fid addr chunks f
        → process c s (fragmented f)
          ≡ process_buffer c s (sid, fid) (add_fragment (found sid fid s) (fragmented f))
    unfolding process
    process-piece s f q = simp (q.session, q.fragment)

    -- A fragment other than the last one is kept, and nothing is delivered.
    process-Progress :
        (s : State) (f : Fragment) (last : ℕ) (seen : ℕ → Type 0)
        → IsPiece sid fid addr chunks f
        → last < length chunks
        → last ≢ f.fragment_index
        → Progress sid addr chunks last seen (found sid fid s)
        → ((process c s (fragmented f)).1 ≡ ok none)
          × Progress sid addr chunks last
              (λ i. (i ≡ f.fragment_index) ⊎ seen i)
              (found sid fid (process c s (fragmented f)).0)
    process-Progress s f last seen q h ne k =
        let b = found sid fid s in
        let k' = add_fragment-Progress b f last seen q ne k in
        let (total, _) = add_fragment-address b f q k.consistent k.known in
        let waiting =
          Progress-incomplete _ last _ (omega (arith, k'.consistent.valid.sized, total)) k' in
        let e = process-piece s f q ∙ process_buffer-waiting c s (sid, fid) _ waiting in
        rw (e, r.find-insert_self) (refl, k')

    process-last :
        (s : State) (f : Fragment) (seen : ℕ → Type 0)
        → IsPiece sid fid addr chunks f
        → ((i : ℕ) → i < length chunks → (i ≡ f.fragment_index) ⊎ seen i)
        → Progress sid addr chunks f.fragment_index seen (found sid fid s)
        → (process c s (fragmented f)).1 ≡ ok (some (sid, addr, concat chunks))
    process-last s f seen q cover k =
        let b = found sid fid s in
        let (added, full) = add_fragment_complete b f seen q cover k in
        ap (λ t. t.1) (process-piece s f q)
        ∙ process_buffer-delivers c s (sid, fid) _ added full
        ∙ ap ok (assemble-Consistent _ (add_fragment-Consistent b f q k.consistent) full)

  module _ (sid fid : ℕ) (addr : Address) (payload : Bytes) (size : ℕ) (packets : List UdpPacket)
      (split : split_packet sid addr payload size fid ≡ some packets)
      (small : length packets ≤ max_fragment_count) where
    process_all-Progress :
        (s : State) (last : ℕ) (indices : List ℕ) (ps : List UdpPacket) (seen : ℕ → Type 0)
        → last < length packets
        → Picks packets indices ps
        → ¬ Occurs last indices
        → Progress sid addr (chunks size payload) last seen (found sid fid s)
        → All (λ d. d ≡ ok none) (process_all c s ps).1
          × Progress sid addr
              (chunks size payload)
              last
              (λ i. Occurs i indices ⊎ seen i)
              (found sid fid (process_all c s ps).0)
    unfolding process_all
    process_all-Progress s last [] [] seen h picks fresh k =
        (tt, Progress-weaken (λ i o. elim o [ inl e ↦ absurd e | inr e ↦ e ]) k)
    process_all-Progress s last [] (p ∷ ps) seen h picks fresh k = absurd picks
    process_all-Progress s last (i ∷ is) [] seen h picks fresh k = absurd picks
    process_all-Progress s last (i ∷ is) (p ∷ ps) seen h (pick, picks) fresh k =
        let (f, made, index, q) =
          packet-IsPiece sid fid addr payload size packets split small i p pick in
        let count = length-packets sid fid addr payload size packets split small in
        let ne : last ≢ f.fragment_index = λ e. fresh (inl (e ∙ index)) in
        let (none', k') = process-Progress s f last seen q (omega (arith, count)) ne k in
        let rest =
          process_all-Progress (process c s p).0 last is ps (λ j. (j ≡ f.fragment_index) ⊎ seen j) h
            picks (λ o. fresh (inr o)) (rw made k') in
        (
          (rw made none', rest.0),
          Progress-weaken
              (λ j o. elim o [
                | inl (inl e) ↦ inr (inl (e ∙ sym index))
                | inl (inr e) ↦ inl e
                | inr e ↦ inr (inr e)
              ])
              rest.1,
        )

    -- For a packet that was split into at most 256 fragments, while the cache drops nothing and holds
    -- nothing under its key before: when all fragments but one have come in, in any order and any
    -- number of times, each call returned nothing, and the call on the missing one delivers the
    -- packet that was split, with its session, its destination and its whole payload.
    pub process_all-delivers :
        (s : State) (last : ℕ) (p : UdpPacket) (indices : List ℕ) (ps : List UdpPacket)
        → find s (sid, fid) ≡ none
        → get_elem? packets last ≡ some p
        → Picks packets indices ps
        → ¬ Occurs last indices
        → ((i : ℕ) → i < length packets → (i ≡ last) ⊎ Occurs i indices)
        → All (λ d. d ≡ ok none) (process_all c s ps).1
          × ((process c (process_all c s ps).0 p).1 ≡ ok (some (sid, addr, payload)))
    process_all-delivers s last p indices ps absent pick picks fresh cover =
        let (f, made, index, q) =
          packet-IsPiece sid fid addr payload size packets split small last p pick in
        let count = length-packets sid fid addr payload size packets split small in
        let bound : last < length packets = get_elem?-lt packets last pick in
        let begin = new-Progress sid addr (chunks size payload) last in
        let (nones, k) =
          process_all-Progress s last indices ps (λ i. ⊥) bound picks fresh (rw absent begin) in
        let whole =
          chunks-concat size payload
            (split_packet-some sid addr payload size fid packets split).0 in
        let covered : (i : ℕ)
            → i < length (chunks size payload)
            → (i ≡ f.fragment_index) ⊎ (Occurs i indices ⊎ ⊥) =
          λ i h. elim (cover i (omega (arith, count))) [
            | inl e ↦ inl (e ∙ sym index)
            | inr o ↦ inr (inl o)
          ] in
        (
          nones,
          rw made (
                process-last (process_all c s ps).0 f (λ i. Occurs i indices ⊎ ⊥) q covered
                  (rw index k))
              ∙ ap (λ d. ok (some (sid, addr, d))) whole,
        )
