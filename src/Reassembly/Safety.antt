-- ===== src/Reassembly/Safety.antt =====
-- What the reassembler can deliver after any history of calls (crates/ombrac/src/reassembly.rs).
use ombrac.Prelude.{
  ℕ, ◌≤◌, ◌≡◌, refl, ap, ◌∙◌, sym, ◌≢◌, ◌⊎◌, inl, inr, Bool, true, false, Option, none, some, List,
  length, concat, ok, Bool-cases,
}
use mathlib.Core.Path.{subst}
use ombrac.Net.{Bytes}
use ombrac.Cache.{Drops}
use ombrac.Protocol.{Address, Fragment, UdpPacket, unfragmented, fragmented, chunks, split_packet}
use ombrac.Protocol.Split.{split_packet-some, chunks-concat}
use ombrac.Reassembly.{
  ReassemblyBuffer, Buffers, max_fragment_count, buffer_or_new, add_fragment, is_complete,
  assemble_and_take, process_buffer, process,
}
use ombrac.Reassembly.Consistent.{
  IsPiece, Consistent, new-Consistent, add_fragment-Consistent, assemble-Consistent,
}
use ombrac.Reassembly.Pieces.{Sent, fragmented-injective, packet-IsPiece}

module _ (c : Buffers) where
  open c use {State, find, insert, invalidate}

  -- An entry found after a call is one found before it, or the buffer of the call.
  pub find-process_buffer :
      (s : State) (key j : ℕ × ℕ) (r : ReassemblyBuffer × Bool) (w : ReassemblyBuffer)
      → find (process_buffer c s key r).0 j ≡ some w
      → ((j ≡ key) × (w ≡ r.0)) ⊎ ((j ≢ key) × (find s j ≡ some w))
  unfolding process_buffer
  find-process_buffer s key j (b, false) w e = c.find-insert s key j b w e
  find-process_buffer s key j (b, true) w e = elim (Bool-cases (is_complete b)) [
    | inl t ↦ inr (c.find-invalidate s key j w (rw t at e))
    | inr t ↦ c.find-insert s key j b w (rw t at e)
  ]

  -- The result of a call is nothing, or what the complete buffer holds.
  process_buffer-result :
      (s : State) (key : ℕ × ℕ) (r : ReassemblyBuffer × Bool)
      → ((process_buffer c s key r).1 ≡ ok none)
        ⊎ ((is_complete r.0 ≡ true) × ((process_buffer c s key r).1 ≡ ok (assemble_and_take r.0).1))
  unfolding process_buffer
  process_buffer-result s key (b, false) = inl refl
  process_buffer-result s key (b, true) = elim (Bool-cases (is_complete b)) [
    | inl t ↦ inr (t, rw t)
    | inr t ↦ inl (rw t)
  ]

  -- `p` may come in while `packets` are being received as session `sid`, fragment id `fid`: if it is
  -- a fragment with this key, it is one of the packets.
  abbrev pub Genuine : ℕ → ℕ → List UdpPacket → UdpPacket → Type 0
  Genuine sid fid packets (unfragmented s a d) = Unit
  Genuine sid fid packets (fragmented f) =
      (f.session_id ≡ sid) × (f.fragment_id ≡ fid) → Sent packets (fragmented f)

  -- The states after any genuine calls, in any order and with repetitions, between which the cache
  -- may drop entries.
  pub data History (sid fid : ℕ) (packets : List UdpPacket) (s : State) : State → Type 0 where
    start : History sid fid packets s s
    call :
        {t u : State} (p : UdpPacket)
        → History sid fid packets s t
        → Genuine sid fid packets p
        → (process c t p).0 ≡ u
        → History sid fid packets s u
    drop : {t u : State} → History sid fid packets s t → Drops c t u → History sid fid packets s u

  module _ (sid fid : ℕ) (addr : Address) (payload : Bytes) (size : ℕ) (packets : List UdpPacket)
      (split : split_packet sid addr payload size fid ≡ some packets)
      (small : length packets ≤ max_fragment_count) where
    abbrev KeyConsistent : State → Type 0
    KeyConsistent s =
        (b : ReassemblyBuffer)
        → find s (sid, fid) ≡ some b
        → Consistent sid addr (chunks size payload) b

    found-Consistent :
        (o : Option ReassemblyBuffer)
        → ((b : ReassemblyBuffer) → o ≡ some b → Consistent sid addr (chunks size payload) b)
        → Consistent sid addr (chunks size payload) (buffer_or_new sid o)
    found-Consistent none k = new-Consistent sid addr (chunks size payload)
    found-Consistent (some b) k = k b refl

    Sent-IsPiece :
        (f : Fragment) → Sent packets (fragmented f) → IsPiece sid fid addr (chunks size payload) f
    Sent-IsPiece f (i, e) =
        let (g, q, _, piece) =
          packet-IsPiece sid fid addr payload size packets split small i (fragmented f) e in
        subst (IsPiece sid fid addr (chunks size payload)) (fragmented-injective (sym q)) piece

    -- The buffer of a genuine call is consistent.
    added-Consistent :
        (s : State) (f : Fragment)
        → KeyConsistent s
        → IsPiece sid fid addr (chunks size payload) f
        → Consistent sid addr
            (chunks size payload)
            (add_fragment
              (buffer_or_new f.session_id (find s (f.session_id, f.fragment_id)))
              (fragmented f)).0
    added-Consistent s f k q =
        simp (q.session, q.fragment)
          (add_fragment-Consistent _ f q (found-Consistent (find s (sid, fid)) k))

    process-KeyConsistent :
        (s : State) (p : UdpPacket)
        → KeyConsistent s
        → Genuine sid fid packets p
        → KeyConsistent (process c s p).0
    unfolding process
    process-KeyConsistent s (unfragmented s' a d) k g = k
    process-KeyConsistent s (fragmented f) k g = λ w e.
        elim (find-process_buffer s _ (sid, fid) _ w e) [
          | inl (same, made) ↦ rw made (
              added-Consistent s f k
                (Sent-IsPiece f (g (sym (ap (λ r. r.0) same), sym (ap (λ r. r.1) same)))))
          | inr (_, old) ↦ k w old
        ]

    History-KeyConsistent :
        {s t : State} → find s (sid, fid) ≡ none → History sid fid packets s t → KeyConsistent t
    History-KeyConsistent absent start = λ b e. cc
    History-KeyConsistent absent (call p h g e) =
        subst KeyConsistent e (process-KeyConsistent _ p (History-KeyConsistent absent h) g)
    History-KeyConsistent absent (drop h d) = λ b e. History-KeyConsistent absent h b (d _ b e)

    -- Whatever came before (the fragments in any order, lost and repeated ones, other traffic, and
    -- entries dropped by the cache), the call on a fragment of the packet yields nothing or the
    -- packet that was split: its session, its destination and its whole payload.
    pub process_sound :
        {s t : State} (f : Fragment)
        → find s (sid, fid) ≡ none
        → History sid fid packets s t
        → Sent packets (fragmented f)
        → ((process c t (fragmented f)).1 ≡ ok none)
          ⊎ ((process c t (fragmented f)).1 ≡ ok (some (sid, addr, payload)))
    unfolding process
    process_sound {t} f absent h sent = elim (process_buffer-result t _ _) [
      | inl e ↦ inl e
      | inr (full, e) ↦
          inr (e ∙ ap ok (assemble-Consistent _ added full ∙ ap (λ d. some (sid, addr, d)) whole))
    ]
      where
        added :
            Consistent sid addr
              (chunks size payload)
              (add_fragment
                (buffer_or_new f.session_id (find t (f.session_id, f.fragment_id)))
                (fragmented f)).0
        added = added-Consistent t f (History-KeyConsistent absent h) (Sent-IsPiece f sent)

        whole : concat (chunks size payload) ≡ payload
        whole =
            chunks-concat size payload (split_packet-some sid addr payload size fid packets split).0
