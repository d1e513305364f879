-- ===== src/BufferedStream/Content.antt =====
-- What is read from a stream with octets in front of it
-- (crates/ombrac-client/src/connection/stream.rs).
use ombrac.Prelude.{
  ℕ, suc, List, [], ◌∷◌, ◌++◌, ◌+◌, ◌<◌, min, ◌≡◌, refl, sym, ap, ap₂, ◌∙◌, ◌⊎◌, inl, inr, arith,
  ltb, leb, ltb→lt, Bool-cases, length, take, drop, take-append-drop, length-take, length-drop,
  drop-drop, drop-all, append-nil, append_assoc, ok,
}
use ombrac.Net.{Bytes, IoResult, Poll, ready}
use ombrac.BufferedStream.{
  BufferedStream, release, pass_on, poll_read, octets, read_all, read_inner,
}

-- The octets of the buffer that are still to be read.
abbrev pub remaining : {S : Type 0} → BufferedStream S → Bytes
remaining s = drop s.buffer_pos s.buffer

rejoin :
    (chunk given left front' front inner : Bytes)
    → given ++ left ≡ front' ++ inner
    → chunk ++ front' ≡ front
    → (chunk ++ given) ++ left ≡ front ++ inner
rejoin chunk given left front' front inner e f =
    append_assoc chunk given left
    ∙ ap (λ x. chunk ++ x) e
    ∙ sym (append_assoc chunk front' inner)
    ∙ ap (λ x. x ++ inner) f

settle_empty :
    (given left front inner : Bytes)
    → given ≡ inner
    → left ≡ []
    → front ≡ []
    → given ++ left ≡ front ++ inner
settle_empty given left front inner e f g = rw (e, f, g) (append-nil inner)

release-remaining :
    {S : Type 0} (s : BufferedStream S)
    → (remaining (release s) ≡ remaining s) × ((release s).stream ≡ s.stream)
unfolding release
release-remaining s = elim (Bool-cases (leb (length s.buffer) s.buffer_pos)) [
  | inl t ↦ (rw t (sym (drop-all s.buffer_pos s.buffer (ground arith))), rw t refl)
  | inr f ↦ (rw f refl, rw f refl)
]

module _ {S : Type 0} (read_stream : S → ℕ → S × Poll (IoResult Bytes)) where
  -- A read takes its octets off the front of the buffer, as many as are there and as there is room
  -- for, without a look at the stream; when the buffer has been read, it is a read of the stream.
  pub poll_read_lem :
      (s : BufferedStream S) (capacity : ℕ)
      → ((remaining s ≡ [])
          × (remaining (poll_read read_stream s capacity).0 ≡ [])
          × ((poll_read read_stream s capacity).0.stream ≡ (read_stream s.stream capacity).0)
          × ((poll_read read_stream s capacity).1 ≡ (read_stream s.stream capacity).1))
        ⊎ ((chunk : Bytes) × ((poll_read read_stream s capacity).1 ≡ ready (ok chunk))
            × (chunk ++ remaining (poll_read read_stream s capacity).0 ≡ remaining s)
            × (length chunk ≡ min (length (remaining s)) capacity)
            × (0 < length (remaining s))
            × ((poll_read read_stream s capacity).0.stream ≡ s.stream))
  unfolding poll_read pass_on
  poll_read_lem s capacity = elim (Bool-cases (ltb s.buffer_pos (length s.buffer))) [
    | inr f ↦
        let read : remaining s ≡ [] = drop-all s.buffer_pos s.buffer (ground arith) in
        inl (read, rw (f, read) refl, rw f refl, rw f refl)
    | inl t ↦
        let n = min (length (remaining s)) capacity in
        let (left, stream_same) = release-remaining (record s { buffer_pos = s.buffer_pos + n }) in
        let whole : take n (remaining s)
              ++ remaining (release (record s { buffer_pos = s.buffer_pos + n }))
            ≡ remaining s =
          rw (left, drop-drop s.buffer_pos n s.buffer) (take-append-drop n (remaining s)) in
        inr (
          take n (remaining s),
          rw t refl,
          rw t whole,
          omega (arith, length-take n (remaining s)),
          omega (arith, length-drop s.buffer_pos s.buffer, ltb→lt _ _ t),
          rw t stream_same,
        )
  ]

  -- When the buffer has been read, reads are reads of the stream.
  read_all-empty :
      (s : BufferedStream S) (rooms : List ℕ)
      → remaining s ≡ []
      → (remaining (read_all read_stream s rooms).0 ≡ [])
        × ((read_all read_stream s rooms).0.stream ≡ (read_inner read_stream s.stream rooms).0)
        × ((read_all read_stream s rooms).1 ≡ (read_inner read_stream s.stream rooms).1)
  unfolding read_all read_inner
  read_all-empty s [] e = (e, refl, refl)
  read_all-empty s (n ∷ ns) e = elim (poll_read_lem s n) [
    | inl (empty, left, moved, same) ↦
        let (a, b, c) = read_all-empty (poll_read read_stream s n).0 ns left in
        (a, rw moved at b, ap₂ (λ x y. octets x ++ y) same (rw moved at c))
    | inr (chunk, result, whole, size, some_left, kept) ↦
        absurd (omega (arith, some_left, ap length e))
  ]

  -- No octet is lost or repeated, and none overtakes another: whatever rooms the reads have, what
  -- they gave, followed by what is left of the buffer, is the buffer followed by what the last of
  -- them, those after the first k, give as reads of the stream itself.
  pub read_all_lem :
      (s : BufferedStream S) (rooms : List ℕ)
      → (k : ℕ) × ((read_all read_stream s rooms).0.stream
          ≡ (read_inner read_stream s.stream (drop k rooms)).0)
        × ((read_all read_stream s rooms).1 ++ remaining (read_all read_stream s rooms).0
            ≡ remaining s ++ (read_inner read_stream s.stream (drop k rooms)).1)
  unfolding read_all read_inner
  read_all_lem s [] = (0, refl, sym (append-nil (remaining s)))
  read_all_lem s (n ∷ ns) = elim (poll_read_lem s n) [
    | inl (empty, left, moved, same) ↦
        let (a, b, c) = read_all-empty s (n ∷ ns) empty in (0, b, settle_empty _ _ _ _ c a empty)
    | inr (chunk, result, whole, size, some_left, kept) ↦
        let (k, moved, gave) = read_all_lem (poll_read read_stream s n).0 ns in
        (suc k, rw kept at moved, rw result (rejoin chunk _ _ _ _ _ (rw kept at gave) whole))
  ]
