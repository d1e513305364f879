-- ===== src/Server/Loops/Accept.antt =====
-- How the accept loop of the server's DatagramTunnel ends, and what it has done until then
-- (accept_loop in crates/ombrac-server/src/connection/datagram.rs).
use ombrac.Prelude.{
  true, false, Option, none, some, List, [], ◌∷◌, ◌++◌, ◌≡◌, refl, ap, ◌⊎◌, inl, inr, All, ok, err,
  Bool-cases,
}
use ombrac.Net.{Bytes, IoError, IoResult}
use ombrac.Server.{Parts, Tunnel, Task, handle_upstream_packet}
use ombrac.Server.Loops.{is_timed_out, with_task, AcceptTurn, shutdown, reading, accept_loop}

-- A turn that does not end the loop.
abbrev pub GoesOn : AcceptTurn → Type 0
GoesOn shutdown = ⊥
GoesOn (reading (ok packet_bytes)) = Unit {0}
GoesOn (reading (err e)) = is_timed_out e.kind ≡ true

-- The datagrams among the turns.
unfoldable pub datagrams : List AcceptTurn → List Bytes
datagrams [] = []
datagrams (shutdown ∷ rest) = datagrams rest
datagrams (reading (ok packet_bytes) ∷ rest) = packet_bytes ∷ datagrams rest
datagrams (reading (err e) ∷ rest) = datagrams rest

-- Why the loop has the result r behind the turns `before`: no turn is left, the shutdown came, or a
-- read failed otherwise than by a time out.
abbrev pub EndsBy : List AcceptTurn → List AcceptTurn → Option (IoResult (Unit {0})) → Type 0
EndsBy before turns r =
    ((r ≡ none) × (turns ≡ before))
    ⊎ (((after : List AcceptTurn) × (r ≡ some (ok tt)) × (turns ≡ before ++ shutdown ∷ after))
        ⊎ ((e : IoError) × (after : List AcceptTurn) × (r ≡ some (err e))
            × (is_timed_out e.kind ≡ false)
            × (turns ≡ before ++ reading (err e) ∷ after)))

EndsBy-cons :
    (turn : AcceptTurn) (before turns : List AcceptTurn) (r : Option (IoResult (Unit {0})))
    → EndsBy before turns r
    → EndsBy (turn ∷ before) (turn ∷ turns) r
EndsBy-cons turn before turns r (inl (e, q)) = inl (e, ap (λ ts. turn ∷ ts) q)
EndsBy-cons turn before turns r (inr (inl (after, e, q))) =
    inr (inl (after, e, ap (λ ts. turn ∷ ts) q))
EndsBy-cons turn before turns r (inr (inr (e, after, x, k, q))) =
    inr (inr (e, after, x, k, ap (λ ts. turn ∷ ts) q))

module _ (c : Parts) where
  -- The datagrams, handled one after the other, with the tasks that they spawn.
  unfoldable pub handle_all : Tunnel c → List Bytes → Tunnel c × List Task
  handle_all t [] = (t, [])
  handle_all t (packet_bytes ∷ rest) =
      let (t', handled) = handle_upstream_packet c t packet_bytes in
      let (t'', tasks) = handle_all t' rest in (t'', with_task handled tasks)

  -- The loop ends at a shutdown, or with the error of a read that is no time out; until then it has
  -- handled exactly the datagrams that were read, each once and in their order. Neither a time out nor
  -- a datagram whose handling fails ends it.
  pub accept_loop-EndsBy :
      (t : Tunnel c) (turns : List AcceptTurn)
      → (before : List AcceptTurn) × All GoesOn before
        × EndsBy before turns (accept_loop c t turns).2
        × ((accept_loop c t turns).0 ≡ (handle_all t (datagrams before)).0)
        × ((accept_loop c t turns).1 ≡ (handle_all t (datagrams before)).1)
  unfolding accept_loop handle_all datagrams
  accept_loop-EndsBy t [] = ([], tt, inl (refl, refl), refl, refl)
  accept_loop-EndsBy t (shutdown ∷ rest) = ([], tt, inr (inl (rest, refl, refl)), refl, refl)
  accept_loop-EndsBy t (reading (ok packet_bytes) ∷ rest) =
      let (t', handled) = handle_upstream_packet c t packet_bytes in
      let (before, on, ends, tunnel, tasks) = accept_loop-EndsBy t' rest in
      (
        reading (ok packet_bytes) ∷ before,
        (tt, on),
        EndsBy-cons _ before rest _ ends,
        tunnel,
        ap (with_task handled) tasks,
      )
  accept_loop-EndsBy t (reading (err e) ∷ rest) = elim (Bool-cases (is_timed_out e.kind)) [
    | inl k ↦
        let (before, on, ends, tunnel, tasks) = accept_loop-EndsBy t rest in
        (
          reading (err e) ∷ before,
          (k, on),
          rw (k) (EndsBy-cons (reading (err e)) before rest _ ends),
          rw (k) tunnel,
          rw (k) tasks,
        )
    | inr k ↦ ([], tt, inr (inr (e, rest, rw (k) refl, k, refl)), rw (k) refl, rw (k) refl)
  ]
