-- ===== src/Dispatcher/Stuck.antt =====
-- The lock that the dispatcher holds while it waits (UdpDispatcher::dispatch in
-- crates/ombrac-client/src/connection/datagram.rs).
use native.Mathlib.Decide.{ℕ_discrete}
use mathlib.Core.Path.{subst}
use ombrac.Prelude.{
  ℕ, zero, suc, none, some, List, [], ◌∷◌, ◌++◌, ◌≤◌, ◌<◌, ltb, lt→ltb, true, false, length,
  length-append, ◌≡◌, ◌≢◌, inl, inr, refl, sym, ap, ◌∙◌, arith,
}
use ombrac.Cache.Map.{write_self, write_ne}
use ombrac.Dispatcher.{
  Message, udp_session_channel_buffer_size, Session, live, dropping, dropped, Task, idle, sending,
  Dispatcher, set_session, new_dispatcher, register_session, unregister_session, open_associate,
  put, send_open, send, dispatch_found, dispatch, Free, Step, opened, dispatched, resumed, refused,
  received, drop_begun, unregistered, Steps, here, there,
}
use ombrac.Dispatcher.Sessions.{set_session-cases}

-- The dispatcher waits for room in the full channel of a session whose owner is dropping it.
abbrev pub IsStuck : ℕ → Message → Dispatcher → Type 0
IsStuck k m w =
    (w.task ≡ sending k m)
    × (w.sessions k ≡ dropping)
    × ((q : List Message) × (w.dispatch_map k ≡ some q)
        × (udp_session_channel_buffer_size ≤ length q))

session-kept :
    (f : ℕ → Session) (k j : ℕ) (s v : Session) → f k ≡ s → j ≢ k → set_session f j v k ≡ s
session-kept f k j s v e ne = elim (set_session-cases f j v k) [
  | inl (p, h) ↦ absurd (ne (sym p))
  | inr (ne', h) ↦ h ∙ e
]

-- The guard of the waiting dispatcher: no other session of its shard is free.
Free-apart :
    (shard : ℕ → ℕ) (t : Task) (k j : ℕ) (m : Message) → t ≡ sending k m → Free shard t j → j ≢ k
Free-apart shard t k j m e free p =
    let apart : shard j ≢ shard k = subst (λ x. Free shard x j) e free in apart (ap shard p)

sending-same : (t : Task) (k j : ℕ) (m n : Message) → t ≡ sending k m → t ≡ sending j n → k ≡ j
sending-same t k j m n e f = let q : sending k m ≡ sending j n = sym e ∙ f in cc (q)

used_live : (w : Dispatcher) (k j : ℕ) → w.sessions k ≡ dropping → w.sessions j ≡ live → k ≢ j
used_live w k j d e p = let again : w.sessions k ≡ live = ap w.sessions p ∙ e in cc (d, again)

module _ (shard : ℕ → ℕ) (k : ℕ) (m : Message) where
  step-IsStuck : (w t : Dispatcher) → Step shard w t → IsStuck k m w → IsStuck k m t
  unfolding unregister_session open_associate register_session put
  step-IsStuck w _ (opened free) (e, d, (q, f, full)) =
      let ne = Free-apart shard w.task k w.session_id_counter m e free in
      (
        e,
        session-kept w.sessions k w.session_id_counter dropping live d ne,
        (
          q,
          write_ne ℕ_discrete w.dispatch_map w.session_id_counter k (some []) (λ p. ne (sym p)) ∙ f,
          full,
        ),
      )
  step-IsStuck w _ (dispatched id n i) (e, d, (q, f, full)) = absurd (cc (e, i))
  step-IsStuck w _ (resumed id n r e' f' short) (e, d, (q, f, full)) =
      let same = sending-same w.task k id m n e e' in
      let again : w.dispatch_map k ≡ some r = ap w.dispatch_map same ∙ f' in
      let queue : q ≡ r = cc (f, again) in absurd (omega (arith, full, short, ap length queue))
  step-IsStuck w _ (refused id n e' f') (e, d, (q, f, full)) =
      let same = sending-same w.task k id m n e e' in
      let again : w.sessions k ≡ dropped = ap w.sessions same ∙ f' in absurd (cc (d, again))
  step-IsStuck w _ (received id n r e' f') (e, d, (q, f, full)) = (
    e,
    d,
    (q, write_ne ℕ_discrete w.dispatch_map id k (some r) (used_live w k id d e') ∙ f, full),
  )
  step-IsStuck w _ (drop_begun id e') (e, d, (q, f, full)) = (
    e,
    session-kept w.sessions k id dropping dropping d (λ p. used_live w k id d e' (sym p)),
    (q, f, full),
  )
  step-IsStuck w _ (unregistered id e' free) (e, d, (q, f, full)) =
      let ne = Free-apart shard w.task k id m e free in
      (
        e,
        session-kept w.sessions k id dropping dropped d ne,
        (q, write_ne ℕ_discrete w.dispatch_map id k none (λ p. ne (sym p)) ∙ f, full),
      )

  Steps-IsStuck : (w t : Dispatcher) → Steps shard w t → IsStuck k m w → IsStuck k m t
  Steps-IsStuck w _ here i = i
  Steps-IsStuck w _ (there t u s x) i = step-IsStuck t u x (Steps-IsStuck w t s i)

-- The first session, in use, with n messages in its channel while the dispatcher is idle.
abbrev pub IsFilled : ℕ → Dispatcher → Type 0
IsFilled n w =
    (w.task ≡ idle)
    × (w.sessions 1 ≡ live)
    × ((q : List Message) × (w.dispatch_map 1 ≡ some q) × (length q ≡ n))

opened-IsFilled : IsFilled 0 (open_associate new_dispatcher)
unfolding open_associate register_session ℕ_discrete
opened-IsFilled = (refl, refl, ([], refl, refl))

dispatch-IsFilled :
    (n : ℕ) (w : Dispatcher) (m : Message)
    → n < udp_session_channel_buffer_size
    → IsFilled n w
    → IsFilled (suc n) (dispatch w 1 m)
unfolding dispatch dispatch_found send send_open put
dispatch-IsFilled n w m lt (i, l, (q, f, e)) =
    let room : ltb (length q) udp_session_channel_buffer_size ≡ true =
      lt→ltb (length q) udp_session_channel_buffer_size (omega (arith, lt, e)) in
    rw (f, l, room)
      (
        refl,
        l,
        (
          q ++ m ∷ [],
          write_self ℕ_discrete w.dispatch_map 1 (some (q ++ m ∷ [])),
          omega (arith, e, length-append q (m ∷ [])),
        ),
      )

dispatch-full :
    (w : Dispatcher) (m : Message)
    → IsFilled udp_session_channel_buffer_size w
    → dispatch w 1 m ≡ record w { task = sending 1 m }
unfolding dispatch dispatch_found send send_open
dispatch-full w m (i, l, (q, f, e)) =
    let full : ltb (length q) udp_session_channel_buffer_size ≡ false = rw e refl in
    rw (f, l, full) refl

module _ (shard : ℕ → ℕ) (m : Message) where
  fill :
      (n : ℕ)
      → n ≤ udp_session_channel_buffer_size
      → (w : Dispatcher) × Steps shard new_dispatcher w × IsFilled n w
  fill zero le =
      (open_associate new_dispatcher, there new_dispatcher _ here (opened tt), opened-IsFilled)
  fill (suc n) le =
      let (w, s, i) = fill n (omega arith) in
      (dispatch w 1 m, there w _ s (dispatched 1 m i.0), dispatch-IsFilled n w m (omega arith) i)

  waiting :
      (w : Dispatcher) × Steps shard new_dispatcher w
      × (w.task ≡ sending 1 m)
      × (w.sessions 1 ≡ live)
      × ((q : List Message) × (w.dispatch_map 1 ≡ some q)
          × (length q ≡ udp_session_channel_buffer_size))
  waiting =
      let (w, s, i) = fill udp_session_channel_buffer_size (omega arith) in
      (
        record w { task = sending 1 m },
        subst (λ t. Steps shard new_dispatcher t) (dispatch-full w m i)
            (there w _ s (dispatched 1 m i.0)),
        refl,
        i.1,
        i.2,
      )

  -- The dispatcher can come to stand for ever: there is a state that it reaches, with one session
  -- whose channel is full and whose owner begins to drop it while a datagram for it is dispatched,
  -- from which on, whatever else happens, the dispatcher waits for room in that channel and the owner
  -- for the map, so that no datagram reaches any session again.
  pub dispatch_stuck :
      (w : Dispatcher) × Steps shard new_dispatcher w
      × ((t : Dispatcher) → Steps shard w t → (t.task ≡ sending 1 m) × (t.sessions 1 ≡ dropping))
  unfolding ℕ_discrete
  dispatch_stuck =
      let (w, s, e, l, (q, f, full)) = waiting in
      let stuck : IsStuck 1 m (record w { sessions = set_session w.sessions 1 dropping }) =
        (e, refl, (q, f, omega (arith, full))) in
      (
        record w { sessions = set_session w.sessions 1 dropping },
        there w _ s (drop_begun 1 l),
        λ t r. let i = Steps-IsStuck shard 1 m _ t r stuck in (i.0, i.1),
      )
