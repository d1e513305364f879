-- ===== src/Dispatcher/Sessions.antt =====
-- The sessions of the client's dispatcher in every state that it reaches
-- (crates/ombrac-client/src/connection/datagram.rs).
use native.Mathlib.Decide.{ℕ_discrete}
use mathlib.Core.Path.{subst}
use ombrac.Prelude.{
  ℕ, Option, none, some, List, [], ◌∷◌, ◌++◌, ◌+◌, ◌≤◌, ◌<◌, ltb, ltb→lt, Bool-cases, length,
  length-append, ◌≡◌, ◌≢◌, ◌⊎◌, inl, inr, refl, sym, ap, ◌∙◌, arith,
}
use ombrac.Cache.Map.{write, write-insert, write-none}
use ombrac.Dispatcher.{
  Message, udp_session_channel_buffer_size, Session, unopened, live, dropping, dropped, Task, idle,
  sending, removing, Dispatcher, set_session, new_dispatcher, register_session, unregister_session,
  open_associate, put, send_open, send, dispatch_found, dispatch, Free, Step, opened, dispatched,
  resumed, refused, received, drop_begun, unregistered, Steps, here, there,
}

-- The receiver is there.
abbrev pub Active : Session → Type 0
Active live = Unit
Active dropping = Unit
Active unopened = ⊥
Active dropped = ⊥

pub set_session-cases :
    (f : ℕ → Session) (k : ℕ) (s : Session) (j : ℕ)
    → ((j ≡ k) × (set_session f k s j ≡ s)) ⊎ ((j ≢ k) × (set_session f k s j ≡ f j))
set_session-cases f k s j =
    elim (ℕ_discrete j k)
      as (λ d.
        ((j ≡ k) × ((elim d [ yes e ↦ s | no ne ↦ f j ]) ≡ s))
        ⊎ ((j ≢ k) × ((elim d [ yes e ↦ s | no ne ↦ f j ]) ≡ f j))) [
          | yes e ↦ inl (e, refl)
          | no ne ↦ inr (ne, refl)
        ]

-- A session in the map has its receiver, and a queue within the channel's bound.
abbrev pub Bounded : (ℕ → Option (List Message)) → (ℕ → Session) → Type 0
Bounded m f =
    (id : ℕ) (q : List Message)
    → m id ≡ some q
    → (length q ≤ udp_session_channel_buffer_size) × Active (f id)

-- The dispatcher waits only for a session that has its receiver, and never on itself.
abbrev pub Waits : (ℕ → Session) → Task → Type 0
Waits f idle = Unit
Waits f (sending k m) = Active (f k)
Waits f (removing k) = ⊥

-- Numbers from the counter on are unused.
abbrev pub Fresh : (ℕ → Session) → ℕ → Type 0
Fresh f n = (id : ℕ) → n ≤ id → f id ≡ unopened

abbrev pub IsSound : Dispatcher → Type 0
IsSound w =
    Bounded w.dispatch_map w.sessions
    × Fresh w.sessions w.session_id_counter
    × Waits w.sessions w.task

write-Bounded :
    (m : ℕ → Option (List Message)) (f : ℕ → Session) (k : ℕ) (q : List Message)
    → Bounded m f
    → length q ≤ udp_session_channel_buffer_size
    → Active (f k)
    → Bounded (write ℕ_discrete m k (some q)) f
write-Bounded m f k q b short a j r e = elim (write-insert ℕ_discrete m k j q r e) [
  | inl (p, same) ↦ (rw same short, rw p a)
  | inr (ne, old) ↦ b j r old
]

set_session-Active :
    (f : ℕ → Session) (k : ℕ) (s : Session) (j : ℕ)
    → Active s
    → Active (f j)
    → Active (set_session f k s j)
set_session-Active f k s j a old = elim (set_session-cases f k s j) [
  | inl (p, e) ↦ rw e a
  | inr (ne, e) ↦ rw e old
]

set_session-Active_self :
    (f : ℕ → Session) (k : ℕ) (s : Session) → Active s → Active (set_session f k s k)
set_session-Active_self f k s a = elim (set_session-cases f k s k) [
  | inl (p, e) ↦ rw e a
  | inr (ne, e) ↦ absurd (ne refl)
]

set_session-Bounded :
    (m : ℕ → Option (List Message)) (f : ℕ → Session) (k : ℕ) (s : Session)
    → Active s
    → Bounded m f
    → Bounded m (set_session f k s)
set_session-Bounded m f k s a b j q e =
    let (short, old) = b j q e in (short, set_session-Active f k s j a old)

set_session-Fresh :
    (f : ℕ → Session) (k n : ℕ) (s : Session) → k < n → Fresh f n → Fresh (set_session f k s) n
set_session-Fresh f k n s lt h j le = elim (set_session-cases f k s j) [
  | inl (p, e) ↦ absurd (omega (arith, p, lt, le))
  | inr (ne, e) ↦ e ∙ h j le
]

-- A session in use has a number below the counter.
used-lt : (f : ℕ → Session) (n k : ℕ) → Fresh f n → f k ≢ unopened → k < n
used-lt f n k h ne = elim (Bool-cases (ltb k n)) [
  | inl t ↦ ltb→lt k n t
  | inr e ↦ absurd (ne (h k (ground arith)))
]

dropping-used : (s : Session) → s ≡ dropping → s ≢ unopened
dropping-used s e g = cc (e, g)

live-used : (s : Session) → s ≡ live → s ≢ unopened
live-used s e g = cc (e, g)

Waits-Active :
    (f : ℕ → Session) (k : ℕ) (s : Session) (t : Task)
    → Active s
    → Waits f t
    → Waits (set_session f k s) t
Waits-Active f k s idle a h = tt
Waits-Active f k s (sending j m) a h = set_session-Active f k s j a h
Waits-Active f k s (removing j) a h = h

-- While the dispatcher waits for a session, its owner cannot take it out of the map.
Waits-dropped :
    (shard : ℕ → ℕ) (f : ℕ → Session) (k : ℕ) (t : Task)
    → Free shard t k
    → Waits f t
    → Waits (set_session f k dropped) t
Waits-dropped shard f k idle free h = tt
Waits-dropped shard f k (removing j) free h = h
Waits-dropped shard f k (sending j m) free h = elim (set_session-cases f k dropped j) [
  | inl (p, e) ↦ absurd (free (ap shard (sym p)))
  | inr (ne, e) ↦ rw e h
]

Bounded-dropped :
    (m : ℕ → Option (List Message)) (f : ℕ → Session) (k : ℕ)
    → Bounded m f
    → Bounded (write ℕ_discrete m k none) (set_session f k dropped)
Bounded-dropped m f k b j q e =
    let (ne, old) = write-none ℕ_discrete m k j q e in
    elim (set_session-cases f k dropped j) [
      | inl (p, same) ↦ absurd (ne p)
      | inr (ne', same) ↦ rw same (b j q old)
    ]

Waits-refused :
    (f : ℕ → Session) (t : Task) (k : ℕ) (m : Message)
    → t ≡ sending k m
    → f k ≡ dropped
    → Waits f t
    → ⊥
Waits-refused f t k m e d h = let a : Active (f k) = subst (Waits f) e h in subst Active d a

put-IsSound :
    (w : Dispatcher) (id : ℕ) (m : Message) (q : List Message)
    → IsSound w
    → length q < udp_session_channel_buffer_size
    → Active (w.sessions id)
    → IsSound (put w id m q)
unfolding put
put-IsSound w id m q (b, h, t) short a = (
  write-Bounded w.dispatch_map w.sessions id (q ++ m ∷ []) b
      (omega (arith, short, length-append q (m ∷ []))) a,
  h,
  tt,
)

send_open-IsSound :
    (w : Dispatcher) (id : ℕ) (m : Message) (q : List Message)
    → IsSound w
    → Active (w.sessions id)
    → IsSound (send_open w id m q)
unfolding send_open
send_open-IsSound w id m q (b, h, t) a =
    elim (Bool-cases (ltb (length q) udp_session_channel_buffer_size)) [
      | inl e ↦ rw e (put-IsSound w id m q (b, h, t) (ltb→lt _ _ e) a)
      | inr e ↦ rw e (b, h, a)
    ]

send-IsSound :
    (w : Dispatcher) (id : ℕ) (m : Message) (q : List Message) (s : Session)
    → w.sessions id ≡ s
    → IsSound w
    → Active s
    → IsSound (send w id m q s)
unfolding send
send-IsSound w id m q live e i a = send_open-IsSound w id m q i (rw e a)
send-IsSound w id m q dropping e i a = send_open-IsSound w id m q i (rw e a)
send-IsSound w id m q unopened e i a = absurd a
send-IsSound w id m q dropped e i a = absurd a

dispatch-IsSound :
    (w : Dispatcher) (id : ℕ) (m : Message) (o : Option (List Message))
    → w.dispatch_map id ≡ o
    → IsSound w
    → IsSound (dispatch_found w id m o)
unfolding dispatch_found
dispatch-IsSound w id m none e i = i
dispatch-IsSound w id m (some q) e (b, h, t) =
    send-IsSound w id m q (w.sessions id) refl (b, h, t) (b id q e).1

open_associate-IsSound : (w : Dispatcher) → IsSound w → IsSound (open_associate w)
unfolding open_associate register_session
open_associate-IsSound w (b, h, t) = (
  write-Bounded w.dispatch_map (set_session w.sessions w.session_id_counter live)
      w.session_id_counter [] (set_session-Bounded _ w.sessions w.session_id_counter live tt b)
      (omega arith) (set_session-Active_self w.sessions w.session_id_counter live tt),
  set_session-Fresh w.sessions w.session_id_counter (w.session_id_counter + 1) live (omega arith)
      (λ j le. h j (omega (arith, le))),
  Waits-Active w.sessions w.session_id_counter live w.task tt t,
)

module _ (shard : ℕ → ℕ) where
  step-IsSound : (w t : Dispatcher) → Step shard w t → IsSound w → IsSound t
  unfolding dispatch unregister_session
  step-IsSound w _ (opened free) i = open_associate-IsSound w i
  step-IsSound w _ (dispatched id m e) i = dispatch-IsSound w id m (w.dispatch_map id) refl i
  step-IsSound w _ (resumed id m q e f short) (b, h, t) =
      put-IsSound w id m q (b, h, t) short (b id q f).1
  step-IsSound w _ (refused id m e f) (b, h, t) =
      absurd (Waits-refused w.sessions w.task id m e f t)
  step-IsSound w _ (received id m q e f) (b, h, t) = (
    write-Bounded w.dispatch_map w.sessions id q b (omega (arith, (b id (m ∷ q) f).0)) (rw e tt),
    h,
    t,
  )
  step-IsSound w _ (drop_begun id e) (b, h, t) = (
    set_session-Bounded w.dispatch_map w.sessions id dropping tt b,
    set_session-Fresh w.sessions id w.session_id_counter dropping
        (used-lt w.sessions w.session_id_counter id h (live-used _ e)) h,
    Waits-Active w.sessions id dropping w.task tt t,
  )
  step-IsSound w _ (unregistered id e free) (b, h, t) = (
    Bounded-dropped w.dispatch_map w.sessions id b,
    set_session-Fresh w.sessions id w.session_id_counter dropped
        (used-lt w.sessions w.session_id_counter id h (dropping-used _ e)) h,
    Waits-dropped shard w.sessions id w.task free t,
  )

  -- However sessions are opened, used and dropped, and datagrams come in: a session in the map has its
  -- receiver and at most 128 waiting messages, the numbers from the counter on are unused, so that a
  -- new session gets a number of its own, and the dispatcher never comes to the removal in `dispatch`,
  -- where it would wait on itself.
  pub Steps-IsSound : (w : Dispatcher) → Steps shard new_dispatcher w → IsSound w
  Steps-IsSound _ here = (λ id q e. absurd (cc (e)), λ id le. refl, tt)
  Steps-IsSound _ (there t u s x) = step-IsSound t u x (Steps-IsSound t s)
