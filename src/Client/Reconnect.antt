-- ===== src/Client/Reconnect.antt =====
-- What a reconnection does to the client's state (reconnect and with_retry in
-- crates/ombrac-client/src/connection/mod.rs).
use ombrac.Prelude.{
  ℕ, true, false, some, List, [], ◌∷◌, ◌+◌, ◌-◌, ◌≤◌, ◌<◌, ◌≡◌, ◌≢◌, ◌⊎◌, inl, inr, refl,
  Bool-cases, Result-cases, ltb, ◌==◌, ok, err, arith, ◌∙◌, ap,
}
use ombrac.Net.{io_error, IoResult, other}
use ombrac.Client.{
  initial_reconnect_backoff, max_reconnect_backoff, ClientConnection, new_connection, Hello,
  Attempt, throttled, attempt, attempt_result, settle, started, reconnect, with_retry, Others,
  is_connection_error, next_backoff,
}
use ombrac.Client.Backoff.{next_backoff-bounds}

-- The backoff is between its bounds, and the connection's number counts the reconnections that
-- succeeded, each of which was attempted.
pub record IsValid {C : Type 0} (s : ClientConnection C) : Type 0 where
  pub low : initial_reconnect_backoff ≤ s.backoff
  pub high : s.backoff ≤ max_reconnect_backoff
  pub numbered : s.connection_id ≡ s.counters.reconnect_succeeded
  pub counted : s.counters.reconnect_succeeded ≤ s.counters.reconnect_attempts

pub new-IsValid : {C : Type 0} (conn : C) → IsValid (new_connection conn)
new-IsValid conn = record {
  low = omega arith;
  high = omega arith;
  numbered = refl;
  counted = omega arith;
}

module _ {C : Type 0} (h : Hello) where
  attempt-IsValid :
      (s : ClientConnection C) (a : Attempt C)
      → IsValid s
      → s.counters.reconnect_succeeded < s.counters.reconnect_attempts
      → IsValid (attempt h s a).0
  unfolding attempt settle
  attempt-IsValid s a v lt =
      let (low, high) = next_backoff-bounds s.backoff a.nanos v.low in
      let failed : IsValid (record s { backoff = next_backoff s.backoff a.nanos }) = record {
        low = low;
        high = high;
        numbered = v.numbered;
        counted = v.counted;
      } in
      elim (Result-cases (attempt_result h a)) [
        | inr (e, q) ↦ rw q failed
        | inl (conn, q) ↦ rw q (record {
          low = omega arith;
          high = omega arith;
          numbered = ap (λ n. n + 1) v.numbered;
          counted = omega (arith, lt);
        })
      ]

  -- Every call of reconnect keeps the state well formed: the backoff stays between one second and
  -- sixty, the connection's number is the count of successes, and no success is without an attempt.
  pub reconnect-IsValid :
      (s : ClientConnection C) (old_conn_id : ℕ) (a : Attempt C)
      → IsValid s
      → IsValid (reconnect h s old_conn_id a).0
  unfolding reconnect
  reconnect-IsValid s old_conn_id a v = elim (Bool-cases (s.connection_id == old_conn_id)) [
    | inr e ↦ rw e v
    | inl e ↦ elim (Bool-cases (throttled s.last_attempt s.backoff a.now)) [
      | inl t ↦ rw (e, t) v
      | inr t ↦
          rw (e, t)
            (attempt-IsValid (started h s a.now) a
              (record {
                low = v.low;
                high = v.high;
                numbered = v.numbered;
                counted = omega (arith, v.counted);
              })
              (omega (arith, v.counted)))
    ]
  ]

  -- A call that comes before the backoff has passed is refused, and it changes nothing.
  pub reconnect-early :
      (s : ClientConnection C) (a : Attempt C) (last : ℕ)
      → s.last_attempt ≡ some last
      → a.now - last < s.backoff
      → reconnect h s s.connection_id a ≡ (s, err (io_error other "reconnect throttled"))
  unfolding reconnect throttled
  reconnect-early s a last e lt =
      let same : (s.connection_id == s.connection_id) ≡ true = ground arith in
      let early : ltb (a.now - last) s.backoff ≡ true = ground arith in rw (same, e, early) refl

  attempt-number :
      (s : ClientConnection C) (a : Attempt C)
      → ((attempt h s a).0.connection_id ≡ s.connection_id)
          × ((attempt h s a).0.connection ≡ s.connection)
        ⊎ ((attempt h s a).0.connection_id ≡ s.connection_id + 1)
  unfolding attempt settle
  attempt-number s a = elim (Result-cases (attempt_result h a)) [
    | inr (e, q) ↦ rw q (inl (refl, refl))
    | inl (conn, q) ↦ rw q (inr refl)
  ]

  -- The tasks that lost the connection with the number `old_conn_id` call reconnect in some order.
  unfoldable pub reconnect_all : ClientConnection C → ℕ → List (Attempt C) → ClientConnection C
  unfolding reconnect
  reconnect_all s old_conn_id [] = s
  reconnect_all s old_conn_id (a ∷ rest) =
      reconnect_all (reconnect h s old_conn_id a).0 old_conn_id rest

  reconnect-stale :
      (s : ClientConnection C) (n : ℕ) (a : Attempt C)
      → s.connection_id ≢ n
      → reconnect h s n a ≡ (s, ok tt)
  unfolding reconnect
  reconnect-stale s n a ne =
      let differ : (s.connection_id == n) ≡ false = ground arith in rw differ refl

  reconnect_all-stale :
      (s : ClientConnection C) (n : ℕ) (l : List (Attempt C))
      → s.connection_id ≢ n
      → reconnect_all s n l ≡ s
  unfolding reconnect_all
  reconnect_all-stale s n [] ne = refl
  reconnect_all-stale s n (a ∷ rest) ne =
      rw (reconnect-stale s n a ne) (reconnect_all-stale s n rest ne)

  reconnect-number :
      (s : ClientConnection C) (n : ℕ) (a : Attempt C)
      → ((reconnect h s n a).0.connection_id ≡ s.connection_id)
          × ((reconnect h s n a).0.connection ≡ s.connection)
        ⊎ ((reconnect h s n a).0.connection_id ≡ s.connection_id + 1)
  unfolding reconnect
  reconnect-number s n a = elim (Bool-cases (s.connection_id == n)) [
    | inr e ↦ rw e (inl (refl, refl))
    | inl e ↦ elim (Bool-cases (throttled s.last_attempt s.backoff a.now)) [
      | inl t ↦ rw (e, t) (inl (refl, refl))
      | inr t ↦ rw (e, t) (attempt-number (started h s a.now) a)
    ]
  ]

  -- When any number of tasks lose the same connection, their calls of reconnect, in any order and
  -- with any outcomes, make one new connection at most: the number stays with the connection, or it
  -- grows by one.
  pub reconnect_all-once :
      (s : ClientConnection C) (n : ℕ) (l : List (Attempt C))
      → s.connection_id ≡ n
      → ((reconnect_all s n l).connection_id ≡ n)
          × ((reconnect_all s n l).connection ≡ s.connection)
        ⊎ ((reconnect_all s n l).connection_id ≡ n + 1)
  unfolding reconnect_all
  reconnect_all-once s n [] e = inl (e, refl)
  reconnect_all-once s n (a ∷ rest) e = elim (reconnect-number s n a) [
    | inl (same, kept) ↦ elim (reconnect_all-once (reconnect h s n a).0 n rest (same ∙ e)) [
      | inl (number, conn) ↦ inl (number, conn ∙ kept)
      | inr number ↦ inr number
    ]
    | inr next ↦
        let stale : (reconnect h s n a).0.connection_id ≢ n = λ q. omega (arith, next, e, q) in
        rw (reconnect_all-stale (reconnect h s n a).0 n rest stale) (inr (next ∙ ap (λ m. m + 1) e))
  ]

  -- with_retry gives a result from its first call, on the connection that it found, or from its
  -- second, after a connection error and a reconnection without error for the number that it has
  -- loaded, and on the connection that is there then.
  pub with_retry_ok :
      {R : Type 0} (operation : ℕ → C → IoResult R) (others : Others C) (a : Attempt C)
      (s t : ClientConnection C) (r : R)
      → with_retry h operation others a s ≡ (t, ok r)
      → ((operation 0 s.connection ≡ ok r) × (t ≡ others.between_loads s))
        ⊎ ((operation 1 t.connection ≡ ok r)
            × ((u : ClientConnection C) × (reconnect h
                    (others.before_lock (others.between_loads s))
                    (others.between_loads s).connection_id
                    a
                  ≡ (u, ok tt))
                × (t ≡ others.after_lock u)))
  unfolding with_retry
  with_retry_ok operation others a s t r =
      let loaded = others.between_loads s in
      elim (Result-cases (operation 0 s.connection)) [
        | inl (x, q) ↦ simp (q) (λ e. inl (cc (e), cc (e)))
        | inr (x, q) ↦ elim (Bool-cases (is_connection_error x)) [
          | inr b ↦ simp (q, b) (λ e. absurd (cc (e)))
          | inl b ↦
              elim (Result-cases
                (reconnect h (others.before_lock loaded) loaded.connection_id a).1) [
                  | inr (y, k) ↦ simp (q, b, k) (λ e. absurd (cc (e)))
                  | inl (u, k) ↦
                      simp (q, b, k)
                        (λ e. inr (
                          cc (e),
                          (
                            (reconnect h (others.before_lock loaded) loaded.connection_id a).0,
                            cc (k),
                            cc (e),
                          ),
                        ))
                ]
        ]
      ]
