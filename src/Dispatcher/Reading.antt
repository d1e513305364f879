-- ===== src/Dispatcher/Reading.antt =====
-- The delay of the client's dispatcher (run in
-- crates/ombrac-client/src/connection/datagram.rs).
use native.Mathlib.Nat.{mul-le-mul_left, mul_assoc, pow-succ'}
use ombrac.Prelude.{
  Bool-cases, leb, ℕ, zero, suc, List, [], ◌∷◌, ◌++◌, ◌*◌, ◌^◌, ◌≤◌, min, ◌≡◌, inl, inr, refl, ap,
  ◌∙◌, arith, replicate, ok, err,
}
use ombrac.Net.{Bytes, IoError, IoResult}
use ombrac.Protocol.{Address}
use ombrac.Dispatcher.{datagram_initial_delay, datagram_max_delay, run_round}

abbrev pub Datagram : Type 0
Datagram = ℕ × Address × Bytes

-- The rounds of `run`: the delay at the end.
unfoldable pub run_rounds : ℕ → List (IoResult Datagram) → ℕ
run_rounds delay [] = delay
run_rounds delay (r ∷ rs) = run_rounds (run_round delay r).0 rs

abbrev pub IsDelay : ℕ → Type 0
IsDelay d = (datagram_initial_delay ≤ d) × (d ≤ datagram_max_delay)

run_round-IsDelay : (d : ℕ) (r : IoResult Datagram) → IsDelay d → IsDelay (run_round d r).0
unfolding run_round
run_round-IsDelay d (ok (s, a, b)) h = (omega arith, omega arith)
run_round-IsDelay d (err e) (lo, hi) = (omega (arith, lo), omega arith)

run_rounds-IsDelay : (d : ℕ) (rs : List (IoResult Datagram)) → IsDelay d → IsDelay (run_rounds d rs)
unfolding run_rounds
run_rounds-IsDelay d [] h = h
run_rounds-IsDelay d (r ∷ rs) h = run_rounds-IsDelay (run_round d r).0 rs (run_round-IsDelay d r h)

min-mul : (a m : ℕ) → 1 ≤ m → min (min a 60 * m) 60 ≡ min (a * m) 60
min-mul a m h = elim (Bool-cases (leb a 60)) [
  | inl t ↦ let small : min a 60 ≡ a = ground arith in rw small refl
  | inr f ↦
      let large : min a 60 ≡ 60 = ground arith in
      let more : m * 60 ≤ m * a = mul-le-mul_left m (ground arith) in rw large (omega arith)
]

pow-pos : (n : ℕ) → 1 ≤ 2 ^ n
pow-pos zero = omega arith
pow-pos (suc n) = omega (arith, pow-pos n)

failures :
    (d n : ℕ) (e : IoError) → IsDelay d → run_rounds d (replicate n (err e)) ≡ min (d * 2 ^ n) 60
unfolding run_rounds run_round
failures d zero e h = omega arith
failures d (suc n) e (lo, hi) =
    failures (min (d * 2) 60) n e (omega arith, omega arith)
    ∙ min-mul (d * 2) (2 ^ n) (pow-pos n)
    ∙ ap (λ k. min k 60) (rw (pow-succ' 2 n) (mul_assoc d 2 (2 ^ n)))

run_rounds-append :
    (d : ℕ) (rs qs : List (IoResult Datagram))
    → run_rounds d (rs ++ qs) ≡ run_rounds (run_rounds d rs) qs
unfolding run_rounds
run_rounds-append d [] qs = refl
run_rounds-append d (r ∷ rs) qs = run_rounds-append (run_round d r).0 rs qs

-- Whatever was read before, the delay lies between one second and sixty, and after a datagram and n
-- failures in a row it is 2 ^ n seconds, up to sixty.
pub run_rounds_lem :
    (rs : List (IoResult Datagram)) (d : Datagram) (n : ℕ) (e : IoError)
    → IsDelay (run_rounds datagram_initial_delay rs)
      × (run_rounds datagram_initial_delay (rs ++ ok d ∷ replicate n (err e))
          ≡ min (2 ^ n) datagram_max_delay)
unfolding run_rounds run_round
run_rounds_lem rs d n e = (
  run_rounds-IsDelay datagram_initial_delay rs (omega arith, omega arith),
  run_rounds-append datagram_initial_delay rs (ok d ∷ replicate n (err e))
      ∙ failures 1 n e (omega arith, omega arith)
      ∙ ap (λ k. min k 60) (omega arith),
)
