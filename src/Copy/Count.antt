-- ===== src/Copy/Count.antt =====
-- What the statistics of a copy count, and how it ends (crates/ombrac-transport/src/io.rs).
use ombrac.Prelude.{
  ℕ, ◌≡◌, refl, sym, ap, ◌∙◌, true, false, Bool, Option, none, some, List, [], ◌∷◌, is_some, length,
  length-append, arith, Result, ok, err,
}
use ombrac.Net.{Bytes, IoError, IoResult}
use ombrac.Copy.{
  Turn, Copied, Half, or_end, write_chunk, after_read, copy_turn, Both, token, Side, from_a, from_b,
  step, run, CopyBidirectionalStats, bytes_of, combine, join, begin, copy_bidirectional,
}

-- The result, once there is one, holds the count of what was written.
abbrev pub Counts : ℕ → Option Copied → Type 0
Counts n none = Unit
Counts n (some r) = bytes_of r ≡ n

abbrev pub Counted : Half → Type 0
Counted h = (h.copied ≡ length h.written) × Counts (length h.written) h.result

write_chunk-Counted :
    (h : Half) (chunk : Bytes) (w : IoResult (Unit {0}))
    → h.result ≡ none
    → h.copied ≡ length h.written
    → Counted (write_chunk h chunk w)
unfolding write_chunk
write_chunk-Counted h chunk (ok u) e c = (omega (arith, length-append h.written chunk, c), rw e tt)
write_chunk-Counted h chunk (err x) e c = (c, c)

after_read-Counted :
    (h : Half) (r : IoResult Bytes) (w : IoResult (Unit {0}))
    → h.result ≡ none
    → h.copied ≡ length h.written
    → Counted (after_read h r w)
unfolding after_read
after_read-Counted h (err x) w e c = (c, c)
after_read-Counted h (ok []) w e c = (c, c)
after_read-Counted h (ok (x ∷ xs)) w e c = write_chunk-Counted h (x ∷ xs) w e c

copy_turn-Counted :
    (cancelled : Bool) (h : Half) (r : Option Copied) (t : Turn)
    → h.result ≡ r
    → Counted h
    → Counted (copy_turn cancelled h r t)
unfolding copy_turn
copy_turn-Counted cancelled h (some r) t e c = c
copy_turn-Counted true h none t e (c, k) = (c, c)
copy_turn-Counted false h none t e (c, k) = after_read-Counted h (or_end t.reading) t.writing e c

run-Counted :
    (s : Both) (l : List (Side × Turn))
    → Counted s.a_to_b
    → Counted s.b_to_a
    → Counted (run s l).a_to_b × Counted (run s l).b_to_a
unfolding run step
run-Counted s [] a b = (a, b)
run-Counted s ((from_a, t) ∷ rest) a b =
    run-Counted (step s (from_a, t)) rest
      (copy_turn-Counted (token s) s.a_to_b s.a_to_b.result t refl a) b
run-Counted s ((from_b, t) ∷ rest) a b =
    run-Counted (step s (from_b, t)) rest a
      (copy_turn-Counted (token s) s.b_to_a s.b_to_a.result t refl b)

-- The statistics, of a success or beside an error.
abbrev pub stats_of :
    Result CopyBidirectionalStats (IoError × CopyBidirectionalStats) → CopyBidirectionalStats
stats_of (ok stats) = stats
stats_of (err (e, stats)) = stats

combine-stats :
    (a b : Copied)
    → ((stats_of (combine a b)).a_to_b_bytes ≡ bytes_of a)
      × ((stats_of (combine a b)).b_to_a_bytes ≡ bytes_of b)
unfolding combine
combine-stats (err (x, i)) b = (refl, refl)
combine-stats (ok i) (err (x, j)) = (refl, refl)
combine-stats (ok i) (ok j) = (refl, refl)

join-stats :
    (a b : Option Copied) (n k : ℕ)
    (r : Result CopyBidirectionalStats (IoError × CopyBidirectionalStats))
    → join a b ≡ some r
    → Counts n a
    → Counts k b
    → ((stats_of r).a_to_b_bytes ≡ n) × ((stats_of r).b_to_a_bytes ≡ k)
join-stats none b n k r e ca cb = absurd (cc (e))
join-stats (some a) none n k r e ca cb = absurd (cc (e))
join-stats (some a) (some b) n k r e ca cb =
    let same : combine a b ≡ r = cc (e) in
    let (p, q) = combine-stats a b in
    (
      ap (λ u. (stats_of u).a_to_b_bytes) (sym same) ∙ p ∙ ca,
      ap (λ u. (stats_of u).b_to_a_bytes) (sym same) ∙ q ∙ cb,
    )

-- Under every schedule, when copying returns, its statistics are the numbers of octets that were
-- written in each direction, on success and beside an error.
pub copy_bidirectional-stats :
    (schedule : List (Side × Turn))
    (r : Result CopyBidirectionalStats (IoError × CopyBidirectionalStats))
    → copy_bidirectional schedule ≡ some r
    → ((stats_of r).a_to_b_bytes ≡ length (run begin schedule).a_to_b.written)
      × ((stats_of r).b_to_a_bytes ≡ length (run begin schedule).b_to_a.written)
unfolding copy_bidirectional
copy_bidirectional-stats schedule r e =
    let (a, b) = run-Counted begin schedule (refl, tt) (refl, tt) in join-stats _ _ _ _ r e a.1 b.1

ends :
    (h : Half) (r : Option Copied) (t : Turn)
    → h.result ≡ r
    → (is_some (copy_turn true h r t).result ≡ true) × ((copy_turn true h r t).written ≡ h.written)
unfolding copy_turn
ends h (some r) t e = (rw e refl, refl)
ends h none t e = (refl, refl)

-- Once either direction has returned, whatever the reason, the other one returns at its next turn
-- without writing anything that it reads: copying ends.
pub step-ends :
    (s : Both) (t : Turn)
    → token s ≡ true
    → ((is_some (step s (from_a, t)).a_to_b.result ≡ true)
        × ((step s (from_a, t)).a_to_b.written ≡ s.a_to_b.written))
      × ((is_some (step s (from_b, t)).b_to_a.result ≡ true)
          × ((step s (from_b, t)).b_to_a.written ≡ s.b_to_a.written))
unfolding step
step-ends s t e = rw e (ends s.a_to_b s.a_to_b.result t refl, ends s.b_to_a s.b_to_a.result t refl)
