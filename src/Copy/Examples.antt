-- ===== src/Copy/Examples.antt =====
-- One direction ends and the other is cancelled (crates/ombrac-transport/src/io.rs), and the theorems
-- at this schedule.
use ombrac.Prelude.{◌≡◌, refl, some, List, [], ◌∷◌, ok, err}
use ombrac.Net.{Bytes, io_error, connection_reset}
use ombrac.Copy.{
  Turn, or_end, write_chunk, after_read, copy_turn, Both, Side, from_a, from_b, step, run,
  CopyBidirectionalStats, combine, begin, copy_bidirectional,
}

abbrev read_turn : Bytes → Turn
read_turn b = record { reading = ok b; writing = ok tt }

abbrev reset_turn : Turn
reset_turn = record { reading = err (io_error connection_reset ""); writing = ok tt }

-- Two octets go one way, then the connection is reset, and what comes the other way is not copied.
abbrev test_schedule : List (Side × Turn)
test_schedule =
    (from_a, read_turn (1 ∷ 2 ∷ [])) ∷ (from_a, reset_turn) ∷ (from_b, read_turn (3 ∷ [])) ∷ []

abbrev test_stats : CopyBidirectionalStats
test_stats = record { a_to_b_bytes = 2; b_to_a_bytes = 0 }

test_copy : copy_bidirectional test_schedule ≡ some (ok test_stats)
unfolding copy_bidirectional run step copy_turn after_read write_chunk or_end combine
test_copy = refl

abbrev half_done : Both
half_done = record begin {
  a_to_b = record { copied = 2; written = 1 ∷ 2 ∷ []; result = some (ok 2) };
}
