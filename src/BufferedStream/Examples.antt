-- ===== src/BufferedStream/Examples.antt =====
-- Three octets read with room for two at a time, before a stream that gives one octet at a time
-- (crates/ombrac-client/src/connection/stream.rs), and the theorem at this input.
use ombrac.Prelude.{ℕ, suc, List, [], ◌∷◌, ◌++◌, ◌≡◌, refl, drop, ok}
use ombrac.Net.{Bytes, IoResult, Poll, ready}
use ombrac.BufferedStream.{BufferedStream, new, release, pass_on, poll_read, read_all, read_inner}
use ombrac.BufferedStream.Content.{remaining, read_all_lem}

-- The stream gives its own position.
abbrev counting : ℕ → ℕ → ℕ × Poll (IoResult Bytes)
counting n room = (suc n, ready (ok (n ∷ [])))

abbrev test_stream : BufferedStream ℕ
test_stream = new 7 (1 ∷ 2 ∷ 3 ∷ [])

abbrev test_rooms : List ℕ
test_rooms = 2 ∷ 2 ∷ 2 ∷ 2 ∷ []

test_read : (read_all counting test_stream test_rooms).1 ≡ 1 ∷ 2 ∷ 3 ∷ 7 ∷ 8 ∷ []
unfolding read_all poll_read release pass_on
test_read = refl

read_all_lem_example :
    (k : ℕ) × ((read_all counting test_stream test_rooms).0.stream
      ≡ (read_inner counting 7 (drop k test_rooms)).0)
    × ((read_all counting test_stream test_rooms).1
          ++ remaining (read_all counting test_stream test_rooms).0
        ≡ (1 ∷ 2 ∷ 3 ∷ []) ++ (read_inner counting 7 (drop k test_rooms)).1)
read_all_lem_example = read_all_lem counting test_stream test_rooms
