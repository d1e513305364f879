-- ===== src/Copy.antt =====
-- crates/ombrac-transport/src/io.rs: copying between two streams in both directions. Each direction is
-- a loop, and the two run as tasks of one join: a schedule says whose loop turns next and what its
-- read and its write give.
pub mod Count
mod Examples
use ombrac.Prelude.{
  ℕ, Bool, true, false, Option, none, some, List, [], ◌∷◌, ◌++◌, ◌+◌, ◌||◌, is_some, if◌then◌else◌,
  length, Result, ok, err,
}
use ombrac.Net.{Bytes, ErrorKind, connection_reset, connection_aborted, IoError, IoResult}

-- One turn of the loop of copy_with_cancel, when the token is not cancelled: what `read` gave, and
-- what `write_all` gives for it. A read gives at most the buffer's 8192 octets.
pub record Turn : Type 0 where
  pub reading : IoResult Bytes
  pub writing : IoResult (Unit {0})

abbrev pub Copied : Type 0
Copied = Result ℕ (IoError × ℕ)

-- One call of copy_with_cancel: its counter, what it wrote, and its result once it has returned.
pub record Half : Type 0 where
  pub copied : ℕ
  pub written : Bytes
  pub result : Option Copied

abbrev pub ended : Half → Copied → Half
ended h r = record h { result = some r }

-- `Err(e)` of a reset or aborted connection is read as the end of the stream.
unfoldable pub or_end : IoResult Bytes → IoResult Bytes
or_end (ok b) = ok b
or_end (err e) = elim e.kind [ connection_reset ↦ ok [] | connection_aborted ↦ ok [] | _ ↦ err e ]

unfoldable pub write_chunk : Half → Bytes → IoResult (Unit {0}) → Half
write_chunk h chunk (ok u) = record h {
  copied = h.copied + length chunk;
  written = h.written ++ chunk;
}
write_chunk h chunk (err e) = ended h (err (e, h.copied))

unfoldable pub after_read : Half → IoResult Bytes → IoResult (Unit {0}) → Half
after_read h (err e) writing = ended h (err (e, h.copied))
after_read h (ok []) writing = ended h (ok h.copied)
after_read h (ok (x ∷ xs)) writing = write_chunk h (x ∷ xs) writing

-- A turn of copy_with_cancel, whose select looks at the token first.
unfoldable pub copy_turn : Bool → Half → Option Copied → Turn → Half
copy_turn cancelled h (some r) t = h
copy_turn true h none t = ended h (ok h.copied)
copy_turn false h none t = after_read h (or_end t.reading) t.writing

pub record Both : Type 0 where
  pub a_to_b : Half
  pub b_to_a : Half

-- The token is cancelled when either direction has returned.
abbrev pub token : Both → Bool
token s = is_some s.a_to_b.result || is_some s.b_to_a.result

pub data Side : Type 0 where
  from_a from_b : Side

unfoldable pub step : Both → Side × Turn → Both
step s (from_a, t) = record s { a_to_b = copy_turn (token s) s.a_to_b s.a_to_b.result t }
step s (from_b, t) = record s { b_to_a = copy_turn (token s) s.b_to_a s.b_to_a.result t }

unfoldable pub run : Both → List (Side × Turn) → Both
run s [] = s
run s (x ∷ xs) = run (step s x) xs

pub record CopyBidirectionalStats : Type 0 where
  pub a_to_b_bytes : ℕ
  pub b_to_a_bytes : ℕ

abbrev pub bytes_of : Copied → ℕ
bytes_of (ok n) = n
bytes_of (err (e, n)) = n

-- The end of copy_bidirectional: an error of the first direction goes before one of the second.
unfoldable pub combine :
    Copied → Copied → Result CopyBidirectionalStats (IoError × CopyBidirectionalStats)
combine a b =
    let stats : CopyBidirectionalStats = record {
      a_to_b_bytes = bytes_of a;
      b_to_a_bytes = bytes_of b;
    } in
    elim a [
      | err (e, n) ↦ err (e, stats)
      | ok n ↦ elim b [ err (e, k) ↦ err (e, stats) | ok k ↦ ok stats ]
    ]

abbrev pub join :
    Option Copied
    → Option Copied
    → Option (Result CopyBidirectionalStats (IoError × CopyBidirectionalStats))
join (some a) (some b) = some (combine a b)
join (some a) none = none
join none b = none

abbrev pub begin : Both
begin = record {
  a_to_b = record { copied = 0; written = []; result = none };
  b_to_a = record { copied = 0; written = []; result = none };
}

-- copy_bidirectional under a schedule; `none` while a direction has not returned.
unfoldable pub copy_bidirectional :
    List (Side × Turn) → Option (Result CopyBidirectionalStats (IoError × CopyBidirectionalStats))
copy_bidirectional schedule = let s = run begin schedule in join s.a_to_b.result s.b_to_a.result
