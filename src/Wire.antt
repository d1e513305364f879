-- ===== src/Wire.antt =====
-- Reading octets: tokio's AsyncReadExt on a stream that ends (`read_u8`, `read_exact`), and the big
-- endian numbers of two octets. A stream is the list of the octets that it still gives.
use ombrac.Prelude.{
  zero, suc, ◌<◌, ◌≤◌, ◌⊎◌, refl, ℕ, ◌+◌, ◌*◌, ◌/◌, ◌%◌, ◌≡◌, [], ◌∷◌, ◌++◌, ok, err, ltb,
  if◌then◌else◌, length, take, drop, arith, take-append_exact, drop-append_exact, length-append,
}
use ombrac.Net.{Bytes, IoResult, io_error, unexpected_eof, IsU16}

unfoldable pub read_exact : ℕ → Bytes → IoResult (Bytes × Bytes)
read_exact n s =
    if ltb (length s) n then err (io_error unexpected_eof "early eof") else ok (take n s, drop n s)

unfoldable pub read_u8 : Bytes → IoResult (ℕ × Bytes)
read_u8 [] = err (io_error unexpected_eof "early eof")
read_u8 (b ∷ s) = ok (b, s)

-- `u16::from_be_bytes` of the first two octets, and `put_u16`.
unfoldable pub be_u16 : Bytes → ℕ
be_u16 [] = 0
be_u16 (a ∷ []) = a
be_u16 (a ∷ b ∷ s) = a * 256 + b

unfoldable pub put_u16 : ℕ → Bytes
put_u16 n = (n / 256 % 256) ∷ (n % 256) ∷ []

pub be_u16-put_u16 : (n : ℕ) (rest : Bytes) → IsU16 n → be_u16 (put_u16 n ++ rest) ≡ n
unfolding be_u16 put_u16
be_u16-put_u16 n rest h = omega arith

pub read_exact-append :
    (xs rest : Bytes) (n : ℕ) → length xs ≡ n → read_exact n (xs ++ rest) ≡ ok (xs, rest)
unfolding read_exact
read_exact-append xs rest n e =
    rw (← e, take-append_exact xs rest, drop-append_exact xs rest)
      (ground (arith, length-append xs rest))

-- Two octets behind `m` others are in the first `m + 2`.
pub be_u16-drop-take :
    (m k : ℕ) (xs : Bytes) → k ≡ m + 2 → be_u16 (drop m (take k xs)) ≡ be_u16 (drop m xs)
unfolding be_u16
be_u16-drop-take m zero xs e = absurd (omega arith)
be_u16-drop-take m (suc zero) xs e = absurd (omega arith)
be_u16-drop-take zero (suc (suc k)) [] e = refl
be_u16-drop-take zero (suc (suc k)) (x ∷ []) e = refl
be_u16-drop-take zero (suc (suc k)) (x ∷ y ∷ xs) e = refl
be_u16-drop-take (suc m) (suc (suc k)) [] e = refl
be_u16-drop-take (suc m) (suc (suc k)) (x ∷ xs) e = be_u16-drop-take m (suc k) xs (omega arith)

-- `read_exact` in its two cases.
pub read_exact_cases :
    (n : ℕ) (s : Bytes)
    → ((length s < n) × (read_exact n s ≡ err (io_error unexpected_eof "early eof")))
      ⊎ ((n ≤ length s) × (read_exact n s ≡ ok (take n s, drop n s)))
unfolding read_exact
read_exact_cases n s = ground arith
