-- ===== src/Socks/Canonical.antt =====
-- What a reader accepts is canonical (crates/ombrac-client/src/endpoint/socks/protocol.rs).
use mathlib.Core.Path.{subst}
use ombrac.Prelude.{
  ℕ, zero, suc, ◌+◌, ◌≤◌, ◌≡◌, refl, ap, ap₂, ◌%◌, ◌∙◌, inl, inr, [], ◌∷◌, ◌++◌, arith, ltb, ◌==◌,
  ==_iff, length, take, drop, ok, err, All, append_assoc, length-take, Bool-cases,
}
use ombrac.Net.{Bytes, IoResult, IsByte, IsU16}
use ombrac.Wire.{be_u16, put_u16}
use ombrac.Socks.{
  SocksAddress, buf_ipv4, buf_ipv6, buf_domain, from_buf, encode, atyp_ipv4, atyp_ipv6, atyp_domain,
}
use ombrac.Socks.Address.{IsSocks}

-- The name or IP address and the port that a reader cut off, put together again.
rebuild :
    (n k : ℕ) (buf : Bytes)
    → k ≡ n + 2
    → k ≤ length buf
    → All IsByte buf
    → take n buf ++ (put_u16 (be_u16 (drop n buf)) ++ drop k buf) ≡ buf
unfolding be_u16 put_u16
rebuild zero zero buf e h b = absurd (omega arith)
rebuild zero (suc zero) buf e h b = absurd (omega arith)
rebuild zero (suc (suc k)) [] e h b = absurd (omega arith)
rebuild zero (suc (suc k)) (x ∷ []) e h b = absurd (omega arith)
rebuild zero (suc (suc k)) (x ∷ y ∷ buf) e h (bx, (by, b)) =
    let zero_left : k ≡ 0 = omega arith in rw zero_left (ground arith)
rebuild (suc n) zero buf e h b = absurd (omega arith)
rebuild (suc n) (suc k) [] e h b = absurd (omega arith)
rebuild (suc n) (suc k) (x ∷ buf) e h (_, b) =
    ap (λ t. x ∷ t) (rebuild n k buf (omega arith) (omega arith) b)

be_u16-IsU16 : (buf : Bytes) → All IsByte buf → IsU16 (be_u16 buf)
unfolding be_u16
be_u16-IsU16 [] b = omega arith
be_u16-IsU16 (x ∷ []) (bx, b) = omega arith
be_u16-IsU16 (x ∷ y ∷ buf) (bx, (by, b)) = omega arith

All-take : (n : ℕ) (xs : Bytes) → All IsByte xs → All IsByte (take n xs)
All-take zero xs b = tt
All-take (suc n) [] b = tt
All-take (suc n) (x ∷ xs) (bx, b) = (bx, All-take n xs b)

All-drop : (n : ℕ) (xs : Bytes) → All IsByte xs → All IsByte (drop n xs)
All-drop zero xs b = b
All-drop (suc n) [] b = tt
All-drop (suc n) (x ∷ xs) (bx, b) = All-drop n xs b

-- `s` is the encoding of the address that was read, and the rest.
abbrev Accepts : Bytes → IoResult (SocksAddress × Bytes) → Type 0
Accepts s (ok (a, rest)) = (encode a ++ rest ≡ s) × IsSocks a
Accepts s (err e) = Unit

-- The parts of an address cut off at `n`.
parts_valid :
    (n : ℕ) (s : Bytes)
    → n + 2 ≤ length s
    → All IsByte s
    → (length (take n s) ≡ n) × All IsByte (take n s) × IsU16 (be_u16 (drop n s))
parts_valid n s h b =
    (omega (arith, length-take n s), All-take n s b, be_u16-IsU16 (drop n s) (All-drop n s b))

buf_ipv4-Accepts : (s : Bytes) → All IsByte s → Accepts (atyp_ipv4 ∷ s) (buf_ipv4 s)
unfolding buf_ipv4 encode
buf_ipv4-Accepts s b = elim (Bool-cases (ltb (length s) 6)) [
  | inl e ↦ rw e tt
  | inr e ↦
      let long : 6 ≤ length s = ground arith in
      rw e (
        ap (λ t. atyp_ipv4 ∷ t) (append_assoc (take 4 s) _ _ ∙ rebuild 4 6 s refl long b),
        parts_valid 4 s long b,
      )
]

buf_ipv6-Accepts : (s : Bytes) → All IsByte s → Accepts (atyp_ipv6 ∷ s) (buf_ipv6 s)
unfolding buf_ipv6 encode
buf_ipv6-Accepts s b = elim (Bool-cases (ltb (length s) 18)) [
  | inl e ↦ rw e tt
  | inr e ↦
      let long : 18 ≤ length s = ground arith in
      rw e (
        ap (λ t. atyp_ipv6 ∷ t) (append_assoc (take 16 s) _ _ ∙ rebuild 16 18 s refl long b),
        (parts_valid 16 s long b, refl, refl),
      )
]

buf_domain-Accepts : (s : Bytes) → All IsByte s → Accepts (atyp_domain ∷ s) (buf_domain s)
unfolding buf_domain encode
buf_domain-Accepts [] b = tt
buf_domain-Accepts (len ∷ s) (bl, b) = elim (Bool-cases (len == 0)) [
  | inl z ↦ rw z tt
  | inr nz ↦ elim (Bool-cases (ltb (length s) (len + 2))) [
    | inl e ↦ rw (nz, e) tt
    | inr e ↦
        let long : len + 2 ≤ length s = ground arith in
        let (count, bytes, port) = parts_valid len s long b in
        let whole : length (take len s) % 256 ≡ len = omega arith in
        rw (nz, e)
          (
            ap₂ (λ l t. atyp_domain ∷ l ∷ t) whole
                (append_assoc (take len s) _ _ ∙ rebuild len (len + 2) s refl long b),
            (ground arith, omega arith, bytes, port),
          )
  ]
]

from_buf-Accepts : (s : Bytes) → All IsByte s → Accepts s (from_buf s)
unfolding from_buf
from_buf-Accepts [] b = tt
from_buf-Accepts (atyp ∷ s) (_, b) = elim (Bool-cases (atyp == atyp_ipv4)) [
  | inl e ↦ rw (e, (==_iff atyp atyp_ipv4).0 e) (buf_ipv4-Accepts s b)
  | inr e ↦ elim (Bool-cases (atyp == atyp_ipv6)) [
    | inl e' ↦ rw (e, e', (==_iff atyp atyp_ipv6).0 e') (buf_ipv6-Accepts s b)
    | inr e' ↦ elim (Bool-cases (atyp == atyp_domain)) [
      | inl e'' ↦ rw (e, e', e'', (==_iff atyp atyp_domain).0 e'') (buf_domain-Accepts s b)
      | inr e'' ↦ rw (e, e', e'') tt
    ]
  ]
]

-- What `from_buf` accepts is the encoding of a well-formed address, with the rest behind it, so an
-- address has one encoding only.
pub from_buf-ok :
    (s : Bytes) (a : SocksAddress) (rest : Bytes)
    → All IsByte s
    → from_buf s ≡ ok (a, rest)
    → (encode a ++ rest ≡ s) × IsSocks a
from_buf-ok s a rest b e = subst (Accepts s) e (from_buf-Accepts s b)
