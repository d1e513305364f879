-- ===== src/Protocol/Parse.antt =====
-- Addresses read from text (`Address: TryFrom<&str>`, crates/ombrac/src/protocol.rs).
use ombrac.Prelude.{
  ℕ, zero, suc, ◌+◌, ◌-◌, ◌*◌, ◌/◌, ◌%◌, ◌^◌, ◌≤◌, ◌<◌, ◌≡◌, refl, ap, ◌∙◌, sym, ◌≢◌, ◌⊎◌, inl, inr,
  Option, none, some, [], ◌∷◌, ◌++◌, arith, length, All, ok, err, ◌==◌, if◌then◌else◌, Option-cases,
}
use native.Mathlib.Decide.{dec_lt}
use ombrac.Net.{Bytes, SocketAddr, invalid_input, IoError, io_error}
use ombrac.Protocol.{
  domain, rsplit_once, parse_digits, parse_u16, domain_address, split_address, try_from,
  max_domain_length, display_domain, decimal, decimal_loop,
}

abbrev NoColon : Bytes → Type 0
NoColon = All (λ c. c ≢ 58)

rsplit_once-none : (ps : Bytes) → NoColon ps → rsplit_once 58 ps ≡ none
unfolding rsplit_once
rsplit_once-none [] h = refl
rsplit_once-none (c ∷ ps) (ne, h) = rw (rsplit_once-none ps h) (ground arith)

rsplit_once-append :
    (host ps : Bytes) → NoColon ps → rsplit_once 58 (host ++ 58 ∷ ps) ≡ some (host, ps)
unfolding rsplit_once
rsplit_once-append [] ps h = rw (rsplit_once-none ps h)
rsplit_once-append (c ∷ host) ps h = rw (rsplit_once-append host ps h)

last_colon :
    (c : ℕ) (v front back : Bytes)
    → if◌then◌else◌ {A = Option (Bytes × Bytes)} (c == 58) (some ([], v)) none ≡ some (front, back)
    → (c ∷ v) ≡ front ++ 58 ∷ back
last_colon c v [] back e = ground arith
last_colon c v (d ∷ front) back e = ground arith

later_colon :
    (c : ℕ) (v a b front back : Bytes)
    → v ≡ a ++ 58 ∷ b
    → ◌≡◌ {A = Option (Bytes × Bytes)} (some (c ∷ a, b)) (some (front, back))
    → (c ∷ v) ≡ front ++ 58 ∷ back
later_colon c v a b [] back h e = cc
later_colon c v a b (d ∷ front) back h e = ground arith

rsplit_once-some :
    (v front back : Bytes) → rsplit_once 58 v ≡ some (front, back) → v ≡ front ++ 58 ∷ back
unfolding rsplit_once
rsplit_once-some [] front back e = cc
rsplit_once-some (c ∷ v) front back e = elim (Option-cases (rsplit_once 58 v)) [
  | inl n ↦ last_colon c v front back (rw (n, rsplit_once) at e)
  | inr ((a, b), s) ↦
      later_colon c v a b front back (rsplit_once-some v a b s) (rw (s, rsplit_once) at e)
]

parse_digits-NoColon : (acc : ℕ) (ps : Bytes) {p : ℕ} → parse_digits acc ps ≡ some p → NoColon ps
unfolding parse_digits
parse_digits-NoColon acc [] e = tt
parse_digits-NoColon acc (c ∷ ps) {p} e =
    ground (arith, parse_digits-NoColon (acc * 10 + (c - 48)) ps {p = p})

parse_digits-lt :
    (acc : ℕ) (ps : Bytes) {p : ℕ} → acc < 65536 → parse_digits acc ps ≡ some p → p < 65536
unfolding parse_digits
parse_digits-lt acc [] h e = ground arith
parse_digits-lt acc (c ∷ ps) {p} h e =
    ground (arith, parse_digits-lt (acc * 10 + (c - 48)) ps {p = p})

parse_u16_cases : (ps : Bytes) {p : ℕ} → parse_u16 ps ≡ some p → NoColon ps × (p < 65536)
unfolding parse_u16
parse_u16_cases [] e = cc
parse_u16_cases (c ∷ []) e =
    (parse_digits-NoColon 0 (c ∷ []) e, parse_digits-lt 0 (c ∷ []) (omega arith) e)
parse_u16_cases (c ∷ d ∷ cs) {p} e = ground (
  arith,
  parse_digits-NoColon 0 (d ∷ cs) {p = p},
  parse_digits-lt 0 (d ∷ cs) {p = p},
  parse_digits-NoColon 0 (c ∷ d ∷ cs) {p = p},
  parse_digits-lt 0 (c ∷ d ∷ cs) {p = p},
)

domain_cases :
    (host : Bytes) (port : ℕ)
    → ((1 ≤ length host)
        × (length host ≤ max_domain_length)
        × (domain_address host (some port) ≡ ok (domain host port)))
      ⊎ (((length host ≡ 0) ⊎ (max_domain_length < length host))
          × ((e : IoError) × (domain_address host (some port) ≡ err e) × (e.kind ≡ invalid_input)))
unfolding domain_address
domain_cases [] port = inr (inl refl, (_, refl, refl))
domain_cases (x ∷ xs) port = elim (dec_lt max_domain_length (length (x ∷ xs))) [
  | yes h ↦ inr (
    inr h,
    (io_error invalid_input "domain name is too long: {} bytes (max {})", ground arith, refl),
  )
  | no h ↦ inl (omega arith, omega arith, ground arith)
]

split_address-domain :
    (v host ps : Bytes)
    → rsplit_once 58 v ≡ some (host, ps)
    → split_address v ≡ domain_address host (parse_u16 ps)
unfolding split_address
split_address-domain v host ps e = rw (e, split_address)

split_address-none :
    (v : Bytes)
    → rsplit_once 58 v ≡ none
    → split_address v ≡ err (io_error invalid_input "invalid address format: {}")
unfolding split_address
split_address-none v e = rw (e, split_address)

-- Digits behind no sign.
parse_u16-digits : (ds : Bytes) → ds ≢ [] → All (λ c. 48 ≤ c) ds → parse_u16 ds ≡ parse_digits 0 ds
unfolding parse_u16
parse_u16-digits [] ne h = absurd (ne refl)
parse_u16-digits (c ∷ []) ne h = refl
parse_u16-digits (c ∷ d ∷ ds) ne h = ground (arith, h.0)

decimal_loop-digits :
    (fuel n : ℕ) (ds : Bytes) → All (λ c. 48 ≤ c) ds → All (λ c. 48 ≤ c) (decimal_loop fuel n ds)
unfolding decimal_loop
decimal_loop-digits zero n ds h = h
decimal_loop-digits (suc fuel) n ds h =
    ground (arith, decimal_loop-digits fuel (n / 10) ((48 + n % 10) ∷ ds) (omega arith, h))

decimal_loop-ne-nil : (fuel n : ℕ) (ds : Bytes) → ds ≢ [] → decimal_loop fuel n ds ≢ []
unfolding decimal_loop
decimal_loop-ne-nil zero n ds h = h
decimal_loop-ne-nil (suc fuel) n ds h =
    ground (arith, decimal_loop-ne-nil fuel (n / 10) ((48 + n % 10) ∷ ds) (λ e. cc))

decimal-ne-nil : (n : ℕ) → decimal n ≢ []
unfolding decimal decimal_loop
decimal-ne-nil n = ground (arith, decimal_loop-ne-nil 4 (n / 10) ((48 + n % 10) ∷ []) (λ e. cc))

parse_digits-decimal_loop :
    (fuel n : ℕ) (digits : Bytes)
    → n < 65536
    → n < 10 ^ suc fuel
    → parse_digits 0 (decimal_loop (suc fuel) n digits) ≡ parse_digits n digits
unfolding parse_digits decimal_loop
parse_digits-decimal_loop zero n digits h k = ground arith
parse_digits-decimal_loop (suc fuel) n digits h k =
    ground (arith, parse_digits-decimal_loop fuel (n / 10) ((48 + n % 10) ∷ digits) (omega arith))

parse_u16-decimal : (port : ℕ) → port < 65536 → parse_u16 (decimal port) ≡ some port
parse_u16-decimal port h =
    parse_u16-digits (decimal port) (decimal-ne-nil port) digits
    ∙ unfold decimal in
      parse_digits-decimal_loop 4 port [] h (omega arith) ∙ unfold parse_digits in refl
  where
    digits : All (λ c. 48 ≤ c) (decimal port)
    digits = unfold decimal in decimal_loop-digits 5 port [] tt

domain_address-ok :
    (name host : Bytes) (p : Option ℕ) (port : ℕ)
    → domain_address name p ≡ ok (domain host port)
    → (name ≡ host) × (p ≡ some port) × (1 ≤ length host) × (length host ≤ max_domain_length)
unfolding domain_address
domain_address-ok name host none port e = cc
domain_address-ok name host (some q) port e = ground arith

split_address-ok :
    (v host : Bytes) (port : ℕ)
    → split_address v ≡ ok (domain host port)
    → (1 ≤ length host)
      × (length host ≤ max_domain_length)
      × (port < 65536)
      × ((ps : Bytes) × (v ≡ host ++ 58 ∷ ps) × (parse_u16 ps ≡ some port))
split_address-ok v host port e = elim (Option-cases (rsplit_once 58 v)) [
  | inl n ↦ cc (sym (split_address-none v n) ∙ e)
  | inr ((name, ps), s) ↦
      let (same, read, lo, hi) =
        domain_address-ok name host (parse_u16 ps) port
          (sym (split_address-domain v name ps s) ∙ e) in
      (
        lo,
        hi,
        (parse_u16_cases ps read).1,
        (ps, rsplit_once-some v name ps s ∙ ap (λ n. n ++ 58 ∷ ps) same, read),
      )
]

module _ (parse_socket_addr : Bytes → Option SocketAddr) where
  try_from-split :
      (v : Bytes) → parse_socket_addr v ≡ none → try_from parse_socket_addr v ≡ split_address v
  unfolding try_from
  try_from-split v e = rw (e, try_from)

  -- A text that is no socket address, and whose part behind the last colon is a u16, becomes a domain
  -- address exactly when the part before it has 1 to 255 octets; otherwise the error is InvalidInput.
  pub try_from-domain :
      (host ps : Bytes) (port : ℕ)
      → parse_socket_addr (host ++ 58 ∷ ps) ≡ none
      → parse_u16 ps ≡ some port
      → ((1 ≤ length host)
          × (length host ≤ max_domain_length)
          × (try_from parse_socket_addr (host ++ 58 ∷ ps) ≡ ok (domain host port)))
        ⊎ (((length host ≡ 0) ⊎ (max_domain_length < length host))
            × ((e : IoError) × (try_from parse_socket_addr (host ++ 58 ∷ ps) ≡ err e)
                × (e.kind ≡ invalid_input)))
  try_from-domain host ps port no_socket e =
      let split =
        split_address-domain _ host ps (rsplit_once-append host ps (parse_u16_cases ps e).0) in
      rw (try_from-split (host ++ 58 ∷ ps) no_socket, split, e) (domain_cases host port)

  -- A domain address has a name of 1 to 255 octets and a port below 65536, and the text was that
  -- name, a colon and a text of the port.
  pub try_from-ok_domain :
      (v host : Bytes) (port : ℕ)
      → parse_socket_addr v ≡ none
      → try_from parse_socket_addr v ≡ ok (domain host port)
      → (1 ≤ length host)
        × (length host ≤ max_domain_length)
        × (port < 65536)
        × ((ps : Bytes) × (v ≡ host ++ 58 ∷ ps) × (parse_u16 ps ≡ some port))
  try_from-ok_domain v host port no_socket e =
      split_address-ok v host port (sym (try_from-split v no_socket) ∙ e)

  -- What `Display` prints of a name and a port, read as an address.
  pub try_from-printed :
      (host : Bytes) (port : ℕ)
      → port < 65536
      → parse_socket_addr (display_domain host port) ≡ none
      → ((1 ≤ length host)
          × (length host ≤ max_domain_length)
          × (try_from parse_socket_addr (display_domain host port) ≡ ok (domain host port)))
        ⊎ (((length host ≡ 0) ⊎ (max_domain_length < length host))
            × ((e : IoError) × (try_from parse_socket_addr (display_domain host port) ≡ err e)
                × (e.kind ≡ invalid_input)))
  unfolding display_domain
  try_from-printed host port p no_socket =
      try_from-domain host (decimal port) port no_socket (parse_u16-decimal port p)

  -- What `Display` prints of a domain address reads back as this address.
  pub try_from-display_domain :
      (host : Bytes) (port : ℕ)
      → port < 65536
      → 1 ≤ length host
      → length host ≤ max_domain_length
      → parse_socket_addr (display_domain host port) ≡ none
      → try_from parse_socket_addr (display_domain host port) ≡ ok (domain host port)
  try_from-display_domain host port p lo hi no_socket =
      elim (try_from-printed host port p no_socket) [
        | inl (_, _, e) ↦ e
        | inr (bad, _) ↦ absurd (omega arith)
      ]
