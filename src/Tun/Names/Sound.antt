-- ===== src/Tun/Names/Sound.antt =====
-- When a state of the fake DNS is sound, and that its caches may drop entries (mod fakedns in
-- crates/ombrac-client/src/endpoint/tun.rs).
use native.Mathlib.Decide.{ℕ_discrete}
use mathlib.Core.Path.{subst}
use ombrac.Prelude.{
  ◌⊎◌, inl, inr, ℕ, Option, none, some, List, [], ◌∷◌, ◌++◌, ◌+◌, ◌≤◌, max, All, All-append,
  All-map, All-both, ◌≡◌, ◌≢◌, sym, ap, ◌∙◌,
}
use ombrac.Net.{Bytes}
use ombrac.Auth.{Bytes-discrete}
use ombrac.Cache.Map.{write, write_self, write_ne, write-none, write-insert}
use ombrac.Tun.Dns.{
  FakeDns, evict, invalidate, recycle, forget, Listening, to_invalidate, to_recycle,
}

abbrev pub NoDup : List ℕ → Type 0
NoDup [] = Unit
NoDup (x ∷ xs) = All (λ y. y ≢ x) xs × NoDup xs

-- An address that allocate_unique_ip has made: one of the network's hosts, but for the first two.
abbrev pub IsMade : FakeDns → ℕ → Type 0
IsMade s ip = (s.ip_net.network + 3 ≤ ip) × (ip ≤ s.ip_net.network + s.cursor)

-- An address leads to a name, or did before the cache dropped the entry, whose listener has not
-- reached the name yet.
abbrev pub Leads : FakeDns → ℕ → Bytes → Type 0
Leads s ip d = (s.ip_to_domain ip ≡ some d) ⊎ (s.listening ip ≡ some (to_invalidate d))

abbrev pub IsFree : FakeDns → ℕ → Type 0
IsFree s ip = (s.ip_to_domain ip ≡ none) × (s.listening ip ≡ none)

-- A name in use leads to an address that leads to a spelling of it; an address that waits to be used
-- again leads nowhere, has no listener, and waits once; one with a listener leads nowhere; all
-- addresses were made; no more are made than there are hosts.
abbrev pub IsSound : FakeDns → Type 0
IsSound s =
    ((key : Bytes) (ip : ℕ)
      → s.domain_to_ip key ≡ some ip
      → (d : Bytes) × (s.name_key d ≡ key) × Leads s ip d)
    × All (IsFree s) s.recycled_ips
    × NoDup s.recycled_ips
    × ((ip : ℕ) (l : Listening) → s.listening ip ≡ some l → s.ip_to_domain ip ≡ none)
    × ((ip : ℕ) (d : Bytes) → s.ip_to_domain ip ≡ some d → IsMade s ip)
    × ((ip : ℕ) (l : Listening) → s.listening ip ≡ some l → IsMade s ip)
    × All (IsMade s) s.recycled_ips
    × ((2 ≤ s.cursor) × (s.cursor ≤ max 2 s.ip_net.hosts_count))

NoDup-append : (xs : List ℕ) (y : ℕ) → NoDup xs → All (λ x. x ≢ y) xs → NoDup (xs ++ y ∷ [])
NoDup-append [] y h k = (tt, tt)
NoDup-append (x ∷ xs) y (h, t) (k, u) =
    (All-append (λ z. z ≢ x) xs y h (λ e. k (sym e)), NoDup-append xs y t u)

-- An entry stands for one value, and not for none.
pub one_value :
    {V : Type 0} (f : ℕ → Option V) (j ip : ℕ) (v w : V)
    → f j ≡ some v
    → j ≡ ip
    → f ip ≡ some w
    → v ≡ w
one_value {V} f j ip v w a p b =
    let q : ◌≡◌ {A = Option V} (some v) (some w) = sym a ∙ ap f p ∙ b in cc (q)

pub no_value :
    {V : Type 0} (f : ℕ → Option V) (x ip : ℕ) (v : V) → f x ≡ none → x ≡ ip → f ip ≡ some v → ⊥
no_value {V} f x ip v n p e =
    let q : ◌≡◌ {A = Option V} none (some v) = sym n ∙ ap f p ∙ e in absurd (cc (q))

-- Addresses that wait are not the one that leads somewhere or has a listener.
free-apart :
    (s : FakeDns) (ip : ℕ) (d : Bytes)
    → s.ip_to_domain ip ≡ some d
    → All (IsFree s) s.recycled_ips
    → All (λ x. x ≢ ip) s.recycled_ips
free-apart s ip d e free =
    All-map (IsFree s) (λ x. x ≢ ip) s.recycled_ips
      (λ x (n, m) p. no_value s.ip_to_domain x ip d n p e) free

quiet-apart :
    (s : FakeDns) (ip : ℕ) (l : Listening)
    → s.listening ip ≡ some l
    → All (IsFree s) s.recycled_ips
    → All (λ x. x ≢ ip) s.recycled_ips
quiet-apart s ip l e free =
    All-map (IsFree s) (λ x. x ≢ ip) s.recycled_ips
      (λ x (n, m) p. no_value s.listening x ip l m p e) free

pub evict-IsSound :
    (s : FakeDns) (ip : ℕ) (name : Bytes)
    → s.ip_to_domain ip ≡ some name
    → IsSound s
    → IsSound (evict s ip name)
unfolding evict
evict-IsSound s ip name e (back, free, once, apart, made, kept, again, few) =
    let f = s.ip_to_domain in
    let g = s.listening in
    let others = free-apart s ip name e free in
    (
      λ key j q.
          let (d, same, leads) = back key j q in
          elim (ℕ_discrete j ip) [
            | yes p ↦ elim leads [
              | inl here ↦ (
                d,
                same,
                inr (
                    ap (write ℕ_discrete g ip (some (to_invalidate name))) p
                    ∙ write_self ℕ_discrete g ip (some (to_invalidate name))
                    ∙ ap (λ n. some (to_invalidate n)) (sym (one_value f j ip d name here p e))),
              )
              | inr l ↦ absurd (no_value f j ip name (apart j (to_invalidate d) l) p e)
            ]
            | no ne ↦ elim leads [
              | inl here ↦ (d, same, inl (write_ne ℕ_discrete f ip j none ne ∙ here))
              | inr l ↦
                  (d, same, inr (write_ne ℕ_discrete g ip j (some (to_invalidate name)) ne ∙ l))
            ]
          ],
      All-both (λ x. x ≢ ip) (IsFree s) (IsFree (evict s ip name)) s.recycled_ips
          (λ x ne (n, m). (
            write_ne ℕ_discrete f ip x none ne ∙ n,
            write_ne ℕ_discrete g ip x (some (to_invalidate name)) ne ∙ m,
          ))
          others free,
      once,
      λ j l q. elim (write-insert ℕ_discrete g ip j (to_invalidate name) l q) [
        | inl (p, i) ↦ ap (write ℕ_discrete f ip none) p ∙ write_self ℕ_discrete f ip none
        | inr (ne, old) ↦ write_ne ℕ_discrete f ip j none ne ∙ apart j l old
      ],
      λ j d q. made j d (write-none ℕ_discrete f ip j d q).1,
      λ j l q. elim (write-insert ℕ_discrete g ip j (to_invalidate name) l q) [
        | inl (p, i) ↦ subst (IsMade s) (sym p) (made ip name e)
        | inr (ne, old) ↦ kept j l old
      ],
      again,
      few,
    )

pub invalidate-IsSound :
    (s : FakeDns) (ip : ℕ) (name : Bytes)
    → s.listening ip ≡ some (to_invalidate name)
    → IsSound s
    → IsSound (invalidate s ip name)
unfolding invalidate
invalidate-IsSound s ip name e (back, free, once, apart, made, kept, again, few) =
    let g = s.listening in
    let others = quiet-apart s ip (to_invalidate name) e free in
    (
      λ key j q.
          let (other, old) = write-none Bytes-discrete s.domain_to_ip (s.name_key name) key j q in
          let (d, same, leads) = back key j old in
          elim leads [
            | inl here ↦ (d, same, inl here)
            | inr l ↦
                let ne : j ≢ ip = λ p.
                  let v : to_invalidate d ≡ to_invalidate name =
                    one_value g j ip (to_invalidate d) (to_invalidate name) l p e in
                  let n : d ≡ name = cc (v) in other (sym same ∙ ap s.name_key n) in
                (d, same, inr (write_ne ℕ_discrete g ip j (some to_recycle) ne ∙ l))
          ],
      All-both (λ x. x ≢ ip) (IsFree s) (IsFree (invalidate s ip name)) s.recycled_ips
          (λ x ne (n, m). (n, write_ne ℕ_discrete g ip x (some to_recycle) ne ∙ m)) others free,
      once,
      λ j l q. elim (write-insert ℕ_discrete g ip j to_recycle l q) [
        | inl (p, i) ↦ ap s.ip_to_domain p ∙ apart ip (to_invalidate name) e
        | inr (ne, old) ↦ apart j l old
      ],
      made,
      λ j l q. elim (write-insert ℕ_discrete g ip j to_recycle l q) [
        | inl (p, i) ↦ subst (IsMade s) (sym p) (kept ip (to_invalidate name) e)
        | inr (ne, old) ↦ kept j l old
      ],
      again,
      few,
    )

pub recycle-IsSound :
    (s : FakeDns) (ip : ℕ) → s.listening ip ≡ some to_recycle → IsSound s → IsSound (recycle s ip)
unfolding recycle
recycle-IsSound s ip e (back, free, once, apart, made, kept, again, few) =
    let g = s.listening in
    let others = quiet-apart s ip to_recycle e free in
    (
      λ key j q.
          let (d, same, leads) = back key j q in
          elim leads [
            | inl here ↦ (d, same, inl here)
            | inr l ↦
                let ne : j ≢ ip = λ p.
                  let v : to_invalidate d ≡ to_recycle =
                    one_value g j ip (to_invalidate d) to_recycle l p e in
                  absurd (cc (v)) in
                (d, same, inr (write_ne ℕ_discrete g ip j none ne ∙ l))
          ],
      All-append (IsFree (recycle s ip)) s.recycled_ips ip
          (All-both (λ x. x ≢ ip) (IsFree s) (IsFree (recycle s ip)) s.recycled_ips
            (λ x ne (n, m). (n, write_ne ℕ_discrete g ip x none ne ∙ m)) others free)
          (apart ip to_recycle e, write_self ℕ_discrete g ip none),
      NoDup-append s.recycled_ips ip once others,
      λ j l q. apart j l (write-none ℕ_discrete g ip j l q).1,
      made,
      λ j l q. kept j l (write-none ℕ_discrete g ip j l q).1,
      All-append (IsMade s) s.recycled_ips ip again (kept ip to_recycle e),
      few,
    )

pub forget-IsSound : (s : FakeDns) (key : Bytes) → IsSound s → IsSound (forget s key)
unfolding forget
forget-IsSound s key (back, free, once, apart, made, kept, again, few) = (
  λ k j q. back k j (write-none Bytes-discrete s.domain_to_ip key k j q).1,
  free,
  once,
  apart,
  made,
  kept,
  again,
  few,
)
