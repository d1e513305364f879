-- ===== src/Tun/Names.antt =====
-- The addresses that the fake DNS gives out (mod fakedns in
-- crates/ombrac-client/src/endpoint/tun.rs).
mod Sound
pub use Sound.*
use native.Mathlib.Decide.{ℕ_discrete}
use mathlib.Core.Path.{subst}
use ombrac.Prelude.{
  ℕ, true, false, Option, none, some, List, [], ◌∷◌, ◌+◌, ◌<◌, All, All-map, All-both, leb,
  Bool-cases, Option-cases, ◌≡◌, ◌≢◌, inl, inr, refl, sym, ap, ◌∙◌, arith,
}
use ombrac.Net.{Bytes}
use ombrac.Auth.{Bytes-discrete}
use ombrac.Cache.Map.{write, write_self, write_ne, write-insert}
use ombrac.Tun.Dns.{
  Ipv4Net, FakeDns, allocate_new, allocate_from, allocate_unique_ip, DnsQuery, DnsResponse,
  no_error, map_domain, answer_name, handle_dns_query, DnsStep, queried, evicted, invalidated,
  recycled, forgotten, to_invalidate, Reachable, start, later,
}

-- What allocate_unique_ip leaves, and an address that it gives: one that leads nowhere, has no listener
-- and does not wait any more. No name changes.
abbrev Allocated : FakeDns → FakeDns × Option ℕ → Type 0
Allocated s (s', o) =
    IsSound s'
    × (s'.ip_to_domain ≡ s.ip_to_domain)
    × (s'.name_key ≡ s.name_key)
    × ((ip : ℕ) → o ≡ some ip → IsFree s' ip × IsMade s' ip × All (λ x. x ≢ ip) s'.recycled_ips)

fresh-IsFree : (s : FakeDns) (ip : ℕ) → IsSound s → s.ip_net.network + s.cursor < ip → IsFree s ip
fresh-IsFree s ip (back, free, once, apart, made, kept, again, few) lt = (
  elim (Option-cases (s.ip_to_domain ip)) [
    | inl e ↦ e
    | inr (d, e) ↦ absurd (omega (arith, lt, (made ip d e).1))
  ],
  elim (Option-cases (s.listening ip)) [
    | inl e ↦ e
    | inr (l, e) ↦ absurd (omega (arith, lt, (kept ip l e).1))
  ],
)

-- One more address is made.
more-IsSound :
    (s : FakeDns)
    → s.cursor < s.ip_net.hosts_count
    → IsSound s
    → IsSound (record s { cursor = s.cursor + 1 })
more-IsSound s more (back, free, once, apart, made, kept, again, few) = (
  back,
  free,
  once,
  apart,
  λ j d q. let (lo, hi) = made j d q in (lo, omega (arith, hi)),
  λ j l q. let (lo, hi) = kept j l q in (lo, omega (arith, hi)),
  All-map (IsMade s) (IsMade (record s { cursor = s.cursor + 1 })) s.recycled_ips
      (λ x (lo, hi). (lo, omega (arith, hi))) again,
  (omega (arith, few.0), omega (arith, more)),
)

made-apart :
    (s : FakeDns) (ip : ℕ)
    → s.ip_net.network + s.cursor < ip
    → All (IsMade s) s.recycled_ips
    → All (λ x. x ≢ ip) s.recycled_ips
made-apart s ip lt again =
    All-map (IsMade s) (λ x. x ≢ ip) s.recycled_ips
      (λ x (lo, hi) r. absurd (omega (arith, hi, r, lt))) again

allocate_new-Allocated : (s : FakeDns) → IsSound s → Allocated s (allocate_new s)
unfolding allocate_new
allocate_new-Allocated s (back, free, once, apart, made, kept, again, few) =
    let sound : IsSound s = (back, free, once, apart, made, kept, again, few) in
    elim (Bool-cases (leb s.ip_net.hosts_count s.cursor)) [
      | inl e ↦ rw e (sound, refl, refl, λ ip q. absurd (cc (q)))
      | inr e ↦
          let more : s.cursor < s.ip_net.hosts_count = ground arith in
          let ip = s.ip_net.network + 1 + s.cursor in
          rw e (
            more-IsSound s more sound,
            refl,
            refl,
            λ j q.
                let p : ip ≡ j = cc (q) in
                let above : s.ip_net.network + s.cursor < j = omega (arith, p) in
                (
                  fresh-IsFree s j sound above,
                  (omega (arith, p, few.0), omega (arith, p)),
                  made-apart s j above again,
                ),
          )
    ]

allocate_from-Allocated :
    (s : FakeDns) (l : List ℕ) → s.recycled_ips ≡ l → IsSound s → Allocated s (allocate_from s l)
unfolding allocate_from
allocate_from-Allocated s [] e h = allocate_new-Allocated s h
allocate_from-Allocated s (ip ∷ rest) e (back, free, once, apart, made, kept, again, few) =
    let (here, free') = subst (All (IsFree s)) e free in
    let (others, once') = subst NoDup e once in
    let (mine, again') = subst (All (IsMade s)) e again in
    (
      (back, free', once', apart, made, kept, again', few),
      refl,
      refl,
      λ j q.
          let p : ip ≡ j = cc (q) in
          (
            subst (IsFree s) p here,
            subst (IsMade s) p mine,
            subst (λ k. All (λ x. x ≢ k) rest) p others,
          ),
    )

-- A response with an address, which leads to a spelling of the name, and lies among the hosts; every
-- other address leads where it led.
abbrev pub Answers : FakeDns → FakeDns × Option DnsResponse → Type 0
Answers s (s', r) =
    IsSound s'
    × ((name : Bytes) (ip : ℕ)
        → r ≡ some (no_error name ip)
        → (d : Bytes) × (s'.name_key d ≡ s'.name_key name) × Leads s' ip d × IsMade s' ip)
    × ((ip : ℕ) (d : Bytes) → s.ip_to_domain ip ≡ some d → s'.ip_to_domain ip ≡ some d)

response-same :
    (n m : Bytes) (i j : ℕ)
    → ◌≡◌ {A = Option DnsResponse} (some (no_error n i)) (some (no_error m j))
    → (n ≡ m) × (i ≡ j)
response-same n m i j e = let q : no_error n i ≡ no_error m j = cc (e) in (cc (q), cc (q))

-- A name and a free address that are entered into both caches.
mapped-IsSound :
    (s : FakeDns) (name : Bytes) (ip : ℕ)
    → IsSound s
    → IsFree s ip
    → IsMade s ip
    → All (λ x. x ≢ ip) s.recycled_ips
    → IsSound (record s {
      ip_to_domain = write ℕ_discrete s.ip_to_domain ip (some name);
      domain_to_ip = write Bytes-discrete s.domain_to_ip (s.name_key name) (some ip);
    })
mapped-IsSound s name ip (back, free, once, apart, made, kept, again, few) (empty, quiet) mine
      others =
    let f = s.ip_to_domain in
    let there : write ℕ_discrete f ip (some name) ip ≡ some name =
      write_self ℕ_discrete f ip (some name) in
    (
      λ key j q. elim (write-insert Bytes-discrete s.domain_to_ip (s.name_key name) key ip j q) [
        | inl (p, i) ↦ (name, sym p, inl (ap (write ℕ_discrete f ip (some name)) i ∙ there))
        | inr (ne, old) ↦
            let (d, same, leads) = back key j old in
            elim leads [
              | inl here ↦ (
                d,
                same,
                inl (
                    write_ne ℕ_discrete f ip j (some name)
                      (λ p. no_value f ip j d empty (sym p) here)
                    ∙ here),
              )
              | inr l ↦ (d, same, inr l)
            ]
      ],
      All-both (λ x. x ≢ ip) (IsFree s)
          (λ x. (write ℕ_discrete f ip (some name) x ≡ none) × (s.listening x ≡ none))
          s.recycled_ips (λ x ne (n, m). (write_ne ℕ_discrete f ip x (some name) ne ∙ n, m)) others
          free,
      once,
      λ j l q.
          write_ne ℕ_discrete f ip j (some name) (λ p. no_value s.listening ip j l quiet (sym p) q)
          ∙ apart j l q,
      λ j d q. elim (write-insert ℕ_discrete f ip j name d q) [
        | inl (p, i) ↦ subst (IsMade s) (sym p) mine
        | inr (ne, old) ↦ made j d old
      ],
      kept,
      again,
      few,
    )

map_domain-Answers :
    (s : FakeDns) (name : Bytes) (r : FakeDns × Option ℕ)
    → Allocated s r
    → Answers s (map_domain name r)
unfolding map_domain
map_domain-Answers s name (s', none) (h, same, keys, f) =
    (h, λ n i q. absurd (cc (q)), λ j d e. ap (λ g. g j) same ∙ e)
map_domain-Answers s name (s', some ip) (h, same, keys, f) =
    let (free, mine, others) = f ip refl in
    let mapped : ℕ → Option Bytes = write ℕ_discrete s'.ip_to_domain ip (some name) in
    let there : mapped ip ≡ some name = write_self ℕ_discrete s'.ip_to_domain ip (some name) in
    (
      mapped-IsSound s' name ip h free mine others,
      λ n i q.
          let (a, b) = response-same name n ip i q in
          (name, ap s'.name_key a, inl (ap mapped (sym b) ∙ there), subst (IsMade s') b mine),
      λ j d e.
          let old : s'.ip_to_domain j ≡ some d = ap (λ g. g j) same ∙ e in
          write_ne ℕ_discrete s'.ip_to_domain ip j (some name)
            (λ p. no_value s'.ip_to_domain ip j d free.0 (sym p) old)
          ∙ old,
    )

answer_name-Answers :
    (s : FakeDns) (name : Bytes) (o : Option ℕ)
    → s.domain_to_ip (s.name_key name) ≡ o
    → IsSound s
    → Answers s (answer_name s name o)
unfolding answer_name allocate_unique_ip
answer_name-Answers s name none e h =
    map_domain-Answers s name (allocate_from s s.recycled_ips)
      (allocate_from-Allocated s s.recycled_ips refl h)
answer_name-Answers s name (some ip) e (back, free, once, apart, made, kept, again, few) = (
  (back, free, once, apart, made, kept, again, few),
  λ n i q.
      let (a, b) = response-same name n ip i q in
      let (d, same, leads) = back (s.name_key name) ip e in
      let mine : IsMade s ip = elim leads [
        | inl here ↦ made ip d here
        | inr l ↦ kept ip (to_invalidate d) l
      ] in
      (d, same ∙ ap s.name_key a, subst (λ k. Leads s k d) b leads, subst (IsMade s) b mine),
  λ j d q. q,
)

handle_dns_query-Answers :
    (s : FakeDns) (q : Option DnsQuery) → IsSound s → Answers s (handle_dns_query s q)
unfolding handle_dns_query
handle_dns_query-Answers s none h = (h, λ n i q. absurd (cc (q)), λ j d e. e)
handle_dns_query-Answers s (some []) h = (h, λ n i q. absurd (cc (q)), λ j d e. e)
handle_dns_query-Answers s (some ((name, true) ∷ rest)) h =
    answer_name-Answers s name (s.domain_to_ip (s.name_key name)) refl h
handle_dns_query-Answers s (some ((name, false) ∷ rest)) h =
    (h, λ n i q. absurd (cc (q)), λ j d e. e)

step-IsSound : (s t : FakeDns) → DnsStep s t → IsSound s → IsSound t
step-IsSound s _ (queried q) h = (handle_dns_query-Answers s q h).0
step-IsSound s _ (evicted ip name e) h = evict-IsSound s ip name e h
step-IsSound s _ (invalidated ip name e) h = invalidate-IsSound s ip name e h
step-IsSound s _ (recycled ip e) h = recycle-IsSound s ip e h
step-IsSound s _ (forgotten key) h = forget-IsSound s key h

Reachable-IsSound :
    (name_key : Bytes → Bytes) (n : Ipv4Net) (s : FakeDns) → Reachable name_key n s → IsSound s
Reachable-IsSound name_key n _ start = (
  λ key ip e. absurd (cc (e)),
  tt,
  tt,
  λ ip l e. refl,
  λ ip d e. absurd (cc (e)),
  λ ip l e. absurd (cc (e)),
  tt,
  (omega arith, omega arith),
)
Reachable-IsSound name_key n _ (later s t r x) =
    step-IsSound s t x (Reachable-IsSound name_key n s r)

-- After any queries, however entries of both caches are dropped, and wherever the listeners of dropped
-- entries have come to: an address that is given for a name leads back to the name, up to what
-- hickory compares of it, unless the cache has dropped its entry and the listener has not invalidated
-- the name yet; it lies among the hosts that the network has beyond its first two; and the addresses
-- that other names have go on to lead to them.
pub Reachable-Answers :
    (name_key : Bytes → Bytes) (n : Ipv4Net) (s : FakeDns) (q : Option DnsQuery)
    → Reachable name_key n s
    → Answers s (handle_dns_query s q)
Reachable-Answers name_key n s q r = handle_dns_query-Answers s q (Reachable-IsSound name_key n s r)
