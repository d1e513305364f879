-- ===== src/Cache/Map.antt =====
-- A cache that keeps every entry: a map from keys. It shows that the laws of `Cache` and `Retains` can
-- be met.
use mathlib.Core.Logic.{ite, if_pos, if_neg}
use ombrac.Prelude.{◌≡◌, refl, ◌≢◌, ◌⊎◌, inl, inr, Option, none, some}
use ombrac.Cache.{Cache, Retains}

module _ {K V : Type 0} (d : Discrete K) where
  abbrev pub write : (K → Option V) → K → Option V → K → Option V
  write s k o j = ite (d j k) o (s j)

  pub write_self : (s : K → Option V) (k : K) (o : Option V) → write s k o k ≡ o
  write_self s k o = if_pos (d k k) refl o (s k)

  pub write_ne : (s : K → Option V) (k j : K) (o : Option V) → j ≢ k → write s k o j ≡ s j
  write_ne s k j o ne = if_neg (d j k) ne o (s j)

  write-some :
      (s : K → Option V) (k j : K) (o : Option V) (w : V)
      → write s k o j ≡ some w
      → ((j ≡ k) × (o ≡ some w)) ⊎ ((j ≢ k) × (s j ≡ some w))
  write-some s k j o w e = elim (d j k) [
    | yes p ↦ inl (p, rw (if_pos _ p) at e)
    | no p ↦ inr (p, rw (if_neg _ p) at e)
  ]

  pub write-none :
      (s : K → Option V) (k j : K) (w : V) → write s k none j ≡ some w → (j ≢ k) × (s j ≡ some w)
  write-none s k j w e = elim (write-some s k j none w e) [ inl (_, n) ↦ cc | inr r ↦ r ]

  pub write-insert :
      (s : K → Option V) (k j : K) (v w : V)
      → write s k (some v) j ≡ some w
      → ((j ≡ k) × (w ≡ v)) ⊎ ((j ≢ k) × (s j ≡ some w))
  write-insert s k j v w e = elim (write-some s k j (some v) w e) [
    | inl (p, n) ↦ inl (p, cc)
    | inr r ↦ inr r
  ]

  abbrev pub map_cache : Cache K V
  map_cache = record {
    State = K → Option V;
    find = λ s k. s k;
    insert = λ s k v. write s k (some v);
    invalidate = λ s k. write s k none;
    find-insert = write-insert;
    find-invalidate = write-none;
  }

  pub map_cache-Retains : Retains map_cache
  map_cache-Retains = record {
    find-insert_self = λ s k v. write_self s k (some v);
    find-insert_ne = λ s k j v ne. write_ne s k j (some v) ne;
    find-invalidate_self = λ s k. write_self s k none;
    find-invalidate_ne = λ s k j ne. write_ne s k j none ne;
  }
