-- ===== src/Cache.antt =====
-- What the code relies on of the cache crate (moka::future::Cache), as an interface that the models
-- of its clients take as a parameter. A cached Arc that is changed in place is an entry written again.
pub mod Map
use ombrac.Prelude.{◌≡◌, ◌≢◌, ◌⊎◌, Option, none, some}

-- A cache may drop any entry at any time (capacity, time to live), and it never makes one up: what
-- is found under a key after a write or a removal was written last under that key.
pub record Cache (K V : Type 0) : Type 1 where
  pub State : Type 0
  pub find : State → K → Option V
  pub insert : State → K → V → State
  pub invalidate : State → K → State
  pub find-insert :
      (s : State) (k j : K) (v w : V)
      → find (insert s k v) j ≡ some w
      → ((j ≡ k) × (w ≡ v)) ⊎ ((j ≢ k) × (find s j ≡ some w))
  pub find-invalidate :
      (s : State) (k j : K) (w : V)
      → find (invalidate s k) j ≡ some w
      → (j ≢ k) × (find s j ≡ some w)

-- The further laws that hold while nothing is dropped: the cache stays below its capacity, and
-- within the time to live of its entries.
pub record Retains {K V : Type 0} (c : Cache K V) : Type 0 where
  pub find-insert_self : (s : c.State) (k : K) (v : V) → c.find (c.insert s k v) k ≡ some v
  pub find-insert_ne :
      (s : c.State) (k j : K) (v : V) → j ≢ k → c.find (c.insert s k v) j ≡ c.find s j
  pub find-invalidate_self : (s : c.State) (k : K) → c.find (c.invalidate s k) k ≡ none
  pub find-invalidate_ne :
      (s : c.State) (k j : K) → j ≢ k → c.find (c.invalidate s k) j ≡ c.find s j

-- Entries are dropped from `s` and none is changed.
abbrev pub Drops : {K V : Type 0} (c : Cache K V) → c.State → c.State → Type 0
Drops {K} {V} c s t = (j : K) (w : V) → c.find t j ≡ some w → c.find s j ≡ some w
