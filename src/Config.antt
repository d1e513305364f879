-- ===== src/Config.antt =====
-- The merging of configuration sources: crates/ombrac-client/src/config/mod.rs (Client) and
-- crates/ombrac-server/src/config/mod.rs (Server), with the tracing feature and every endpoint
-- enabled. Parsing, of the command line by clap and of JSON by serde, is an argument.
pub mod Client
pub mod Server
mod Sections
mod Precedence
mod Examples
use ombrac.Prelude.{ℕ, String, Option, none, some, List, [], ◌∷◌, ◌≡◌, refl, Result, ok, err}
use ombrac.Net.{Bytes}

-- `Option::or`
abbrev pub or {ℓ} : {A : Type ℓ} → Option A → Option A → Option A
or (some a) b = some a
or none b = b

-- The value of the first source that gives one.
unfoldable pub first_given {ℓ} : {A : Type ℓ} → List (Option A) → Option A
first_given [] = none
first_given (some a ∷ rest) = some a
first_given (none ∷ rest) = first_given rest

-- A setting of a section that may be absent.
unfoldable pub setting {ℓ κ} : {S : Type ℓ} {A : Type κ} → Option S → (S → Option A) → Option A
setting none f = none
setting (some s) f = f s

pub first_given-or {ℓ} :
    {A : Type ℓ} (a b c : Option A) → first_given (a ∷ b ∷ c ∷ []) ≡ or a (or b c)
unfolding first_given
first_given-or (some a) b c = refl
first_given-or none (some b) c = refl
first_given-or none none (some c) = refl
first_given-or none none none = refl

-- ombrac_transport::quic::Congestion
pub data Congestion : Type 0 where
  bbr cubic new_reno : Congestion

-- TlsMode, in both configurations.
pub data TlsMode : Type 0 where
  tls m_tls insecure : TlsMode

-- "h3"
abbrev pub h3 : Bytes
h3 = 104 ∷ 51 ∷ []

abbrev pub info : Bytes
info = 73 ∷ 78 ∷ 70 ∷ 79 ∷ []
