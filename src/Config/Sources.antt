-- ===== src/Config/Sources.antt =====
-- What a loaded configuration is (`load_config` in ha-test/hatest/config.py).
use spr1n6_osscontest_server.Common.{
  ℕ, ◌≡◌, ◌⊎◌, refl, inl, inr, String, Option, none, some, ◌<>◌, lookup,
}
use spr1n6_osscontest_server.Config.{Config}
use spr1n6_osscontest_server.Config.Validity.{validate}
use spr1n6_osscontest_server.Config.Validity.Meaning.{IsValid, validate-none_iff}
use spr1n6_osscontest_server.Config.Load.{
  Sources, Loaded, loaded, config_error, ◌>>=◌, get, or_error, first_some, checked, load_unchecked,
  load_config,
}

-- A value comes from the first source that has its key.
pub IsFrom : Sources → String → String → Type 0
IsFrom s key v =
    (lookup ("HA_" <> key) s.environ ≡ some v)
    ⊎ ((lookup ("HA_" <> key) s.environ ≡ none) × (lookup ("HA_" <> key) s.dotenv ≡ some v))
    ⊎ ((lookup ("HA_" <> key) s.environ ≡ none)
        × (lookup ("HA_" <> key) s.dotenv ≡ none)
        × (lookup key s.conf ≡ some v))

from_first :
    (key : String) (a b d : Option String) (v : String)
    → or_error key (first_some a (first_some b d)) ≡ loaded v
    → (a ≡ some v) ⊎ ((a ≡ none) × (b ≡ some v)) ⊎ ((a ≡ none) × (b ≡ none) × (d ≡ some v))
from_first key (some x) b d v h = inl (cc)
from_first key none (some x) d v h = inr (inl (refl, cc))
from_first key none none (some x) v h = inr (inr (refl, refl, cc))
from_first key none none none v h = cc

-- If a setting is found, then it is that of the environment under its name with HA_; if there is
-- none, that of .env under the same name; and if there is none either, that of cluster.conf.
pub get-IsFrom : (s : Sources) (key v : String) → get s key ≡ loaded v → IsFrom s key v
unfolding get IsFrom
get-IsFrom s key v h =
    from_first key (lookup ("HA_" <> key) s.environ) (lookup ("HA_" <> key) s.dotenv)
      (lookup key s.conf) v h

module _ (upper lower : String → String) (int : String → Option ℕ) where
  checked-IsValid :
      (d c : Config) (e : Option String)
      → validate d ≡ e
      → checked upper lower int d e ≡ loaded c
      → IsValid c
  checked-IsValid d c none e h = (validate-none_iff c).0 (cc)
  checked-IsValid d c (some m) e h = cc

  loaded-IsValid :
      (l : Loaded Config) (c : Config)
      → (l >>= (λ d. checked upper lower int d (validate d))) ≡ loaded c
      → IsValid c
  loaded-IsValid (loaded d) c h = checked-IsValid d c (validate d) refl h
  loaded-IsValid (config_error e) c h = cc

  -- If the configuration is loaded, then it is valid: three nodes, known roles in the right relations,
  -- and plain script values.
  pub load_config-IsValid :
      (s : Sources) (c : Config) → load_config upper lower int s ≡ loaded c → IsValid c
  unfolding load_config
  load_config-IsValid s c h = loaded-IsValid (load_unchecked upper lower int s) c h
