-- ===== src/Common/Split.antt =====
-- Splitting texts at a character, and putting the parts together again.
use Prim.Native.Char.{Char, code}
use Prim.Native.Nat.{ℕ, zero, suc, ◌-◌}
use Prim.Native.String.{String}
use Prim.Native.String.{count}
use mathlib.Core.Path.{◌≡◌, refl}
use mathlib.Core.Bool.{true, not}
use mathlib.Core.Option.{Option, none, some}
use mathlib.Core.List.{List, [], ◌∷◌}
use native.Mathlib.Omega.{arith}
use text.Mathlib.TextLemmas.{nil-append, cons-append}
use spr1n6_osscontest_server.Common.Tests.{eqb, if◌then◌else◌, &&-eq-true}
use spr1n6_osscontest_server.Common.Texts.{
  ◌<>◌, splitlines, onto, startswith, lacks, ends_line, is_one_line,
}

abbrev before : Char → Option (String × String) → Option (String × String)
before c none = none
before c (some p) = some (String.◌∷◌ c p.0, p.1)

-- What stands before and after the first separator, which is given by its code.
abbrev pub cut : ℕ → String → Option (String × String)
cut sep String.[] = none
cut sep (String.◌∷◌ c s) =
    let rest = cut sep s in if eqb (code c) sep then some (String.[], s) else before c rest

-- `text.split(sep, n)`
abbrev pub split_step : String → Option (String × String) → (String → List String) → List String
split_step s none more = s ∷ []
split_step s (some p) more = p.0 ∷ more p.1

abbrev pub split_max : ℕ → ℕ → String → List String
split_max sep zero s = s ∷ []
split_max sep (suc n) s = split_step s (cut sep s) (split_max sep n)

-- `text.split(sep)`
abbrev pub split_all : ℕ → String → List String
split_all sep String.[] = String.[] ∷ []
split_all sep (String.◌∷◌ c s) =
    let rest = split_all sep s in if eqb (code c) sep then String.[] ∷ rest else onto c rest

-- `text.replace(old, new)` for an `old` that is not empty, where `n` more characters of the last
-- match are to be passed over.
abbrev pub replace_from : String → String → ℕ → String → String
replace_from old new n String.[] = String.[]
replace_from old new (suc n) (String.◌∷◌ c s) = replace_from old new n s
replace_from old new zero (String.◌∷◌ c s) =
    let found = new <> replace_from old new (count old - 1) s in
    let rest = String.◌∷◌ c (replace_from old new zero s) in
    if startswith old (String.◌∷◌ c s) then found else rest

unfoldable pub replace : String → String → String → String
replace old new s = replace_from old new zero s

pub cut-append :
    (sep : ℕ) (c : Char) (s t : String)
    → eqb (code c) sep ≡ true
    → lacks sep s ≡ true
    → cut sep (s <> String.◌∷◌ c t) ≡ some (s, t)
cut-append sep c String.[] t e h = rw (nil-append (String.◌∷◌ c t), e) refl
cut-append sep c (String.◌∷◌ d s) t e h =
    rw (cons-append d s (String.◌∷◌ c t))
      (ground (arith, cut-append sep c s t e, &&-eq-true (not (eqb (code d) sep)) (lacks sep s) h))

-- A line in front of others, as `splitlines` reads it.
pub splitlines-append :
    (c : Char) (s t : String)
    → eqb (code c) 10 ≡ true
    → is_one_line s ≡ true
    → splitlines (s <> String.◌∷◌ c t) ≡ s ∷ splitlines t
splitlines-append c String.[] t e h = rw (nil-append (String.◌∷◌ c t)) (ground (arith, e))
splitlines-append c (String.◌∷◌ d s) t e h =
    let both = &&-eq-true (not (ends_line (code d))) (is_one_line s) h in
    rw (cons-append d s (String.◌∷◌ c t), splitlines-append c s t e both.1) (ground (arith, both.0))

-- The last line.
pub splitlines-last :
    (c : Char) (s : String)
    → is_one_line (String.◌∷◌ c s) ≡ true
    → splitlines (String.◌∷◌ c s) ≡ String.◌∷◌ c s ∷ []
splitlines-last c String.[] h = ground arith
splitlines-last c (String.◌∷◌ d s) h =
    let both = &&-eq-true (not (ends_line (code c))) (is_one_line (String.◌∷◌ d s)) h in
    rw (splitlines-last d s both.1) (ground (arith, both.0))
