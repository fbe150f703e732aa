-- ===== src/Commands/Filled/Places.antt =====
-- One replacement over the parts of a template, and all of them (ha-test/hatest/commands.py).
use Prim.Native.Char.{Char, code}
use Prim.Native.String.{count}
use text.Mathlib.TextLemmas.{nil-append, cons-append, length-cons}
use text.Mathlib.TextEquality.{Char-path}
use spr1n6_osscontest_server.Common.{
  zero, ◌-◌, ◌≡◌, refl, ap, ◌∙◌, subst, String, true, false, ◌||◌, not, eqb, eqb_iff, ◌<>◌, arith,
  lacks, startswith, Bool-cases, inl, inr, &&-eq-true,
}
use spr1n6_osscontest_server.Common.Split.{replace_from}
use spr1n6_osscontest_server.Commands.{place}
use spr1n6_osscontest_server.Commands.Filled.{plain}

abbrev pub brace : Char
brace = "{"

-- The text after the first brace of a place.
abbrev pub rest_of : String → String
rest_of key = String.◌∷◌ brace (key <> "}}")

pub place-eq : (key : String) → place key ≡ String.◌∷◌ brace (rest_of key)
place-eq key =
    cons-append brace (String.◌∷◌ brace String.[]) (key <> "}}")
    ∙ ap (String.◌∷◌ brace) (
        cons-append brace String.[] (key <> "}}")
        ∙ ap (String.◌∷◌ brace) (nil-append (key <> "}}")))

abbrev pub opens : String → String
opens w = String.◌∷◌ brace (String.◌∷◌ brace w)

pub replace-miss :
    (old new : String) (c : Char) (t : String)
    → startswith old (String.◌∷◌ c t) ≡ false
    → replace_from old new zero (String.◌∷◌ c t) ≡ String.◌∷◌ c (replace_from old new zero t)
replace-miss old new c t h = rw h refl

replace-hit :
    (old new : String) (c : Char) (t : String)
    → startswith old (String.◌∷◌ c t) ≡ true
    → replace_from old new zero (String.◌∷◌ c t) ≡ new <> replace_from old new (count old - 1) t
replace-hit old new c t h = rw h refl

opens-miss :
    (w : String) (c : Char) (t : String)
    → eqb (code c) 123 ≡ false
    → startswith (opens w) (String.◌∷◌ c t) ≡ false
opens-miss w c t h = ground arith

-- The character after the first is no brace.
opens-miss_second :
    (w : String) (c d : Char) (s t : String)
    → eqb (code d) 123 ≡ false
    → startswith (opens w) (String.◌∷◌ c (String.◌∷◌ d s <> t)) ≡ false
opens-miss_second w c d s t h = rw (cons-append d s t) (ground arith)

-- A plain text has no match of a text that starts with two braces.
pub replace-plain :
    (w new s t : String)
    → plain s ≡ true
    → replace_from (opens w) new zero (s <> t) ≡ s <> replace_from (opens w) new zero t
replace-plain w new String.[] t h =
    rw (nil-append t, nil-append (replace_from (opens w) new zero t)) refl
replace-plain w new (String.◌∷◌ c String.[]) t h =
    rw
      (
        cons-append c String.[] t,
        cons-append c String.[] (replace_from (opens w) new zero t),
        nil-append t,
        nil-append (replace_from (opens w) new zero t),
      )
      (replace-miss (opens w) new c t (opens-miss w c t (ground arith)))
replace-plain w new (String.◌∷◌ c (String.◌∷◌ d s)) t h =
    let both =
      &&-eq-true (not (eqb (code c) 123) || not (eqb (code d) 123)) (plain (String.◌∷◌ d s)) h in
    rw
      (
        cons-append c (String.◌∷◌ d s) t,
        cons-append c (String.◌∷◌ d s) (replace_from (opens w) new zero t),
      )
      (replace-miss (opens w) new c (String.◌∷◌ d s <> t) (elim (Bool-cases (eqb (code c) 123)) [
        | inl b ↦ opens-miss_second w c d s t (ground arith)
        | inr b ↦ opens-miss w c (String.◌∷◌ d s <> t) b
      ])
        ∙ ap (String.◌∷◌ c) (replace-plain w new (String.◌∷◌ d s) t both.1))

replace-skip :
    (old new w t : String) → replace_from old new (count w) (w <> t) ≡ replace_from old new zero t
replace-skip old new String.[] t = rw (nil-append t) refl
replace-skip old new (String.◌∷◌ c w) t =
    rw (length-cons c w, cons-append c w t) (replace-skip old new w t)

startswith_self : (w t : String) → startswith w (w <> t) ≡ true
startswith_self String.[] t = refl
startswith_self (String.◌∷◌ c w) t =
    rw (cons-append c w t, (eqb_iff (code c) (code c)).1 refl) (startswith_self w t)

-- A place is replaced.
pub replace-place :
    (key new t : String)
    → replace_from (place key) new zero (place key <> t)
      ≡ new <> replace_from (place key) new zero t
replace-place key new t = rw (place-eq key) (
    rw (cons-append brace (rest_of key) t) (
      replace-hit (opens (key <> "}}")) new brace (rest_of key <> t) (
        subst (λ r. startswith (opens (key <> "}}")) r ≡ true) (cons-append brace (rest_of key) t)
          (startswith_self (opens (key <> "}}")) t))
      ∙ ap (λ n. new <> replace_from (opens (key <> "}}")) new n (rest_of key <> t))
          (rw (length-cons brace (rest_of key)) (omega arith))
      ∙ ap (λ r. new <> r) (replace-skip (opens (key <> "}}")) new (rest_of key) t)))

abbrev closing : Char
closing = "}"

-- Two keys without closing braces, each before two of these, begin alike only if they are equal.
pub keys-eq :
    (k j t : String)
    → lacks 125 k ≡ true
    → lacks 125 j ≡ true
    → startswith (k <> "}}") (j <> "}}" <> t) ≡ true
    → k ≡ j
keys-eq String.[] String.[] t h i e = refl
keys-eq String.[] (String.◌∷◌ d j) t h i e =
    absurd (clash (&&-eq-true (eqb 125 (code d)) _ (rw (cons-append d j ("}}" <> t)) at e)).0)
  where
    clash : eqb 125 (code d) ≡ true → ⊥
    clash b = ground arith
keys-eq (String.◌∷◌ c k) String.[] t h i e = absurd (
    clash
      (&&-eq-true (eqb (code c) 125) _
        (rw (cons-append c k "}}", nil-append ("}}" <> t), cons-append closing "}" t) at e)).0)
  where
    clash : eqb (code c) 125 ≡ true → ⊥
    clash b = ground arith
keys-eq (String.◌∷◌ c k) (String.◌∷◌ d j) t h i e =
    let both =
      &&-eq-true (eqb (code c) (code d)) (startswith (k <> "}}") (j <> "}}" <> t))
        (rw (cons-append c k "}}", cons-append d j ("}}" <> t)) at e) in
    rw
      (
        Char-path c d ((eqb_iff (code c) (code d)).0 both.0),
        keys-eq k j t (&&-eq-true (not (eqb (code c) 125)) (lacks 125 k) h).1
            (&&-eq-true (not (eqb (code d) 125)) (lacks 125 j) i).1 both.1,
      )
      refl
