-- ===== src/Commands/Filled/Whole.antt =====
-- The whole of `fill`: every place holds its own value, and none is left (ha-test/hatest/commands.py).
use Prim.Native.Char.{code}
use text.Mathlib.TextLemmas.{nil-append, cons-append}
use spr1n6_osscontest_server.Common.{
  ◌≡◌, refl, ap, ◌∙◌, String, true, false, some, List, [], ◌∷◌, ◌||◌, not, eqb, ◌==◌, ◌<>◌, arith,
  lacks, has_part, Dict, lookup, All, Bool-cases, inl, inr, &&-eq-true,
}
use spr1n6_osscontest_server.Common.Split.{replace}
use spr1n6_osscontest_server.Commands.{replace_all, fill, rstrip_newlines, lstrip_newlines}
use spr1n6_osscontest_server.Commands.Filled.{
  Piece, lit, slot, render, starts_other, plain, IsFit, IsValue, IsKnown, value_or_empty,
  substituted,
}
use spr1n6_osscontest_server.Commands.Filled.AtOnce.{
  lacks-plain, put_piece, put, replace-render, put-IsFit,
}

-- A value that is put leaves the substituted text.
substituted-put :
    (key value : String) (values : Dict String) (pieces : List Piece)
    → substituted values (put key value pieces) ≡ substituted ((key, value) ∷ values) pieces
substituted-put key value values [] = refl
substituted-put key value values (lit s ∷ pieces) =
    ap (λ r. s <> r) (substituted-put key value values pieces)
substituted-put key value values (slot j ∷ pieces) = elim (Bool-cases (key == j)) [
  | inl e ↦ rw e (ap (λ r. value <> r) (substituted-put key value values pieces))
  | inr n ↦
      rw n
        (ap (λ r. value_or_empty (lookup j values) <> r) (substituted-put key value values pieces))
]

put_piece-IsKnown :
    (key value : String) (values : Dict String) (p : Piece)
    → IsKnown ((key, value) ∷ values) p
    → IsKnown values (put_piece key value p)
put_piece-IsKnown key value values (lit s) h = tt
put_piece-IsKnown key value values (slot j) h = elim (Bool-cases (key == j)) [
  | inl e ↦ rw e tt
  | inr n ↦ rw n (rw n at h)
]

put-IsKnown :
    (key value : String) (values : Dict String) (pieces : List Piece)
    → All (IsKnown ((key, value) ∷ values)) pieces
    → All (IsKnown values) (put key value pieces)
put-IsKnown key value values [] h = tt
put-IsKnown key value values (p ∷ pieces) h =
    (put_piece-IsKnown key value values p h.0, put-IsKnown key value values pieces h.1)

-- Without values there is no place.
render-substituted :
    (pieces : List Piece) → All (IsKnown []) pieces → render pieces ≡ substituted [] pieces
render-substituted [] h = refl
render-substituted (lit s ∷ pieces) h = ap (λ r. s <> r) (render-substituted pieces h.1)
render-substituted (slot j ∷ pieces) h = ground arith

replace_all-render :
    (pieces : List Piece) (values : Dict String)
    → All IsFit pieces
    → All IsValue values
    → All (IsKnown values) pieces
    → replace_all (render pieces) values ≡ substituted values pieces
unfolding replace_all replace
replace_all-render pieces [] fit h known = render-substituted pieces known
replace_all-render pieces ((key, value) ∷ values) fit h known =
    ap (λ script. replace_all script values) (replace-render key value pieces h.0.0 fit)
    ∙ replace_all-render (put key value pieces) values (put-IsFit key value pieces h.0.1 fit) h.1
        (put-IsKnown key value values pieces known)
    ∙ substituted-put key value values pieces

-- The result has no place.
lookup-lacks :
    (key : String) (values : Dict String)
    → All IsValue values
    → lacks 123 (value_or_empty (lookup key values)) ≡ true
lookup-lacks key [] h = refl
lookup-lacks key ((j, value) ∷ values) h = elim (Bool-cases (j == key)) [
  | inl e ↦ rw e h.0.1
  | inr n ↦ rw n (lookup-lacks key values h.1)
]

starts_other-append : (s t : String) → starts_other s ≡ true → starts_other (s <> t) ≡ true
starts_other-append String.[] t h = ground arith
starts_other-append (String.◌∷◌ c s) t h = rw (cons-append c s t) h

plain-append : (s t : String) → plain s ≡ true → plain t ≡ true → plain (s <> t) ≡ true
plain-append String.[] t h k = rw (nil-append t) k
plain-append (String.◌∷◌ c s) t h k =
    let both = &&-eq-true (not (eqb (code c) 123) || starts_other s) (plain s) h in
    rw (cons-append c s t) (ground (arith, plain-append s t both.1 k, starts_other-append s t))

substituted-plain :
    (values : Dict String) (pieces : List Piece)
    → All IsFit pieces
    → All IsValue values
    → plain (substituted values pieces) ≡ true
substituted-plain values [] fit h = refl
substituted-plain values (lit s ∷ pieces) fit h =
    plain-append s (substituted values pieces) fit.0 (substituted-plain values pieces fit.1 h)
substituted-plain values (slot key ∷ pieces) fit h =
    plain-append (value_or_empty (lookup key values)) (substituted values pieces)
      (lacks-plain (value_or_empty (lookup key values)) (lookup-lacks key values h))
      (substituted-plain values pieces fit.1 h)

plain-no_place : (s : String) → plain s ≡ true → has_part "{{" s ≡ false
plain-no_place String.[] h = refl
plain-no_place (String.◌∷◌ c String.[]) h = ground arith
plain-no_place (String.◌∷◌ c (String.◌∷◌ d s)) h = ground (arith, plain-no_place (String.◌∷◌ d s))

-- If the texts of a template are plain, its keys have no braces, and every key has a value without
-- opening braces, then `fill` gives the template with every place holding its own value, no place
-- left, and the line feeds at the ends made one at the end.
pub fill-render :
    (pieces : List Piece) (values : Dict String)
    → All IsFit pieces
    → All IsValue values
    → All (IsKnown values) pieces
    → fill (render pieces) values
      ≡ some (rstrip_newlines (lstrip_newlines (substituted values pieces)) <> "\n")
unfolding fill
fill-render pieces values fit h known =
    rw
      (
        replace_all-render pieces values fit h known,
        plain-no_place (substituted values pieces) (substituted-plain values pieces fit h),
      )
      refl
