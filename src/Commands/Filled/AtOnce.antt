-- ===== src/Commands/Filled/AtOnce.antt =====
-- `fill` fills every place of a template at once (ha-test/hatest/commands.py).
use text.Mathlib.TextLemmas.{cons-append, append_assoc}
use spr1n6_osscontest_server.Common.{
  zero, ◌≡◌, refl, ap, ◌∙◌, subst, String, true, false, List, [], ◌∷◌, ◌==◌, eq_iff, ◌<>◌,
  if◌then◌else◌, arith, lacks, lacks-append, startswith, All, Bool-cases, inl, inr,
}
use spr1n6_osscontest_server.Common.Split.{replace_from}
use spr1n6_osscontest_server.Commands.{place}
use spr1n6_osscontest_server.Commands.Filled.{
  Piece, lit, slot, render, starts_other, plain, IsKey, IsFit,
}
use spr1n6_osscontest_server.Commands.Filled.Places.{
  brace, rest_of, opens, place-eq, replace-miss, replace-plain, replace-place, keys-eq,
}

pub lacks-plain : (s : String) → lacks 123 s ≡ true → plain s ≡ true
lacks-plain String.[] h = refl
lacks-plain (String.◌∷◌ c s) h = ground (arith, lacks-plain s)

starts_other-key : (key : String) → lacks 123 key ≡ true → starts_other (key <> "}}") ≡ true
starts_other-key String.[] h = refl
starts_other-key (String.◌∷◌ c key) h = rw (cons-append c key "}}") (ground arith)

rest_of-plain : (key : String) → lacks 123 key ≡ true → plain (rest_of key) ≡ true
rest_of-plain key h =
    rw (starts_other-key key h, lacks-plain (key <> "}}") (lacks-append 123 key "}}" h refl)) refl

opens-miss_place :
    (k j t : String)
    → IsKey k
    → IsKey j
    → (k == j) ≡ false
    → startswith (opens (k <> "}}")) (String.◌∷◌ brace (rest_of j <> t)) ≡ false
opens-miss_place k j t h i n =
    rw (cons-append brace (j <> "}}") t, append_assoc j "}}" t)
      (elim (Bool-cases (startswith (k <> "}}") (j <> "}}" <> t))) [
        | inl b ↦ absurd (clash (keys-eq k j t h.1 i.1 b))
        | inr b ↦ b
      ])
  where
    clash : k ≡ j → ⊥
    clash e = cc ((eq_iff k j).1 e)

-- Another place stays.
replace-other :
    (k j new t : String)
    → IsKey k
    → IsKey j
    → (k == j) ≡ false
    → replace_from (place k) new zero (place j <> t) ≡ place j <> replace_from (place k) new zero t
replace-other k j new t h i n =
    rw (place-eq k, place-eq j)
      (rw
        (
          cons-append brace (rest_of j) t,
          cons-append brace (rest_of j) (replace_from (opens (k <> "}}")) new zero t),
        )
        (replace-miss (opens (k <> "}}")) new brace (rest_of j <> t) (opens-miss_place k j t h i n)
          ∙ ap (String.◌∷◌ brace)
              (replace-plain (k <> "}}") new (rest_of j) t (rest_of-plain j i.0))))

-- A value at its places.
abbrev pub put_piece : String → String → Piece → Piece
put_piece key value (lit s) = lit s
put_piece key value (slot j) = if key == j then lit value else slot j

abbrev pub put : String → String → List Piece → List Piece
put key value [] = []
put key value (p ∷ pieces) = put_piece key value p ∷ put key value pieces

same-place :
    (k j new t : String)
    → k ≡ j
    → replace_from (place k) new zero (place j <> t) ≡ new <> replace_from (place k) new zero t
same-place k j new t e =
    subst
      (λ i.
        replace_from (place k) new zero (place i <> t) ≡ new <> replace_from (place k) new zero t)
      e (replace-place k new t)

-- One replacement puts the value at all places of its key.
pub replace-render :
    (key value : String) (pieces : List Piece)
    → IsKey key
    → All IsFit pieces
    → replace_from (place key) value zero (render pieces) ≡ render (put key value pieces)
replace-render key value [] h fit = refl
replace-render key value (lit s ∷ pieces) h fit = rw (place-eq key) (
    replace-plain (key <> "}}") value s (render pieces) fit.0
    ∙ ap (λ r. s <> r) (rw (← place-eq key) (replace-render key value pieces h fit.1)))
replace-render key value (slot j ∷ pieces) h fit = elim (Bool-cases (key == j)) [
  | inl e ↦ rw e (
      same-place key j value (render pieces) ((eq_iff key j).0 e)
      ∙ ap (λ r. value <> r) (replace-render key value pieces h fit.1))
  | inr n ↦ rw n (
      replace-other key j value (render pieces) h fit.0 n
      ∙ ap (λ r. place j <> r) (replace-render key value pieces h fit.1))
]

put_piece-IsFit :
    (key value : String) (p : Piece)
    → lacks 123 value ≡ true
    → IsFit p
    → IsFit (put_piece key value p)
put_piece-IsFit key value (lit s) h fit = fit
put_piece-IsFit key value (slot j) h fit = elim (Bool-cases (key == j)) [
  | inl e ↦ rw e (lacks-plain value h)
  | inr n ↦ rw n fit
]

pub put-IsFit :
    (key value : String) (pieces : List Piece)
    → lacks 123 value ≡ true
    → All IsFit pieces
    → All IsFit (put key value pieces)
put-IsFit key value [] h fit = tt
put-IsFit key value (p ∷ pieces) h fit =
    (put_piece-IsFit key value p h fit.0, put-IsFit key value pieces h fit.1)
