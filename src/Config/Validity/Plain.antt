-- ===== src/Config/Validity/Plain.antt =====
-- The values that the checks take as plain (`_validate` in ha-test/hatest/config.py).
use Prim.Native.Char.{Char, code}
use spr1n6_osscontest_server.Common.{
  ℕ, ◌≡◌, ◌≢◌, ap, ◌∙◌, eq_iff, refl, inl, inr, String, Bool, true, false, ◌||◌, not, arith, sym,
  &&-eq-true, &&_intro, eqb, ◌==◌, Bool-cases,
}
use spr1n6_osscontest_server.Config.Validity.{special, is_plain, any_char}

-- The codes of a blank, the quotes, a backslash, `$`, a backquote, `;`, `|`, `&`, `<`, `>`, `(`, `)`,
-- `{`, `}`, `*`, `?`, `!`, `#`, `~` and a line feed.
abbrev pub is_special : ℕ → Bool
is_special n =
    eqb n 32
    || eqb n 39
    || eqb n 34
    || eqb n 92
    || eqb n 36
    || eqb n 96
    || eqb n 59
    || eqb n 124
    || eqb n 38
    || eqb n 60
    || eqb n 62
    || eqb n 40
    || eqb n 41
    || eqb n 123
    || eqb n 125
    || eqb n 42
    || eqb n 63
    || eqb n 33
    || eqb n 35
    || eqb n 126
    || eqb n 10

abbrev pub has_special : String → Bool
has_special String.[] = false
has_special (String.◌∷◌ c rest) = is_special (code c) || has_special rest

-- A text with characters, and with none of these. A tab, `[` and `]` are not among them.
abbrev pub IsPlain : String → Type 0
IsPlain value = (value ≢ "") × (has_special value ≡ false)

-- A character stands in the list.
abbrev is_in : Char → String → Bool
is_in d String.[] = false
is_in d (String.◌∷◌ c rest) = eqb (code d) (code c) || is_in d rest

any_char-empty : (chars : String) → any_char "" chars ≡ false
any_char-empty String.[] = refl
any_char-empty (String.◌∷◌ c chars) = any_char-empty chars

any_char-cons :
    (d : Char) (s chars : String)
    → any_char (String.◌∷◌ d s) chars ≡ (is_in d chars || any_char s chars)
any_char-cons d s String.[] = refl
any_char-cons d s (String.◌∷◌ c chars) = ground (arith, any_char-cons d s chars)

is_in-special : (d : Char) → is_in d special ≡ is_special (code d)
is_in-special d = ground arith

any_char-has_special : (v : String) → any_char v special ≡ has_special v
any_char-has_special String.[] = refl
any_char-has_special (String.◌∷◌ d s) =
    any_char-cons d s special
    ∙ ap (λ b. b || any_char s special) (is_in-special d)
    ∙ ap (λ b. is_special (code d) || b) (any_char-has_special s)

false_of_not : (b : Bool) → not b ≡ true → b ≡ false
false_of_not b h = ground arith

pub is_plain-IsPlain : (v : String) → is_plain v ≡ true → IsPlain v
unfolding is_plain
is_plain-IsPlain v h =
    let both = &&-eq-true (not (v == "")) (not (any_char v special)) h in
    (
      (λ e. clash (rw ((eq_iff v "").1 e) at both.0)),
      sym (any_char-has_special v) ∙ false_of_not (any_char v special) both.1,
    )
  where
    clash : false ≡ true → ⊥
    clash e = cc

pub IsPlain-is_plain : (v : String) → IsPlain v → is_plain v ≡ true
unfolding is_plain
IsPlain-is_plain v h =
    &&_intro (not (v == "")) (not (any_char v special))
      (elim (Bool-cases (v == "")) [ inl e ↦ absurd (h.0 ((eq_iff v "").0 e)) | inr e ↦ ap not e ])
      (ap not (any_char-has_special v ∙ h.1))
