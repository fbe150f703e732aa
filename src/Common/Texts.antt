-- ===== src/Common/Texts.antt =====
-- Python texts: joining, order, and numbers in decimal.
use Prim.Native.Nat.{ℕ, zero, suc, ◌/◌, ◌%◌, ◌<◌}
use Prim.Native.Char.{Char, code}
use Prim.Native.String.{String, compare}
use Prim.Native.String
use mathlib.Core.Bool.{Bool, true, false, ◌&&◌, ◌||◌, not}
use mathlib.Core.Path.{◌≡◌, refl}
use native.Mathlib.Omega.{arith}
use text.Mathlib.TextLemmas.{nil-append, cons-append}
use mathlib.Core.List.{List, [], ◌∷◌}
use text.Mathlib.Text.{is_le}
use spr1n6_osscontest_server.Common.Tests.{ltb, leb, eqb, if◌then◌else◌, &&-eq-true, &&_intro}

infixr 65 ◌<>◌
abbrev pub ◌<>◌ : String → String → String
a <> b = String.◌++◌ a b

-- `sep.join(parts)`
unfoldable pub join : String → List String → String
join sep [] = ""
join sep (x ∷ []) = x
join sep (x ∷ y ∷ rest) = x <> sep <> join sep (y ∷ rest)

-- The order of texts by their code points, as `sorted` uses it.
abbrev pub text_leb : String → String → Bool
text_leb s t = is_le (compare s t)

digit : ℕ → String
digit zero = "0"
digit (suc zero) = "1"
digit (suc (suc zero)) = "2"
digit (suc (suc (suc zero))) = "3"
digit (suc (suc (suc (suc zero)))) = "4"
digit (suc (suc (suc (suc (suc zero))))) = "5"
digit (suc (suc (suc (suc (suc (suc zero)))))) = "6"
digit (suc (suc (suc (suc (suc (suc (suc zero))))))) = "7"
digit (suc (suc (suc (suc (suc (suc (suc (suc zero)))))))) = "8"
digit _ = "9"

-- Each round drops a digit.
decimal : ℕ → ℕ → String
unfolding digit
decimal zero n = ""
decimal (suc fuel) n = elim (ltb n 10) [
  | true ↦ digit n
  | false ↦ decimal fuel (n / 10) <> digit (n % 10)
]

-- `str(n)`. A number has no more digits than its successor counts rounds.
unfoldable pub str : ℕ → String
unfolding decimal
str n = decimal (suc n) n

-- `text[:n]`
abbrev pub first : ℕ → String → String
first zero s = String.[]
first (suc n) String.[] = String.[]
first (suc n) (String.◌∷◌ c s) = String.◌∷◌ c (first n s)

-- Puts a character before the first line.
abbrev pub onto : Char → List String → List String
onto c [] = String.◌∷◌ c String.[] ∷ []
onto c (line ∷ lines) = String.◌∷◌ c line ∷ lines

-- The codes of the characters that end a line in Python.
abbrev pub ends_line : ℕ → Bool
ends_line n =
    (leb 10 n && leb n 13) || (leb 28 n && leb n 30) || eqb n 133 || eqb n 8232 || eqb n 8233

abbrev starts_feed : String → Bool
starts_feed String.[] = false
starts_feed (String.◌∷◌ c s) = eqb (code c) 10

-- `text.splitlines()`, where a carriage return and a line feed end one line
abbrev pub splitlines : String → List String
splitlines String.[] = []
splitlines (String.◌∷◌ c s) =
    let rest = splitlines s in
    if eqb (code c) 13 && starts_feed s
    then rest
    else if ends_line (code c)
    then "" ∷ rest
    else onto c rest

-- `text[n:]`
abbrev pub skip : ℕ → String → String
skip zero s = s
skip (suc n) String.[] = String.[]
skip (suc n) (String.◌∷◌ c s) = skip n s

-- `text.startswith(prefix)`
abbrev pub startswith : String → String → Bool
startswith String.[] s = true
startswith (String.◌∷◌ c p) String.[] = false
startswith (String.◌∷◌ c p) (String.◌∷◌ d s) = eqb (code c) (code d) && startswith p s

-- `part in text`
abbrev pub has_part : String → String → Bool
has_part part String.[] = startswith part String.[]
has_part part (String.◌∷◌ d s) = startswith part (String.◌∷◌ d s) || has_part part s

-- No character of the text has this code.
abbrev pub lacks : ℕ → String → Bool
lacks sep String.[] = true
lacks sep (String.◌∷◌ c s) = not (eqb (code c) sep) && lacks sep s

pub lacks-append :
    (sep : ℕ) (s t : String) → lacks sep s ≡ true → lacks sep t ≡ true → lacks sep (s <> t) ≡ true
lacks-append sep String.[] t h k = rw (nil-append t) k
lacks-append sep (String.◌∷◌ c s) t h k =
    let both = &&-eq-true (not (eqb (code c) sep)) (lacks sep s) h in
    rw (cons-append c s t) (&&_intro _ _ both.0 (lacks-append sep s t both.1 k))

-- No character of the text ends a line.
abbrev pub is_one_line : String → Bool
is_one_line String.[] = true
is_one_line (String.◌∷◌ c s) = not (ends_line (code c)) && is_one_line s

pub is_one_line-append :
    (s t : String) → is_one_line s ≡ true → is_one_line t ≡ true → is_one_line (s <> t) ≡ true
is_one_line-append String.[] t h k = rw (nil-append t) k
is_one_line-append (String.◌∷◌ c s) t h k =
    let both = &&-eq-true (not (ends_line (code c))) (is_one_line s) h in
    rw (cons-append c s t) (&&_intro _ _ both.0 (is_one_line-append s t both.1 k))

digit-is_one_line : (n : ℕ) → is_one_line (digit n) ≡ true
unfolding digit
digit-is_one_line zero = refl
digit-is_one_line (suc zero) = refl
digit-is_one_line (suc (suc zero)) = refl
digit-is_one_line (suc (suc (suc zero))) = refl
digit-is_one_line (suc (suc (suc (suc zero)))) = refl
digit-is_one_line (suc (suc (suc (suc (suc zero))))) = refl
digit-is_one_line (suc (suc (suc (suc (suc (suc zero)))))) = refl
digit-is_one_line (suc (suc (suc (suc (suc (suc (suc zero))))))) = refl
digit-is_one_line (suc (suc (suc (suc (suc (suc (suc (suc zero)))))))) = refl
digit-is_one_line (suc (suc (suc (suc (suc (suc (suc (suc (suc n))))))))) = refl

decimal-is_one_line : (fuel n : ℕ) → is_one_line (decimal fuel n) ≡ true
unfolding decimal
decimal-is_one_line zero n = refl
decimal-is_one_line (suc fuel) n =
    elim (ltb n 10)
      as (λ b.
        is_one_line (elim b [ true ↦ digit n | false ↦ decimal fuel (n / 10) <> digit (n % 10) ])
        ≡ true) [
          | true ↦ digit-is_one_line n
          | false ↦
              is_one_line-append (decimal fuel (n / 10)) (digit (n % 10))
                (decimal-is_one_line fuel (n / 10)) (digit-is_one_line (n % 10))
        ]

pub str-is_one_line : (n : ℕ) → is_one_line (str n) ≡ true
unfolding str
str-is_one_line n = decimal-is_one_line (suc n) n

digit-lacks : (sep n : ℕ) → sep < 48 → lacks sep (digit n) ≡ true
unfolding digit
digit-lacks sep zero h = ground arith
digit-lacks sep (suc zero) h = ground arith
digit-lacks sep (suc (suc zero)) h = ground arith
digit-lacks sep (suc (suc (suc zero))) h = ground arith
digit-lacks sep (suc (suc (suc (suc zero)))) h = ground arith
digit-lacks sep (suc (suc (suc (suc (suc zero))))) h = ground arith
digit-lacks sep (suc (suc (suc (suc (suc (suc zero)))))) h = ground arith
digit-lacks sep (suc (suc (suc (suc (suc (suc (suc zero))))))) h = ground arith
digit-lacks sep (suc (suc (suc (suc (suc (suc (suc (suc zero)))))))) h = ground arith
digit-lacks sep (suc (suc (suc (suc (suc (suc (suc (suc (suc n))))))))) h = ground arith

decimal-lacks : (sep fuel n : ℕ) → sep < 48 → lacks sep (decimal fuel n) ≡ true
unfolding decimal
decimal-lacks sep zero n h = refl
decimal-lacks sep (suc fuel) n h =
    elim (ltb n 10)
      as (λ b.
        lacks sep (elim b [ true ↦ digit n | false ↦ decimal fuel (n / 10) <> digit (n % 10) ])
        ≡ true) [
          | true ↦ digit-lacks sep n h
          | false ↦
              lacks-append sep (decimal fuel (n / 10)) (digit (n % 10))
                (decimal-lacks sep fuel (n / 10) h) (digit-lacks sep (n % 10) h)
        ]

-- A number is written in digits alone.
pub str-lacks : (sep n : ℕ) → sep < 48 → lacks sep (str n) ≡ true
unfolding str
str-lacks sep n h = decimal-lacks sep (suc n) n h
