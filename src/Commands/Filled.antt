-- ===== src/Commands/Filled.antt =====
-- What `fill` makes of a template (ha-test/hatest/commands.py): the places are filled at once, though
-- the code replaces one after the other.
pub mod Places
pub mod AtOnce
pub mod Whole
use Prim.Native.Char.{code}
use spr1n6_osscontest_server.Common.{
  ℕ, String, Bool, true, false, Option, none, some, List, [], ◌∷◌, ◌&&◌, ◌||◌, not, eqb, ◌≡◌, ◌<>◌,
  ◌==◌, if◌then◌else◌, lacks, Dict, lookup, is_some, map,
}
use spr1n6_osscontest_server.Commands.{place}

-- A template as its parts: a text, or the place of a value.
pub data Piece : Type 0 where
  lit : String → Piece
  slot : String → Piece

abbrev pub render : List Piece → String
render [] = ""
render (lit s ∷ pieces) = s <> render pieces
render (slot key ∷ pieces) = place key <> render pieces

abbrev pub starts_other : String → Bool
starts_other String.[] = false
starts_other (String.◌∷◌ c s) = not (eqb (code c) 123)

-- Every opening brace of the text is followed by another character of the text.
abbrev pub plain : String → Bool
plain String.[] = true
plain (String.◌∷◌ c s) = (not (eqb (code c) 123) || starts_other s) && plain s

-- A key of a place has no braces.
abbrev pub IsKey : String → Type 0
IsKey key = (lacks 123 key ≡ true) × (lacks 125 key ≡ true)

abbrev pub IsFit : Piece → Type 0
IsFit (lit s) = plain s ≡ true
IsFit (slot key) = IsKey key

-- A key, and a value without opening braces.
abbrev pub IsValue : String × String → Type 0
IsValue (key, value) = IsKey key × (lacks 123 value ≡ true)

-- The value of a place is given.
abbrev pub IsKnown : Dict String → Piece → Type 0
IsKnown values (lit s) = Unit
IsKnown values (slot key) = is_some (lookup key values) ≡ true

abbrev pub value_or_empty : Option String → String
value_or_empty none = ""
value_or_empty (some v) = v

-- The template with every place filled by its own value.
abbrev pub substituted : Dict String → List Piece → String
substituted values [] = ""
substituted values (lit s ∷ pieces) = s <> substituted values pieces
substituted values (slot key ∷ pieces) =
    value_or_empty (lookup key values) <> substituted values pieces
