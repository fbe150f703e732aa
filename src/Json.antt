-- ===== src/Json.antt =====
-- The values of JSON, as `json.loads` returns them. Of the numbers only the natural ones stand in a
-- value.
use spr1n6_osscontest_server.Common.{
  ℕ, String, Bool, true, false, Option, none, some, not, eqb, ◌==◌, if◌then◌else◌,
}

mutual
  pub data Json : Type 0 where
    null : Json
    bool : Bool → Json
    num : ℕ → Json
    text : String → Json
    arr : Items → Json
    obj : Fields → Json

  pub data Items : Type 0 where
    nil : Items
    cons : Json → Items → Items

  pub data Fields : Type 0 where
    end : Fields
    field : String → Json → Fields → Fields

-- `value.get(key)` of a dict
abbrev pub get_field : String → Fields → Option Json
get_field key end = none
get_field key (field name value rest) = if name == key then some value else get_field key rest

-- The value is a dict.
abbrev pub fields_of : Json → Option Fields
fields_of (obj fields) = some fields
fields_of null = none
fields_of (bool b) = none
fields_of (num n) = none
fields_of (text s) = none
fields_of (arr items) = none

-- A value that Python counts as true.
abbrev pub is_truthy : Json → Bool
is_truthy null = false
is_truthy (bool b) = b
is_truthy (num n) = not (eqb n 0)
is_truthy (text s) = not (s == "")
is_truthy (arr nil) = false
is_truthy (arr (cons x xs)) = true
is_truthy (obj end) = false
is_truthy (obj (field k v fs)) = true

-- `int(value)`, none where it raises; `int_text` reads a text.
abbrev pub int_of : (String → Option ℕ) → Json → Option ℕ
int_of int_text null = none
int_of int_text (bool b) = some (if b then 1 else 0)
int_of int_text (num n) = some n
int_of int_text (text s) = int_text s
int_of int_text (arr items) = none
int_of int_text (obj fields) = none
