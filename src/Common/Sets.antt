-- ===== src/Common/Sets.antt =====
-- Python sets of texts: lists without repetition, by membership.
use Prim.Native.String.{String}
use mathlib.Core.Path.{◌≡◌, refl}
use mathlib.Core.Bool.{Bool, ◌&&◌, ◌||◌, not}
use mathlib.Core.List.{List, [], ◌∷◌}
use native.Mathlib.Omega.{arith}
use text.Mathlib.TextEquality.{eq_iff}
use spr1n6_osscontest_server.Common.Tests.{◌==◌, if◌then◌else◌}
use spr1n6_osscontest_server.Common.Lists.{filter, contains}
use spr1n6_osscontest_server.Common.Sort.{place, sort_by}

-- `nodes.add(node)`
abbrev pub add_to_set : String → List String → List String
add_to_set x xs = if contains x xs then xs else x ∷ xs

-- `{x for x in xs}`
abbrev pub to_set : List String → List String
to_set [] = []
to_set (x ∷ xs) = add_to_set x (to_set xs)

-- `a - b`
abbrev pub difference : List String → List String → List String
difference a b = filter (λ x. not (contains x b)) a

pub contains-add_to_set :
    (n node : String) (xs : List String)
    → contains n (add_to_set node xs) ≡ (node == n || contains n xs)
contains-add_to_set n node xs = ground (arith, eq_iff node n)

pub contains-to_set : (n : String) (xs : List String) → contains n (to_set xs) ≡ contains n xs
contains-to_set n [] = refl
contains-to_set n (x ∷ xs) =
    ground (arith, contains-add_to_set n x (to_set xs), contains-to_set n xs)

pub contains-filter :
    (p : String → Bool) (n : String) (xs : List String)
    → contains n (filter p xs) ≡ (contains n xs && p n)
contains-filter p n [] = refl
contains-filter p n (x ∷ xs) = ground (arith, eq_iff x n, contains-filter p n xs)

module _ (before : String → String → Bool) (n : String) where
  contains-place :
      (x : String) (ys : List String) → contains n (place before x ys) ≡ (x == n || contains n ys)
  unfolding place
  contains-place x [] = refl
  contains-place x (y ∷ ys) = ground (arith, contains-place x ys)

  pub contains-sort_by : (xs : List String) → contains n (sort_by before xs) ≡ contains n xs
  unfolding sort_by
  contains-sort_by [] = refl
  contains-sort_by (x ∷ xs) =
      ground (arith, contains-place x (sort_by before xs), contains-sort_by xs)
