-- ===== src/Common/Sort.antt =====
-- Python's stable `sorted(xs, key=...)`, for any Boolean order, and its extremes by key.
use mathlib.Core.Logic.{inl, inr}
use mathlib.Core.Bool.{Bool}
use mathlib.Core.List.{List, [], ◌∷◌}
use mathlib.Core.List.{Perm}
use mathlib.Core.List.Perm
use Prim.Native.Nat.{ℕ, ◌≤◌}
use mathlib.Core.Path.{◌≡◌, refl}
use mathlib.Core.Logic.{◌⊎◌}
use native.Mathlib.Nat.{le_trans}
use native.Mathlib.Omega.{arith}
use spr1n6_osscontest_server.Common.Tests.{leb, leb_iff, if◌then◌else◌, Bool-cases}
use spr1n6_osscontest_server.Common.Lists.{All, Any, All-mono, filter, length}

module _ {ℓ} {A : Type ℓ} (before : A → A → Bool) where
  -- `x` stood first in the input, so it goes before its equals.
  unfoldable pub place : A → List A → List A
  place x [] = x ∷ []
  place x (y ∷ ys) = if before x y then x ∷ y ∷ ys else y ∷ place x ys

  unfoldable pub sort_by : List A → List A
  unfolding place
  sort_by [] = []
  sort_by (x ∷ xs) = place x (sort_by xs)

  pub place-perm : (x : A) (ys : List A) → Perm (place x ys) (x ∷ ys)
  unfolding place
  place-perm x [] = Perm.refl (x ∷ [])
  place-perm x (y ∷ ys) = elim (Bool-cases (before x y)) [
    | inl e ↦ rw e (Perm.refl (x ∷ y ∷ ys))
    | inr e ↦ rw e (Perm.trans (Perm.cons y (place-perm x ys)) (Perm.swap x y ys))
  ]

  pub sort_by-perm : (xs : List A) → Perm (sort_by xs) xs
  unfolding sort_by
  sort_by-perm [] = Perm.refl []
  sort_by-perm (x ∷ xs) = Perm.trans (place-perm x (sort_by xs)) (Perm.cons x (sort_by-perm xs))

  module _ (P : A → Type 0) where
    All-place : (x : A) (ys : List A) → P x → All P ys → All P (place x ys)
    unfolding place
    All-place x [] p h = (p, tt)
    All-place x (y ∷ ys) p h = elim (Bool-cases (before x y)) [
      | inl e ↦ rw e (p, h)
      | inr e ↦ rw e (h.0, All-place x ys p h.1)
    ]

    pub All-sort_by : (xs : List A) → All P xs → All P (sort_by xs)
    unfolding sort_by
    All-sort_by [] h = tt
    All-sort_by (x ∷ xs) h = All-place x (sort_by xs) h.0 (All-sort_by xs h.1)

    All-of_place : (x : A) (ys : List A) → All P (place x ys) → P x × All P ys
    unfolding place
    All-of_place x [] h = h
    All-of_place x (y ∷ ys) h = elim (Bool-cases (before x y)) [
      | inl e ↦ rw e at h
      | inr e ↦ let rest = All-of_place x ys (rw e at h).1 in (rest.0, ((rw e at h).0, rest.1))
    ]

    pub All-of_sort_by : (xs : List A) → All P (sort_by xs) → All P xs
    unfolding sort_by
    All-of_sort_by [] h = tt
    All-of_sort_by (x ∷ xs) h =
        let parts = All-of_place x (sort_by xs) h in (parts.0, All-of_sort_by xs parts.1)

    Any-of_place : (x : A) (ys : List A) → Any P (place x ys) → P x ⊎ Any P ys
    unfolding place
    Any-of_place x [] h = h
    Any-of_place x (y ∷ ys) h = elim (Bool-cases (before x y)) [
      | inl e ↦ rw e at h
      | inr e ↦ swap (Any-of_place x ys) (rw e at h)
    ]
      where
        swap :
            (Any P (place x ys) → P x ⊎ Any P ys) → P y ⊎ Any P (place x ys) → P x ⊎ P y ⊎ Any P ys
        swap ih (inl p) = inr (inl p)
        swap ih (inr m) = elim (ih m) [ inl p ↦ inl p | inr q ↦ inr (inr q) ]

    pub Any-of_sort_by : (xs : List A) → Any P (sort_by xs) → Any P xs
    unfolding sort_by
    Any-of_sort_by [] h = h
    Any-of_sort_by (x ∷ xs) h = elim (Any-of_place x (sort_by xs) h) [
      | inl p ↦ inl p
      | inr m ↦ inr (Any-of_sort_by xs m)
    ]

    Any-place : (x : A) (ys : List A) → P x ⊎ Any P ys → Any P (place x ys)
    unfolding place
    Any-place x [] h = h
    Any-place x (y ∷ ys) h = elim (Bool-cases (before x y)) [
      | inl e ↦ rw e h
      | inr e ↦ rw e (keep (Any-place x ys) h)
    ]
      where
        keep :
            (P x ⊎ Any P ys → Any P (place x ys)) → P x ⊎ P y ⊎ Any P ys → P y ⊎ Any P (place x ys)
        keep ih (inl p) = inr (ih (inl p))
        keep ih (inr (inl q)) = inl q
        keep ih (inr (inr m)) = inr (ih (inr m))

    pub Any-sort_by : (xs : List A) → Any P xs → Any P (sort_by xs)
    unfolding sort_by
    Any-sort_by [] h = h
    Any-sort_by (x ∷ xs) (inl p) = Any-place x (sort_by xs) (inl p)
    Any-sort_by (x ∷ xs) (inr m) = Any-place x (sort_by xs) (inr (Any-sort_by xs m))

-- The order by a numeric key.
abbrev pub by_key {ℓ} : {A : Type ℓ} → (A → ℕ) → A → A → Bool
by_key key x y = leb (key x) (key y)

abbrev pub IsSorted {ℓ} : {A : Type ℓ} → (A → ℕ) → List A → Type 0
IsSorted key [] = Unit
IsSorted key (x ∷ xs) = All (λ y. key x ≤ key y) xs × IsSorted key xs

module _ {ℓ} {A : Type ℓ} (key : A → ℕ) where
  place-IsSorted : (x : A) (ys : List A) → IsSorted key ys → IsSorted key (place (by_key key) x ys)
  unfolding place
  place-IsSorted x [] h = (tt, tt)
  place-IsSorted x (y ∷ ys) h = elim (Bool-cases (leb (key x) (key y))) [
    | inl e ↦
        let le : key x ≤ key y = (leb_iff (key x) (key y)).0 e in
        rw e ((le, All-mono ys (λ z k. le_trans le k) h.0), h)
    | inr e ↦ rw e (
      All-place (by_key key) (λ z. key y ≤ key z) x ys (ground arith) h.0,
      place-IsSorted x ys h.1,
    )
  ]

  pub sort_by-IsSorted : (xs : List A) → IsSorted key (sort_by (by_key key) xs)
  unfolding sort_by
  sort_by-IsSorted [] = tt
  sort_by-IsSorted (x ∷ xs) = place-IsSorted x (sort_by (by_key key) xs) (sort_by-IsSorted xs)

-- How many elements pass a test does not depend on the order.
module _ {ℓ} {A : Type ℓ} (before : A → A → Bool) (p : A → Bool) where
  length-filter-place :
      (x : A) (ys : List A) → length (filter p (place before x ys)) ≡ length (filter p (x ∷ ys))
  unfolding place
  length-filter-place x [] = refl
  length-filter-place x (y ∷ ys) = ground (arith, length-filter-place x ys)

  pub length-filter-sort_by :
      (xs : List A) → length (filter p (sort_by before xs)) ≡ length (filter p xs)
  unfolding sort_by
  length-filter-sort_by [] = refl
  length-filter-sort_by (x ∷ xs) =
      ground (arith, length-filter-place x (sort_by before xs), length-filter-sort_by xs)
