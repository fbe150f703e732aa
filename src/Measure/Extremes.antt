-- ===== src/Measure/Extremes.antt =====
-- The least and the greatest value of a key among the elements that pass a test, as
-- `min(...)` and `max(..., default=None)` compute them (ha-test/hatest/measure.py).
use spr1n6_osscontest_server.Common.{
  ℕ, ◌≤◌, ◌≡◌, inl, inr, Bool, true, false, Option, none, some, List, [], ◌∷◌, arith, map, filter,
  All, Any, All-mono, Bool-cases, Option-cases, ltb, ◌&&◌, &&-eq-true, Any-mono, All-of_filter,
  Any-of_filter, subst,
}
use spr1n6_osscontest_server.Common.Sort.{sort_by, All-of_sort_by, Any-of_sort_by}
use native.Mathlib.Nat.{le_trans}
use spr1n6_osscontest_server.Measure.{min_opt, max_opt}

module _ {A : Type 0} (p : A → Bool) (key : A → ℕ) where
  pub min_opt-none :
      (xs : List A) → min_opt (map key (filter p xs)) ≡ none → All (λ a. p a ≡ false) xs
  min_opt-none [] h = tt
  min_opt-none (x ∷ xs) h = elim (Bool-cases (p x)) [
    | inl t ↦ ground arith
    | inr f ↦ (f, min_opt-none xs (rw f at h))
  ]

  -- The value is one of the tested keys, and none is below it.
  pub min_opt-some :
      (xs : List A) (m : ℕ)
      → min_opt (map key (filter p xs)) ≡ some m
      → All (λ a. p a ≡ true → m ≤ key a) xs × Any (λ a. (p a ≡ true) × (key a ≡ m)) xs
  min_opt-some [] m h = cc
  min_opt-some (x ∷ xs) m h = elim (Bool-cases (p x)) [
    | inl t ↦ elim (Option-cases (min_opt (map key (filter p xs)))) [
      | inl e ↦
          let same : key x ≡ m = ground arith in
          (((λ _. ground arith), All-mono xs (λ a f q. cc) (min_opt-none xs e)), inl (t, same))
      | inr (y, e) ↦
          let rest = min_opt-some xs y e in
          elim (Bool-cases (ltb y (key x))) [
            | inl below ↦
                let same : y ≡ m = ground arith in
                (
                  ((λ _. ground arith), All-mono xs (λ a f q. rw (← same) (f q)) rest.0),
                  inr (subst (λ k. Any (λ a. (p a ≡ true) × (key a ≡ k)) xs) same rest.1),
                )
            | inr above ↦
                let same : key x ≡ m = ground arith in
                let le : m ≤ y = ground arith in
                (
                  ((λ _. ground arith), All-mono xs (λ a f q. le_trans le (f q)) rest.0),
                  inl (t, same),
                )
          ]
    ]
    | inr f ↦ let rest = min_opt-some xs m (rw f at h) in (((λ t. cc), rest.0), inr rest.1)
  ]

  pub max_opt-none :
      (xs : List A) → max_opt (map key (filter p xs)) ≡ none → All (λ a. p a ≡ false) xs
  max_opt-none [] h = tt
  max_opt-none (x ∷ xs) h = elim (Bool-cases (p x)) [
    | inl t ↦ ground arith
    | inr f ↦ (f, max_opt-none xs (rw f at h))
  ]

  -- The value is one of the tested keys, and none is above it.
  pub max_opt-some :
      (xs : List A) (m : ℕ)
      → max_opt (map key (filter p xs)) ≡ some m
      → All (λ a. p a ≡ true → key a ≤ m) xs × Any (λ a. (p a ≡ true) × (key a ≡ m)) xs
  max_opt-some [] m h = cc
  max_opt-some (x ∷ xs) m h = elim (Bool-cases (p x)) [
    | inl t ↦ elim (Option-cases (max_opt (map key (filter p xs)))) [
      | inl e ↦
          let same : key x ≡ m = ground arith in
          (((λ _. ground arith), All-mono xs (λ a f q. cc) (max_opt-none xs e)), inl (t, same))
      | inr (y, e) ↦
          let rest = max_opt-some xs y e in
          elim (Bool-cases (ltb (key x) y)) [
            | inl above ↦
                let same : y ≡ m = ground arith in
                (
                  ((λ _. ground arith), All-mono xs (λ a f q. rw (← same) (f q)) rest.0),
                  inr (subst (λ k. Any (λ a. (p a ≡ true) × (key a ≡ k)) xs) same rest.1),
                )
            | inr below ↦
                let same : key x ≡ m = ground arith in
                let le : y ≤ m = ground arith in
                (
                  ((λ _. ground arith), All-mono xs (λ a f q. le_trans (f q) le) rest.0),
                  inl (t, same),
                )
          ]
    ]
    | inr f ↦ let rest = max_opt-some xs m (rw f at h) in (((λ t. cc), rest.0), inr rest.1)
  ]

-- What is known of an optional greatest value: it is none exactly when nothing passes the test.
abbrev pub Greatest : {A : Type 0} → (A → Bool) → (A → ℕ) → List A → Option ℕ → Type 0
Greatest p key xs none = All (λ a. p a ≡ false) xs
Greatest p key xs (some m) =
    All (λ a. p a ≡ true → key a ≤ m) xs × Any (λ a. (p a ≡ true) × (key a ≡ m)) xs

abbrev pub Least : {A : Type 0} → (A → Bool) → (A → ℕ) → List A → Option ℕ → Type 0
Least p key xs none = All (λ a. p a ≡ false) xs
Least p key xs (some m) =
    All (λ a. p a ≡ true → m ≤ key a) xs × Any (λ a. (p a ≡ true) × (key a ≡ m)) xs

module _ {A : Type 0} (p : A → Bool) (key : A → ℕ) (xs : List A) where
  pub max_opt-Greatest : Greatest p key xs (max_opt (map key (filter p xs)))
  max_opt-Greatest = elim (Option-cases (max_opt (map key (filter p xs)))) [
    | inl e ↦ rw e (max_opt-none p key xs e)
    | inr (m, e) ↦ rw e (max_opt-some p key xs m e)
  ]

  pub min_opt-Least : Least p key xs (min_opt (map key (filter p xs)))
  min_opt-Least = elim (Option-cases (min_opt (map key (filter p xs)))) [
    | inl e ↦ rw e (min_opt-none p key xs e)
    | inr (m, e) ↦ rw e (min_opt-some p key xs m e)
  ]

-- Both are unchanged by sorting, and a filter before them is one more test.
module _ {A : Type 0} (before : A → A → Bool) (ok q : A → Bool) (key : A → ℕ) (xs : List A) where
  All-false : All (λ a. q a ≡ false) (filter ok xs) → All (λ a. (ok a && q a) ≡ false) xs
  All-false h = All-mono xs (λ a f. ground (arith, f)) (All-of_filter _ ok xs h)

  Any-tested :
      (m : ℕ)
      → Any (λ a. (q a ≡ true) × (key a ≡ m)) (filter ok xs)
      → Any (λ a. ((ok a && q a) ≡ true) × (key a ≡ m)) xs
  Any-tested m h = Any-mono xs (λ a f. (ground arith, f.1.1)) (Any-of_filter _ ok xs h)

  pub Greatest-of_sorted :
      (o : Option ℕ)
      → Greatest q key (sort_by before (filter ok xs)) o
      → Greatest (λ a. ok a && q a) key xs o
  Greatest-of_sorted none h = All-false (All-of_sort_by before _ (filter ok xs) h)
  Greatest-of_sorted (some m) h = (
    All-mono xs (λ a f t. f (&&-eq-true _ _ t).0 (&&-eq-true _ _ t).1)
        (All-of_filter _ ok xs (All-of_sort_by before _ (filter ok xs) h.0)),
    Any-tested m (Any-of_sort_by before _ (filter ok xs) h.1),
  )

  pub Least-of_sorted :
      (o : Option ℕ)
      → Least q key (sort_by before (filter ok xs)) o
      → Least (λ a. ok a && q a) key xs o
  Least-of_sorted none h = All-false (All-of_sort_by before _ (filter ok xs) h)
  Least-of_sorted (some m) h = (
    All-mono xs (λ a f t. f (&&-eq-true _ _ t).0 (&&-eq-true _ _ t).1)
        (All-of_filter _ ok xs (All-of_sort_by before _ (filter ok xs) h.0)),
    Any-tested m (Any-of_sort_by before _ (filter ok xs) h.1),
  )
