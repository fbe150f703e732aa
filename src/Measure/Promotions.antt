-- ===== src/Measure/Promotions.antt =====
-- Who was promoted, and when: `promotion` (ha-test/hatest/measure.py).
use native.Mathlib.Nat.{le_refl, le_trans}
use spr1n6_osscontest_server.Common.{
  ◌≤◌, ◌≡◌, refl, inl, inr, String, true, false, Option, none, some, List, [], ◌∷◌, arith, ◌==◌,
  ltb, All, Any, In, All-mono, Bool-cases, Option-cases, sym, subst,
}
use spr1n6_osscontest_server.Model.{Time, RoleSample, is_leader}
use spr1n6_osscontest_server.Measure.{promotion, prepend, candidate, seen_leaders, earliest}

-- The sample shows `node` as a Leader other than `old`, observed at `at`, not before `since`.
pub record Shows (old : String) (since : Time) (node : String) (at : Time) (s : RoleSample)
    : Type 0 where
  pub leads : is_leader s.member ≡ true
  pub other : (s.member.node == old) ≡ false
  pub named : s.member.node ≡ node
  pub seen : s.member.observed_at ≡ some at
  pub later : since ≤ at

earliest-none : (cs : List (String × Time)) → earliest cs ≡ none → cs ≡ []
unfolding earliest
earliest-none [] h = refl
earliest-none (c ∷ cs) h = ground arith

earliest-some :
    (cs : List (String × Time)) (c : String × Time)
    → earliest cs ≡ some c
    → All (λ d. c.1 ≤ d.1) cs × In c cs
unfolding earliest
earliest-some [] c h = cc
earliest-some (d ∷ ds) c h = elim (Option-cases (earliest ds)) [
  | inl e ↦
      let same : d ≡ c = ground arith in
      rw (earliest-none ds e) ((rw same (le_refl c.1), tt), inl (sym same))
  | inr (b, e) ↦
      let rest = earliest-some ds b e in
      elim (Bool-cases (ltb b.1 d.1)) [
        | inl below ↦
            let same : b ≡ c = ground arith in
            (
              (ground arith, subst (λ (k : String × Time). All (λ e. k.1 ≤ e.1) ds) same rest.0),
              inr (subst (λ k. In k ds) same rest.1),
            )
        | inr above ↦
            let same : d ≡ c = ground arith in
            let le : d.1 ≤ b.1 = ground arith in
            let mono : All (λ e. d.1 ≤ e.1) ds = All-mono ds (λ x k. le_trans le k) rest.0 in
            (
              (ground arith, subst (λ (k : String × Time). All (λ e. k.1 ≤ e.1) ds) same mono),
              inl (sym same),
            )
      ]
]

module _ (old : String) (since : Time) where
  candidate-Shows :
      (s : RoleSample) (c : String × Time)
      → candidate old since s ≡ some c
      → Shows old since c.0 c.1 s
  unfolding candidate
  candidate-Shows s c h = ground arith

  Shows-candidate :
      (s : RoleSample) (node : String) (at : Time)
      → Shows old since node at s
      → candidate old since s ≡ some (node, at)
  unfolding candidate
  Shows-candidate s node at h = ground arith

  abbrev Holds : (String → Time → Type 0) → RoleSample → Type 0
  Holds P s = (node : String) (at : Time) → Shows old since node at s → P node at

  seen-All :
      (P : String → Time → Type 0) (samples : List RoleSample)
      → All (λ c. P c.0 c.1) (seen_leaders old since samples)
      → All (Holds P) samples
  unfolding seen_leaders
  seen-All P [] h = tt
  seen-All P (s ∷ samples) h = by_cases (candidate old since s) refl (seen-All P samples) h
    where
      by_cases :
          (o : Option (String × Time))
          → candidate old since s ≡ o
          → (All (λ c. P c.0 c.1) (seen_leaders old since samples) → All (Holds P) samples)
          → All (λ c. P c.0 c.1) (prepend o (seen_leaders old since samples))
          → All (Holds P) (s ∷ samples)
      by_cases none e ih k = ((λ node at shown. cc (Shows-candidate s node at shown)), ih k)
      by_cases (some c) e ih k = (
        (λ node at shown.
            let same : c ≡ (node, at) = cc (Shows-candidate s node at shown) in
            subst (λ (k : String × Time). P k.0 k.1) same k.0),
        ih k.1,
      )

  seen-In :
      (c : String × Time) (samples : List RoleSample)
      → In c (seen_leaders old since samples)
      → Any (Shows old since c.0 c.1) samples
  unfolding seen_leaders
  seen-In c [] h = absurd h
  seen-In c (s ∷ samples) h = by_cases (candidate old since s) refl (seen-In c samples) h
    where
      by_cases :
          (o : Option (String × Time))
          → candidate old since s ≡ o
          → (In c (seen_leaders old since samples) → Any (Shows old since c.0 c.1) samples)
          → In c (prepend o (seen_leaders old since samples))
          → Any (Shows old since c.0 c.1) (s ∷ samples)
      by_cases none e ih k = inr (ih k)
      by_cases (some d) e ih (inl same) = inl (candidate-Shows s c (cc))
      by_cases (some d) e ih (inr m) = inr (ih m)

  -- If `promotion` reports a node and a time, then some sample shows that node as a Leader other
  -- than the old one at that time, not before `since`, and no sample shows any such Leader earlier.
  pub promotion-some :
      (samples : List RoleSample) (node : String) (at : Time)
      → promotion samples old since ≡ some (node, at)
      → Any (Shows old since node at) samples
        × All (λ s. (n : String) (t : Time) → Shows old since n t s → at ≤ t) samples
  unfolding promotion
  promotion-some samples node at h =
      let found = earliest-some (seen_leaders old since samples) (node, at) h in
      (seen-In (node, at) samples found.1, seen-All (λ n t. at ≤ t) samples found.0)

  -- If `promotion` reports nobody, then no sample shows a Leader other than the old one at a time
  -- that is not before `since`.
  pub promotion-none :
      (samples : List RoleSample)
      → promotion samples old since ≡ none
      → All (λ s. (n : String) (t : Time) → ¬ (Shows old since n t s)) samples
  unfolding promotion
  promotion-none samples h =
      seen-All (λ n t. ⊥) samples (rw (earliest-none (seen_leaders old since samples) h) tt)
