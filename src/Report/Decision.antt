-- ===== src/Report/Decision.antt =====
-- When a test passes (ha-test/hatest/report.py).
use spr1n6_osscontest_server.Common.{
  ◌≡◌, ◌≢◌, refl, ◌↔◌, ◌⊎◌, inl, inr, String, true, false, Option, none, some, [], arith, All,
  all→All, All→all, Bool-cases,
}
use spr1n6_osscontest_server.Report.{pass, not_tested, Outcome, Criterion, decide, is_set}

-- A run that was measured to the end: it was not stopped, and it has criteria.
pub record IsMeasured (o : Outcome) (aborted : Option String) : Type 0 where
  pub finished : is_set aborted ≡ false
  pub judged : o.criteria ≢ []

-- The verdict is Pass exactly when the run was measured to the end and every criterion holds.
pub decide-pass_iff :
    (o : Outcome) (aborted : Option String)
    → (decide (some o) aborted ≡ pass) ↔ (IsMeasured o aborted × All (λ c. c.ok ≡ true) o.criteria)
unfolding decide
decide-pass_iff o aborted = (to, from)
  where
    to : decide (some o) aborted ≡ pass → IsMeasured o aborted × All (λ c. c.ok ≡ true) o.criteria
    to h = (
      record { finished = ground arith; judged = λ e. ground (arith, e) },
      all→All (λ (c : Criterion). c.ok) o.criteria (ground arith),
    )

    from : IsMeasured o aborted × All (λ c. c.ok ≡ true) o.criteria → decide (some o) aborted ≡ pass
    from (m, h) =
        ground (arith, m.finished, m.judged, All→all (λ (c : Criterion). c.ok) o.criteria h)

-- The verdict is NT exactly when there is no outcome, or the run was stopped, or there is no criterion.
pub decide-not_tested_iff :
    (o : Option Outcome) (aborted : Option String)
    → (decide o aborted ≡ not_tested)
      ↔ ((o ≡ none) ⊎ (is_set aborted ≡ true) ⊎ ((p : Outcome) × (o ≡ some p) × (p.criteria ≡ [])))
unfolding decide
decide-not_tested_iff none aborted = ((λ h. inl refl), (λ h. refl))
decide-not_tested_iff (some p) aborted = (to, from)
  where
    to :
        decide (some p) aborted ≡ not_tested
        → (some p ≡ none)
          ⊎ (is_set aborted ≡ true)
          ⊎ ((q : Outcome) × (some p ≡ some q) × (q.criteria ≡ []))
    to h = elim (Bool-cases (is_set aborted)) [
      | inl e ↦ inr (inl e)
      | inr e ↦ inr (inr (p, refl, ground arith))
    ]

    from :
        (some p ≡ none)
          ⊎ (is_set aborted ≡ true)
          ⊎ ((q : Outcome) × (some p ≡ some q) × (q.criteria ≡ []))
        → decide (some p) aborted ≡ not_tested
    from (inl e) = cc
    from (inr (inl e)) = ground arith
    from (inr (inr (q, e, c))) = ground arith
