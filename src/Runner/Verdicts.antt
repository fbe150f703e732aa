-- ===== src/Runner/Verdicts.antt =====
-- What a run that passes has shown (ha-test/hatest/runner.py).
use spr1n6_osscontest_server.Common.{
  ◌≡◌, ◌≢◌, refl, ◌↔◌, String, true, Option, none, some, [], arith, All,
}
use spr1n6_osscontest_server.Config.{Config}
use spr1n6_osscontest_server.Baseline.{Checklist, passed}
use spr1n6_osscontest_server.Report.{Outcome, TcResult, Verdict, pass, fail, not_tested, decide}
use spr1n6_osscontest_server.Runner.Effects.{ok}
use spr1n6_osscontest_server.Runner.{final_verdict, after_restore}

-- The last check did not find the baseline state missing: it found it, or it could not be made.
abbrev pub NotOff : Option Checklist → Type 0
NotOff none = Unit
NotOff (some l) = passed l ≡ true

after_restore-pass_iff :
    (v : Verdict) (reason : Option String) (restore : Option Checklist)
    → ((after_restore v reason restore).0 ≡ pass) ↔ ((v ≡ pass) × NotOff restore)
after_restore-pass_iff v reason none = ((λ h. (h, tt)), (λ h. h.0))
after_restore-pass_iff pass reason (some l) =
    ((λ h. (refl, ground arith)), (λ h. ground (arith, h.1)))
after_restore-pass_iff fail reason (some l) = ((λ h. cc), (λ h. h.0))
after_restore-pass_iff not_tested reason (some l) = ((λ h. cc), (λ h. h.0))

-- The verdict of a run is Pass exactly when the outcome alone says so and the check after the
-- restoring, where there was one, passed. A restoring that raised leaves the verdict as it is.
pub final_verdict-pass_iff :
    (o : Option Outcome) (reason : Option String) (restore : Option Checklist)
    → ((final_verdict o reason restore).0 ≡ pass) ↔ ((decide o reason ≡ pass) × NotOff restore)
unfolding final_verdict
final_verdict-pass_iff o reason restore = after_restore-pass_iff (decide o reason) reason restore

-- What a result of Pass shows.
pub record Shown (r : TcResult) : Type 0 where
  pub measured : Outcome
  pub recorded : r.outcome ≡ some measured
  pub judged : measured.criteria ≢ []
  pub criteria : All (λ c. c.ok ≡ true) measured.criteria
  pub restored : NotOff r.restore
