-- ===== src/Report/Tests.antt =====
-- Verdicts of small outcomes (ha-test/hatest/report.py).
use spr1n6_osscontest_server.Common.{◌≡◌, refl, Bool, true, false, none, some, [], ◌∷◌}
use spr1n6_osscontest_server.Report.{Outcome, fail, not_tested, decide}

abbrev measured : Bool → Outcome
measured ok = record {
  injected_at = none;
  injection = "";
  measurements = [];
  criteria =
      record { text = "write stop"; ok = true; actual = "31 s" }
      ∷ record { text = "loss"; ok = ok; actual = "0" }
      ∷ [];
  notes = [];
}

decide-failed : decide (some (measured false)) none ≡ fail
unfolding decide
decide-failed = refl

decide-stopped : decide (some (measured true)) (some "Ctrl-C") ≡ not_tested
unfolding decide
decide-stopped = refl
