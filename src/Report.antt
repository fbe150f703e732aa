-- ===== src/Report.antt =====
-- The form of a result, and the verdict (ha-test/hatest/report.py).
pub mod Decision
mod Tests
use spr1n6_osscontest_server.Common.{
  ℕ, ◌<>◌, String, Bool, true, false, Option, none, some, List, [], ◌∷◌, ◌||◌, ◌&&◌, all, is_empty,
  if◌then◌else◌, filter, map, not, join, is_none, ◌==◌,
}
use spr1n6_osscontest_server.Baseline.{Checklist, summary}
use spr1n6_osscontest_server.Model.{Time}

pub data Verdict : Type 0 where
  pass fail not_tested : Verdict

abbrev pub label : Verdict → String
label pass = "Pass"
label fail = "Fail"
label not_tested = "NT"

pub record Criterion : Type 0 where
  pub text : String
  pub ok : Bool
  pub actual : String

pub record Outcome : Type 0 where
  pub injected_at : Option Time
  pub injection : String
  pub measurements : List (String × String)
  pub criteria : List Criterion
  pub notes : List String

-- `evidence` is the path of the folder, as a text.
pub record TcResult : Type 0 where
  pub tc : String
  pub verdict : Verdict
  pub started_at : Time
  pub baseline : Option Checklist
  pub outcome : Option Outcome
  pub restore : Option Checklist
  pub reason : Option String
  pub evidence : Option String
  pub simulated : Bool

-- A text that is None or empty is false.
abbrev pub is_set : Option String → Bool
is_set none = false
is_set (some s) = not (s == "")

unfoldable pub decide : Option Outcome → Option String → Verdict
decide none aborted = not_tested
decide (some outcome) aborted =
    if is_set aborted || is_empty outcome.criteria
    then not_tested
    else if all (λ c. c.ok) outcome.criteria
    then pass
    else fail

-- What `render_summary` prints beside a result: the criteria that failed, or the reason.
unfoldable pub summary_note : TcResult → String
summary_note r = elim r.outcome [
  | none ↦ reason_text r.reason
  | some o ↦ elim r.verdict [
    | fail ↦ join ", " (map (λ c. c.text) (filter (λ c. not c.ok) o.criteria))
    | _ ↦ reason_text r.reason
  ]
]
  where
    reason_text : Option String → String
    reason_text none = ""
    reason_text (some s) = s
