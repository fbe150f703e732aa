-- ===== src/Runner.antt =====
-- One run of a test (`TestRunner` in ha-test/hatest/runner.py): baseline, confirmation, lock,
-- injection and measurement, and then, whatever happened, the restoring of the cluster.
-- What is printed and `_save`, which writes the evidence files, are left out.
pub mod Effects
pub mod Ends
pub mod Restore
pub mod Unlocks
pub mod Terminates
mod Tests
pub mod Verdicts
pub mod Untouched
use spr1n6_osscontest_server.Common.{
  ℕ, ◌<>◌, String, Bool, true, false, Option, none, some, List, [], ◌∷◌, ◌&&◌, not, if◌then◌else◌,
  contains, ◌==◌,
}
use spr1n6_osscontest_server.Config.{Config}
use spr1n6_osscontest_server.Model.{Time, Snapshot}
use spr1n6_osscontest_server.Baseline.{Checklist, passed, evaluate}
use spr1n6_osscontest_server.Report.{
  Outcome, TcResult, Verdict, pass, fail, not_tested, decide, is_set,
}
use spr1n6_osscontest_server.Runner.Effects.{
  Call, snapshot, lock, unlock, recorder_open, recorder_start, recorder_stop, recorder_close,
  confirm, mark, open_app, sleep, Env, Run, begin, Result, Action, ok, raise, pure, throw, modify,
  try_except, continue, perform, clock_now, aborted, error, interrupt, out_of_fuel, ◌>>=◌, ◌>>◌,
}
use spr1n6_osscontest_server.Runner.Restore.{restore_cluster}

-- A class of scenarios: what it needs, and its `run`.
pub record Scenario : Type 0 where
  pub tc : String
  pub needs_recorder : Bool
  pub needs_app : Bool
  pub run : Action Outcome

-- `_DISRUPTIVE`
abbrev pub disruptive : List String
disruptive = "H-3" ∷ "H-4" ∷ "H-5" ∷ []

-- A `Checklist`, where a missing name raises KeyError.
abbrev pub or_key_error : Option Checklist → Action Checklist
or_key_error none = throw (error "KeyError" "node")
or_key_error (some l) = pure l

-- `aborted + "; " if aborted else ""`
abbrev kept_reason : Option String → String
kept_reason none = ""
kept_reason (some a) = if a == "" then "" else a <> "; "

abbrev pub after_restore : Verdict → Option String → Option Checklist → Verdict × Option String
after_restore v reason none = (v, reason)
after_restore fail reason (some l) = (fail, reason)
after_restore not_tested reason (some l) = (not_tested, reason)
after_restore pass reason (some l) =
    if passed l then (pass, reason) else (fail, some (kept_reason reason <> "원복 후 기준 상태로 돌아오지 못함"))

-- The verdict and the reason of a run, from the lines after its try statement.
unfoldable pub final_verdict :
    Option Outcome → Option String → Option Checklist → Verdict × Option String
final_verdict outcome reason restore = after_restore (decide outcome reason) reason restore

abbrev pub concluded : Scenario → Time → Option String → Bool → Option String → Run → TcResult
unfolding final_verdict
concluded sc started evidence simulated reason s =
    let judged = final_verdict s.outcome reason s.restore in
    record {
      tc = sc.tc;
      verdict = judged.0;
      started_at = started;
      baseline = s.baseline;
      outcome = s.outcome;
      restore = s.restore;
      reason = judged.1;
      evidence = if simulated then none else evidence;
      simulated = simulated;
    }

abbrev pub conclude : Scenario → Time → Option String → Bool → Option String → Action TcResult
unfolding concluded
conclude sc started evidence simulated reason s =
    (ok (concluded sc started evidence simulated reason s), s)

module _ (env : Env) (c : Config) where
  -- `evaluate(self.cluster.snapshot(), self.config)`
  abbrev pub evaluate_now : Action Checklist
  evaluate_now = perform env snapshot >>= (λ s. or_key_error (evaluate s c))

  unfoldable pub check_baseline : Action Checklist
  check_baseline = evaluate_now >>= (λ l. if passed l then pure l else throw (aborted "기준 상태가 아니다"))

  unfoldable pub confirm_injection : String → Action (Unit {0})
  confirm_injection tc =
      if contains tc disruptive
      then perform env (confirm tc)
        >>= (λ yes. if yes then pure tt else throw (aborted "사용자가 취소했다"))
      else pure tt

  abbrev pub unowned : Option String → Action Bool
  unowned none = pure true
  unowned (some owner) = throw (aborted ("다른 시험이 진행 중이다 (잠금 주인: " <> owner <> ")"))

  unfoldable pub acquire_lock : String → Action Bool
  acquire_lock run_id = perform env (lock run_id) >>= unowned

  -- `self.app_factory` is not None when `has_app` holds.
  unfoldable pub execute : Bool → Scenario → String → Action Outcome
  execute has_app sc run_id =
      (if sc.needs_app && has_app then perform env open_app else pure tt)
      >> (if sc.needs_recorder
          then perform env (recorder_open run_id)
            >> perform env (recorder_start run_id)
            >> perform env (sleep 3000)
          else pure tt)
      >> sc.run

  unfoldable pub stop_recording : Scenario → String → Action (Unit {0})
  stop_recording sc run_id =
      if sc.needs_recorder
      then try_except (perform env (recorder_stop run_id)) (λ _. pure tt)
        >> try_except (perform env (recorder_close run_id)) (λ _. pure tt)
      else pure tt

  -- The lines on the screen are left out. The hint among them, in both clauses, looks up the roles of
  -- the configuration, which `load_config` has found among the nodes.
  unfoldable pub restore : Action (Option Checklist)
  restore =
      try_except (restore_cluster env c >> evaluate_now >>= (λ l. pure (some l))) (λ _. pure none)

  unfoldable pub release_lock : Action (Unit {0})
  release_lock = try_except (perform env unlock) (λ _. pure tt)

  -- The body of the try statement up to `touched = True`.
  abbrev pub look : Scenario → String → Action Bool
  unfolding check_baseline confirm_injection acquire_lock
  look sc run_id =
      check_baseline
      >>= (λ l. modify (λ r. record r { baseline = some l }))
      >> confirm_injection sc.tc
      >> acquire_lock run_id

  unfoldable pub prepare : Scenario → String → Action (Unit {0})
  unfolding look
  prepare sc run_id =
      look sc run_id >>= (λ got. modify (λ r. record r { locked = got; touched = true }))

  -- The body of the try statement.
  unfoldable pub body : Bool → Scenario → String → Action (Unit {0})
  unfolding prepare execute
  body has_app sc run_id =
      prepare sc run_id
      >> execute has_app sc run_id
      >>= (λ o. modify (λ r. record r { outcome = some o }))

  -- The try statement up to its `except` clauses: the text of `aborted`.
  unfoldable pub attempt : Bool → Scenario → String → Action (Option String)
  unfolding body
  attempt has_app sc run_id =
      try_except (body has_app sc run_id >> pure none) (λ reason. pure (some reason))

  abbrev pub mark_restored : Option Checklist → Action (Unit {0})
  mark_restored none = pure tt
  mark_restored (some l) = if passed l then perform env (mark "원복 완료") else pure tt

  abbrev pub clean_up : Scenario → String → Action (Unit {0})
  unfolding stop_recording restore
  clean_up sc run_id =
      stop_recording sc run_id
      >> restore
      >>= (λ r. modify (λ s. record s { restore = r }) >> mark_restored r)

  unfoldable pub cleaned : Scenario → String → Action (Unit {0})
  unfolding clean_up
  cleaned sc run_id s = if s.touched then clean_up sc run_id s else (ok tt, s)

  -- The `finally` clause.
  unfoldable pub finish : Scenario → String → Action (Unit {0})
  unfolding cleaned release_lock
  finish sc run_id = cleaned sc run_id >> (λ s. if s.locked then release_lock s else (ok tt, s))

  -- An interrupt of the try statement is raised again after the `finally` clause.
  unfoldable pub run : Bool → Bool → Scenario → String → Action TcResult
  unfolding attempt finish conclude
  run simulated has_app sc run_id s =
      let tried = attempt has_app sc run_id s in
      (finish sc run_id
          >> (λ t. continue tried.0 (conclude sc (clock_now env s) (some run_id) simulated) t))
        tried.1
