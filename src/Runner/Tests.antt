-- ===== src/Runner/Tests.antt =====
-- A run in an environment that answers every call, with a clock that only sleeping moves
-- (ha-test/hatest/runner.py).
use spr1n6_osscontest_server.Common.{
  String, ◌+◌, ◌≡◌, ◌≢◌, refl, ◌↔◌, Bool, true, false, Option, none, some, List, [], ◌∷◌, arith,
  Dict, All,
}
use spr1n6_osscontest_server.Common.Sort.{sort_by}
use spr1n6_osscontest_server.Config.Sample.{sample}
use spr1n6_osscontest_server.Model.{
  InsertAck, Time, leaders, leader_names, os_vip_holders, lag_bytes, is_leader, is_replica,
}
use spr1n6_osscontest_server.Baseline.{evaluate}
use spr1n6_osscontest_server.Baseline.Sample.{healthy, facts_of}
use spr1n6_osscontest_server.Report.{Outcome, TcResult, pass, decide}
use spr1n6_osscontest_server.Runner.Effects.{
  Call, snapshot, members, vip_holders, open_app, unlock, lock, recorder_open, recorder_start,
  recorder_stop, recorder_close, confirm, mark, act, ssh_ok, facts, revive_db_stack, start_service,
  switchover, sleep, stop_service, snapshot_without_aws, recorder_recent, recorder_logs,
  replica_visibility, replication, kill_db_stack, boot_id, recorder_insert, probe_tags, watch_vip,
  vip_moved, Answer, Env, Ticks, Run, begin, ok, raise, out_of_fuel, pure, returns,
}
use spr1n6_osscontest_server.Runner.Restore.{restore_cluster, held_by, all_streaming}
use spr1n6_osscontest_server.Runner.Restore.Returns.{restore_cluster-returns}
use spr1n6_osscontest_server.Runner.Terminates.{restore_cluster-ends, finish-ends}
use spr1n6_osscontest_server.Runner.Untouched.{IsLook, run-untouched}
use spr1n6_osscontest_server.Runner.Verdicts.{NotOff, final_verdict-pass_iff}
use spr1n6_osscontest_server.Runner.{Scenario, final_verdict, finish, run, attempt}

abbrev ack : String → InsertAck
ack tag = record { tag = tag; row_id = 1; primary_at = 0; acked_at = 10 }

abbrev reply : (c : Call) → Answer c
reply snapshot = healthy
reply members = healthy.members
reply vip_holders = (("db-02", some true) ∷ ("db-03", some false) ∷ [])
reply open_app = tt
reply unlock = tt
reply (lock _) = none
reply (recorder_open _) = tt
reply (recorder_start _) = tt
reply (recorder_stop _) = tt
reply (recorder_close _) = tt
reply (confirm _) = true
reply (mark _) = tt
reply (act _) = tt
reply (ssh_ok _) = true
reply (facts n) = (facts_of n false "active")
reply (revive_db_stack _) = 0
reply (start_service _ _) = 0
reply (switchover _ _) = 0
reply (stop_service _ _) = 0
reply snapshot_without_aws = healthy
reply recorder_recent = []
reply recorder_logs = record { probe_text = ""; roles_text = ""; attempts = []; roles = [] }
reply (replica_visibility tag) = record { insert = ack tag; visible_at = []; visible_row = [] }
reply (replication _) = []
reply (kill_db_stack n) = record { node = n; at = 0; boot_id = none }
reply (boot_id _) = none
reply (recorder_insert tag) = ack tag
reply (probe_tags _) = []
reply (watch_vip _) = tt
reply (vip_moved n) = record { node = n; os_at = none; aws_at = none }
reply (sleep _) = tt

abbrev pause : Call → Time
pause (sleep ms) = ms
pause _ = 0

abbrev elapsed : List Call → Time
elapsed [] = 0
elapsed (c ∷ calls) = elapsed calls + pause c

abbrev smooth : Env
smooth = record { answer = λ c _. returns (reply c); now = elapsed }

smooth-Ticks : Ticks smooth
smooth-Ticks = record { forward = λ c calls. omega arith; slept = λ ms calls. omega arith }

-- The person does not want the injection.
abbrev refuse : (c : Call) → Answer c
refuse (confirm _) = false
refuse c = reply c

abbrev refusing : Env
refusing = record { answer = λ c _. returns (refuse c); now = elapsed }

abbrev measured : Outcome
measured = record {
  injected_at = some 3000;
  injection = "kill";
  measurements = [];
  criteria = record { text = "a"; ok = true; actual = "b" } ∷ [];
  notes = [];
}

abbrev plain_scenario : Scenario
plain_scenario = record {
  tc = "H-3";
  needs_recorder = true;
  needs_app = false;
  run = pure measured;
}

abbrev locked_run : Run
locked_run = record begin { locked = true; touched = true }

restore_cluster-ends_example : (restore_cluster smooth sample begin).0 ≢ raise out_of_fuel
restore_cluster-ends_example = restore_cluster-ends smooth sample begin smooth-Ticks

finish-ends_example : (finish smooth sample plain_scenario "H-3-1" locked_run).0 ≢ raise out_of_fuel
finish-ends_example = finish-ends smooth sample plain_scenario "H-3-1" locked_run smooth-Ticks

restored : (restore_cluster smooth sample begin).0 ≡ ok tt
unfolding restore_cluster all_streaming leader_names is_leader is_replica
restored = refl

restore_cluster-returns_example :
    (at : Run) × (holders : Dict (Option Bool)) × (smooth.answer vip_holders at.calls
      ≡ returns holders)
    × (held_by holders ≡ "db-02" ∷ [])
    × ((restore_cluster smooth sample begin).1.calls ≡ vip_holders ∷ at.calls)
restore_cluster-returns_example = restore_cluster-returns smooth sample begin restored

stops : (attempt refusing sample false plain_scenario "H-3-1" begin).1.touched ≡ false
unfolding attempt evaluate leaders sort_by leader_names is_leader is_replica lag_bytes
    os_vip_holders
stops = refl

run-untouched_example :
    All IsLook (run refusing sample false false plain_scenario "H-3-1" begin).1.calls
run-untouched_example =
    run-untouched refusing sample false false plain_scenario "H-3-1" (λ s h. h) stops

abbrev result : TcResult
unfolding evaluate
result = record {
  tc = "H-3";
  verdict = pass;
  started_at = 0;
  baseline = evaluate healthy sample;
  outcome = some measured;
  restore = evaluate healthy sample;
  reason = none;
  evidence = some "H-3-1";
  simulated = false;
}

verdict : result.verdict ≡ pass
unfolding result
verdict = refl

final_verdict-pass_iff_example :
    ((final_verdict (some measured) none none).0 ≡ pass)
    ↔ ((decide (some measured) none ≡ pass) × NotOff none)
final_verdict-pass_iff_example = final_verdict-pass_iff (some measured) none none
