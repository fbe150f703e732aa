-- ===== src/Scenarios/Tests.antt =====
-- A failover, and a failure under writes, of the cluster of ha-test/cluster.conf
-- (ha-test/hatest/scenarios.py).
use spr1n6_osscontest_server.Common.{
  ℕ, ◌+◌, ◌<◌, ◌≡◌, ◌≢◌, refl, ◌↔◌, String, Bool, true, false, Option, none, some, List, [], ◌∷◌,
  contains, arith, str,
}
use spr1n6_osscontest_server.Common.Int.{ℤ}
use spr1n6_osscontest_server.Common.Sort.{sort_by}
use spr1n6_osscontest_server.Config.Sample.{sample}
use spr1n6_osscontest_server.Measure.{
  succeeded, loss, acked_tags, acked_before_tags, probe_rows, seq_order,
}
use spr1n6_osscontest_server.Measure.Losses.{tagged}
use spr1n6_osscontest_server.Model.{Time, silent, ProbeAttempt, RoleSample, RecorderLogs, tag}
use spr1n6_osscontest_server.Report.{decide, pass}
use spr1n6_osscontest_server.Runner.Effects.{
  Call, sleep, Env, Ticks, begin, raise, out_of_fuel, fails,
}
use spr1n6_osscontest_server.Scenarios.Table.{h3, scenario}
use spr1n6_osscontest_server.Scenarios.Failover.{Followed, failover_outcome}
use spr1n6_osscontest_server.Scenarios.Retention.{retention_outcome, marker_of}
use spr1n6_osscontest_server.Measure.{Percent, cpu_window}
use spr1n6_osscontest_server.Scenarios.Replication.{get_known}
use spr1n6_osscontest_server.Scenarios.ReadDistribution.{
  Searched, read_outcome, is_below, sum_of, queries_at,
}
use spr1n6_osscontest_server.Scenarios.Searches.{read_outcome-pass}
use spr1n6_osscontest_server.Scenarios.Ends.Runs.{scenario-ends}
use spr1n6_osscontest_server.Scenarios.Meaning.{
  IsFailover, failover_outcome-pass_iff, retention_outcome-pass,
}

abbrev pause : Call → Time
pause (sleep ms) = ms
pause _ = 0

abbrev elapsed : List Call → Time
elapsed [] = 0
elapsed (c ∷ calls) = elapsed calls + pause c

-- An environment in which every call fails.
abbrev broken : Env
broken = record { answer = λ c _. fails "SshError" "down"; now = elapsed }

broken-Ticks : Ticks broken
broken-Ticks = record { forward = λ c calls. omega arith; slept = λ ms calls. omega arith }

abbrev show : ℕ → Option ℤ → String
show digits d = ""

scenario-ends_example : ((scenario broken show sample "H-3-1" h3).run begin).0 ≢ raise out_of_fuel
scenario-ends_example = scenario-ends broken show sample h3 "H-3-1" begin broken-Ticks

abbrev write_at : ℕ → Time → Bool → ProbeAttempt
write_at seq start ok = record { seq = seq; start = start; end = start + 20; ok = ok; detail = "" }

abbrev leads : ℕ → String → Time → RoleSample
leads tick node at = record {
  tick = tick;
  member = record (silent node (some at)) { reachable = true; role = some "primary" };
}

abbrev logs : RecorderLogs
logs = record {
  probe_text = "";
  roles_text = "";
  attempts = write_at 1 500 true ∷ write_at 2 1500 false ∷ write_at 3 33_000 true ∷ [];
  roles = leads 0 "db-01" 500 ∷ leads 1 "db-02" 31_000 ∷ [];
}

abbrev followed : Followed
followed = record {
  injection = record { node = "db-01"; at = 1000; boot_id = some "a" };
  new_leader = some "db-02";
  boot_after = some "b";
  revived_at = 90_000;
  rejoined_at = some 105_000;
  logs = logs;
}

failover_outcome-pass_iff_example :
    (decide (some (failover_outcome broken show sample followed)) none ≡ pass)
    ↔ IsFailover sample followed
failover_outcome-pass_iff_example = failover_outcome-pass_iff broken show sample followed

abbrev kept : List String
kept = "H-4:before-failure" ∷ "H-4:1" ∷ "H-4:3" ∷ []

retained : decide (some (retention_outcome sample "H-4" 1000 logs kept)) none ≡ pass
unfolding decide retention_outcome loss acked_tags acked_before_tags probe_rows sort_by tag
    seq_order str
retained = refl

retention_outcome-pass_example :
    (contains (marker_of "H-4") kept ≡ true)
    × ((t : String) → tagged "H-4" succeeded logs.attempts t ≡ true → contains t kept ≡ true)
retention_outcome-pass_example = retention_outcome-pass sample "H-4" 1000 logs kept retained

-- Searches that the two replicas answered, while the primary was a tenth busy.
abbrev searched : Searched
searched = record {
  since = 1000;
  web = record { ok_count = 40; failed = 1 };
  mcp = record { ok_count = 41; failed = 0 };
  by_node = ("db-01", 0) ∷ ("db-02", 60) ∷ ("db-03", 55) ∷ [];
  cpu_start = ("db-01", record { node = "db-01"; at = 1000; busy = 100; total = 1000 }) ∷ [];
  cpu_end = ("db-01", record { node = "db-01"; at = 21_000; busy = 300; total = 3000 }) ∷ [];
  uploaded = record { ok = true; detail = "HTTP 201"; document_id = some 9 };
  rows_on_primary = 1;
}

abbrev no_percent : Percent → String
no_percent p = ""

searched-passes : decide (some (read_outcome no_percent sample searched)) none ≡ pass
unfolding decide read_outcome cpu_window
searched-passes = refl

read_outcome-pass_example :
    (0 < 40)
    × (0 < 41)
    × (queries_at searched.by_node "db-01" ≡ 0)
    × (0 < sum_of searched.by_node ("db-02" ∷ "db-03" ∷ []))
    × (is_below 30 (get_known "db-01" (cpu_window searched.cpu_start searched.cpu_end)) ≡ true)
    × (searched.uploaded.ok ≡ true)
    × (searched.rows_on_primary ≡ 1)
read_outcome-pass_example = read_outcome-pass no_percent sample searched searched-passes
