-- ===== src/Scenarios/Table.antt =====
-- The table of the scenarios (`SCENARIOS` in ha-test/hatest/scenarios.py), without H-2.
use spr1n6_osscontest_server.Common.{ℕ, String, true, false, Option}
use spr1n6_osscontest_server.Common.Int.{ℤ}
use spr1n6_osscontest_server.Config.{Config}
use spr1n6_osscontest_server.Runner.{Scenario}
use spr1n6_osscontest_server.Runner.Effects.{Env}
use spr1n6_osscontest_server.Scenarios.Replication.{replication_run}
use spr1n6_osscontest_server.Scenarios.Failover.{failover_run}
use spr1n6_osscontest_server.Scenarios.Retention.{retention_run}
use spr1n6_osscontest_server.Scenarios.ProxyFailover.{proxy_run}
use spr1n6_osscontest_server.Scenarios.NodeStatus.{status_run}

pub data TestCase : Type 0 where
  h1 h3 h4 h5 h6 : TestCase

abbrev pub scenario : Env → (ℕ → Option ℤ → String) → Config → String → TestCase → Scenario
scenario env fmt_seconds c run_id h1 = record {
  tc = "H-1";
  needs_recorder = true;
  needs_app = false;
  run = replication_run env fmt_seconds c run_id;
}
scenario env fmt_seconds c run_id h3 = record {
  tc = "H-3";
  needs_recorder = true;
  needs_app = false;
  run = failover_run env fmt_seconds c;
}
scenario env fmt_seconds c run_id h4 = record {
  tc = "H-4";
  needs_recorder = true;
  needs_app = false;
  run = retention_run env c run_id;
}
scenario env fmt_seconds c run_id h5 = record {
  tc = "H-5";
  needs_recorder = true;
  needs_app = false;
  run = proxy_run env fmt_seconds c run_id;
}
scenario env fmt_seconds c run_id h6 = record {
  tc = "H-6";
  needs_recorder = false;
  needs_app = false;
  run = status_run env fmt_seconds c;
}
