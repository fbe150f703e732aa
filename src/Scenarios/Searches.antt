-- ===== src/Scenarios/Searches.antt =====
-- What a Pass of H-2 means (ha-test/hatest/scenarios.py).
use spr1n6_osscontest_server.Common.{◌≡◌, true, String, none, some, ◌&&◌, ◌<◌, eqb, arith}
use spr1n6_osscontest_server.Config.{Config, replicas}
use spr1n6_osscontest_server.Measure.{Percent, cpu_window}
use spr1n6_osscontest_server.Report.{decide, pass}
use spr1n6_osscontest_server.Scenarios.Replication.{get_known}
use spr1n6_osscontest_server.Scenarios.ReadDistribution.{
  Searched, queries_at, sum_of, is_on_replicas, is_below, read_outcome,
}

module _ (percent_text : Percent → String) (c : Config) (s : Searched) where
  criteria-hold :
      decide (some (read_outcome percent_text c s)) none ≡ pass
      → (is_on_replicas percent_text c s ≡ true)
        × (is_below 30 (get_known c.primary (cpu_window s.cpu_start s.cpu_end)) ≡ true)
        × ((s.uploaded.ok && eqb s.rows_on_primary 1) ≡ true)
  unfolding decide read_outcome
  criteria-hold h = (ground arith, ground arith, ground arith)

  -- If the verdict of an H-2 that was not stopped is Pass, then searches by both ways succeeded, none
  -- of their queries was seen on the primary and some on the replicas, the load of the primary was
  -- measured below 30%, and the uploaded document has one row on the primary.
  pub read_outcome-pass :
      decide (some (read_outcome percent_text c s)) none ≡ pass
      → (0 < s.web.ok_count)
        × (0 < s.mcp.ok_count)
        × (queries_at s.by_node c.primary ≡ 0)
        × (0 < sum_of s.by_node (replicas c))
        × (is_below 30 (get_known c.primary (cpu_window s.cpu_start s.cpu_end)) ≡ true)
        × (s.uploaded.ok ≡ true)
        × (s.rows_on_primary ≡ 1)
  read_outcome-pass h =
      let (queries, load, row) = criteria-hold h in
      (ground arith, ground arith, ground arith, ground arith, load, ground arith, ground arith)
