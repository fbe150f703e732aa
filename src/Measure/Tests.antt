-- ===== src/Measure/Tests.antt =====
-- Small records, and what is measured on them (ha-test/hatest/measure.py).
use spr1n6_osscontest_server.Common.{
  ℕ, ◌≤◌, ◌≡◌, refl, inl, inr, ◌↔◌, String, Bool, true, false, none, some, List, [], ◌∷◌, ◌&&◌, not,
  contains, map, ltb, All, Any, str,
}
use spr1n6_osscontest_server.Common.Int.{pos}
use spr1n6_osscontest_server.Common.Sort.{sort_by}
use spr1n6_osscontest_server.Model.{Time, ProbeAttempt, RoleSample, silent, is_leader, tag}
use spr1n6_osscontest_server.Measure.{
  write_stop, WriteStop, promotion, max_simultaneous_leaders, loss, succeeded, seq_order,
  acked_tags, acked_before_tags, probe_rows,
}
use spr1n6_osscontest_server.Measure.Stops.{Reports, write_stop-IsBroken}
use spr1n6_osscontest_server.Measure.Promotions.{Shows, promotion-some}
use spr1n6_osscontest_server.Measure.Leaders.{OneLeader, max_simultaneous_leaders_one}
use spr1n6_osscontest_server.Measure.Losses.{tagged, loss_iff}

abbrev write_at : ℕ → Time → Time → Bool → ProbeAttempt
write_at seq start end ok = record { seq = seq; start = start; end = end; ok = ok; detail = "" }

-- One write before the failure, two failed ones, and one after.
abbrev outage : List ProbeAttempt
outage =
    write_at 1 1000 1020 true
    ∷ write_at 2 1500 2500 false
    ∷ write_at 3 2600 3600 false
    ∷ write_at 4 4000 4030 true
    ∷ []

abbrev outage_stop : WriteStop
outage_stop = record {
  duration = some (pos 3010);
  last_ok_at = some 1020;
  first_fail_at = some 1500;
  resumed_at = some 4030;
  failures = 2;
  attempts = 3;
}

write_stop-outage : write_stop outage 1100 none ≡ outage_stop
unfolding write_stop sort_by
write_stop-outage = refl

write_stop-quiet : (write_stop outage 3900 none).duration ≡ some (pos 3010)
unfolding write_stop sort_by
write_stop-quiet = refl

write_stop-IsBroken_example : Reports outage 1100 none (write_stop outage 1100 none)
write_stop-IsBroken_example = write_stop-IsBroken outage 1100 none (inr (inl refl))

abbrev seen : ℕ → String → Time → String → RoleSample
seen tick node at role = record {
  tick = tick;
  member = record (silent node (some at)) { reachable = true; role = some role };
}

abbrev failover : List RoleSample
failover =
    seen 0 "db-01" 1000 "primary"
    ∷ seen 0 "db-02" 1000 "replica"
    ∷ seen 1 "db-02" 2000 "master"
    ∷ seen 2 "db-02" 3000 "primary"
    ∷ []

promotion-failover : promotion failover "db-01" 500 ≡ some ("db-02", 2000)
unfolding promotion is_leader
promotion-failover = refl

promotion-some_example :
    Any (Shows "db-01" 500 "db-02" 2000) failover
    × All (λ s. (n : String) (t : Time) → Shows "db-01" 500 n t s → 2000 ≤ t) failover
promotion-some_example = promotion-some "db-01" 500 failover "db-02" 2000 promotion-failover

max_simultaneous_leaders-split :
    max_simultaneous_leaders (seen 1 "db-01" 2000 "primary" ∷ failover) ≡ 2
unfolding max_simultaneous_leaders is_leader
max_simultaneous_leaders-split = refl

max_simultaneous_leaders_one_example : (max_simultaneous_leaders failover ≤ 1) ↔ OneLeader failover
max_simultaneous_leaders_one_example = max_simultaneous_leaders_one failover

abbrev kept : List String
kept = "H-4:1" ∷ "H-4:3" ∷ "H-4:before-failure" ∷ []

loss-outage : loss outage kept "H-4" 3000 ≡ record {
  acked = 2;
  present = 2;
  lost = "H-4:4" ∷ [];
  lost_before = [];
  unknown_commits = "H-4:3" ∷ [];
}
unfolding loss acked_tags acked_before_tags probe_rows sort_by tag str seq_order
loss-outage = refl

loss_iff_example :
    (contains "H-4:4" (loss outage kept "H-4" 3000).lost
      ≡ (tagged "H-4" succeeded outage "H-4:4" && not (contains "H-4:4" kept)))
    × (contains "H-4:4" (loss outage kept "H-4" 3000).lost_before ≡ (
        tagged "H-4" (λ a. a.ok && ltb a.end 3000) outage "H-4:4" && not (contains "H-4:4" kept)))
    × (contains "H-4:4" (loss outage kept "H-4" 3000).unknown_commits ≡ (
        contains "H-4:4" kept
        && contains "H-4:4" (map (tag "H-4") outage)
        && not (tagged "H-4" succeeded outage "H-4:4")))
loss_iff_example = loss_iff outage kept "H-4" 3000 "H-4:4"
