-- ===== src/Baseline/Tests.antt =====
-- The baseline of the three-node cluster of ha-test/cluster.conf (ha-test/hatest/baseline.py).
use spr1n6_osscontest_server.Common.{
  ◌≡◌, refl, ◌↔◌, Bool, true, false, Option, none, some, [], ◌∷◌, is_some,
}
use spr1n6_osscontest_server.Common.Sort.{sort_by}
use spr1n6_osscontest_server.Config.Sample.{sample}
use spr1n6_osscontest_server.Model.{
  Snapshot, leaders, os_vip_holders, lag_bytes, is_leader, is_replica, leader_names,
}
use spr1n6_osscontest_server.Baseline.Sample.{facts_of, healthy}
use spr1n6_osscontest_server.Baseline.{Checklist, evaluate, passed}
use spr1n6_osscontest_server.Baseline.Meaning.{IsBaseline, Covers, evaluate_iff, evaluate_total}

-- The VIP has moved to the standby proxy.
abbrev moved : Snapshot
moved = record healthy {
  facts =
      ("db-01", facts_of "db-01" false "active")
      ∷ ("db-02", facts_of "db-02" false "inactive")
      ∷ ("db-03", facts_of "db-03" true "inactive")
      ∷ [];
}

abbrev passes : Option Checklist → Bool
passes none = false
passes (some l) = passed l

evaluate-healthy : passes (evaluate healthy sample) ≡ true
unfolding evaluate leaders leader_names os_vip_holders lag_bytes sort_by is_leader is_replica
evaluate-healthy = refl

evaluate-moved : passes (evaluate moved sample) ≡ false
unfolding evaluate leaders leader_names os_vip_holders lag_bytes sort_by is_leader is_replica
evaluate-moved = refl

covered : Covers healthy sample
covered = record {
  known_facts = (refl, (refl, (refl, tt)));
  known_members = (refl, (refl, tt));
  known_proxies = (refl, (refl, tt));
  known_primary = refl;
}

evaluate_total_example : is_some (evaluate healthy sample) ≡ true
evaluate_total_example = evaluate_total healthy sample covered

the_list : (o : Option Checklist) → is_some o ≡ true → (l : Checklist) × (o ≡ some l)
the_list none h = cc
the_list (some l) h = (l, refl)

abbrev healthy_list : Checklist
healthy_list = (the_list (evaluate healthy sample) evaluate_total_example).0

evaluate_iff_example : (passed healthy_list ≡ true) ↔ IsBaseline healthy sample
evaluate_iff_example =
    evaluate_iff healthy sample healthy_list
      (the_list (evaluate healthy sample) evaluate_total_example).1
