-- ===== src/Baseline/Sample.antt =====
-- A snapshot of the cluster in its baseline state, for tests (ha-test/hatest/baseline.py).
use spr1n6_osscontest_server.Common.{ℕ, String, Bool, true, false, some, none, [], ◌∷◌}
use spr1n6_osscontest_server.Model.{Member, NodeFacts, Snapshot, silent, no_facts}

abbrev member_of : String → String → String → ℕ → Member
member_of node role state wal = record (silent node (some 0)) {
  reachable = true;
  role = some role;
  state = some state;
  wal_position = some wal;
}

abbrev pub facts_of : String → Bool → String → NodeFacts
facts_of node vip watchdog = record (no_facts node) {
  reachable = true;
  holds_vip = some vip;
  patroni_service = some "active";
  patroni_enabled = some "enabled";
  openproxy_service = some "active";
  watchdog = some watchdog;
}

abbrev pub healthy : Snapshot
healthy = record {
  taken_at = 0;
  members =
      ("db-01", member_of "db-01" "primary" "running" 5000)
      ∷ ("db-02", member_of "db-02" "replica" "streaming" 4990)
      ∷ ("db-03", member_of "db-03" "replica" "streaming" 5000)
      ∷ [];
  facts =
      ("db-01", facts_of "db-01" false "active")
      ∷ ("db-02", facts_of "db-02" true "inactive")
      ∷ ("db-03", facts_of "db-03" false "inactive")
      ∷ [];
  aws_vip_owner = some "db-02";
  aws_vip_checked = true;
  aws_vip_error = none;
}
