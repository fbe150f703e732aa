-- ===== src/Model/Tests.antt =====
-- The lag of a replica behind its Leader (ha-test/hatest/model.py).
use spr1n6_osscontest_server.Common.{ℕ, ◌≡◌, ◌↔◌, String, true, some, [], ◌∷◌, Dict}
use spr1n6_osscontest_server.Model.{Member, silent, lag_bytes}
use spr1n6_osscontest_server.Model.Lag.{IsLag, lag_bytes-IsLag}

abbrev member_of : String → String → ℕ → Member
member_of node role wal = record (silent node (some 0)) {
  reachable = true;
  role = some role;
  wal_position = some wal;
}

abbrev pair : Dict Member
pair =
    ("db-01", member_of "db-01" "primary" 5000) ∷ ("db-02", member_of "db-02" "replica" 4990) ∷ []

lag_bytes-IsLag_example : (lag_bytes pair "db-02" ≡ some 10) ↔ IsLag pair "db-02" 10
lag_bytes-IsLag_example = lag_bytes-IsLag pair "db-02" 10
