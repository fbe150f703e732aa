-- ===== src/Model.antt =====
-- The values that are read from the cluster (ha-test/hatest/model.py).
-- Times are milliseconds, positions and counters are numbers, and a `Mapping` is a `Dict`.
pub mod Lag
mod Tests
use spr1n6_osscontest_server.Common.{
  ℕ, ◌-◌, ◌<>◌, String, Bool, true, false, Option, none, some, List, [], ◌∷◌, ◌&&◌, ◌||◌, not, Dict,
  lookup, filter, keys, text_leb, some_eq, or_else, ◌==◌, if◌then◌else◌, str,
}
use spr1n6_osscontest_server.Common.Sort.{sort_by}

abbrev pub Time : Type 0
Time = ℕ

-- `role in LEADER_ROLES`
abbrev pub in_leader_roles : Option String → Bool
in_leader_roles role = some_eq role "primary" || some_eq role "master"

-- `role in REPLICA_ROLES`
abbrev pub in_replica_roles : Option String → Bool
in_replica_roles role = some_eq role "replica"

pub record Member : Type 0 where
  pub node : String
  pub observed_at : Option Time
  pub reachable : Bool
  pub role : Option String
  pub state : Option String
  pub timeline : Option ℕ
  pub wal_position : Option ℕ

-- `Member(node, observed_at, False)`: the defaults of the fields.
abbrev pub silent : String → Option Time → Member
silent node observed_at = record {
  node = node;
  observed_at = observed_at;
  reachable = false;
  role = none;
  state = none;
  timeline = none;
  wal_position = none;
}

unfoldable pub is_leader : Member → Bool
is_leader m = m.reachable && in_leader_roles m.role

unfoldable pub is_replica : Member → Bool
is_replica m = m.reachable && in_replica_roles m.role

unfoldable pub is_running : Member → Bool
is_running m = m.reachable && (some_eq m.state "running" || some_eq m.state "streaming")

unfoldable pub display_role : Member → String
unfolding is_leader is_replica
display_role m =
    if not m.reachable
    then "-"
    else if is_leader m
    then "Leader"
    else if is_replica m
    then "Replica"
    else or_else m.role "-"

unfoldable pub display_state : Member → String
display_state m = if m.reachable then or_else m.state "응답 없음" else "응답 없음"

pub record NodeFacts : Type 0 where
  pub node : String
  pub reachable : Bool
  pub observed_at : Option Time
  pub holds_vip : Option Bool
  pub patroni_service : Option String
  pub patroni_enabled : Option String
  pub openproxy_service : Option String
  pub watchdog : Option String
  pub boot_id : Option String

-- `NodeFacts(node=node, reachable=False)`
abbrev pub no_facts : String → NodeFacts
no_facts node = record {
  node = node;
  reachable = false;
  observed_at = none;
  holds_vip = none;
  patroni_service = none;
  patroni_enabled = none;
  openproxy_service = none;
  watchdog = none;
  boot_id = none;
}

pub record Snapshot : Type 0 where
  pub taken_at : Time
  pub members : Dict Member
  pub facts : Dict NodeFacts
  pub aws_vip_owner : Option String
  pub aws_vip_checked : Bool
  pub aws_vip_error : Option String

-- `[name for name, member in members.items() if member.is_leader]`
unfoldable pub leader_names : Dict Member → List String
leader_names [] = []
leader_names ((name, member) ∷ members) =
    let rest = leader_names members in if is_leader member then name ∷ rest else rest

unfoldable pub leaders : Snapshot → List String
leaders s = sort_by text_leb (leader_names s.members)

-- `leaders[0] if len(leaders) == 1 else None`
abbrev pub only {ℓ} : {A : Type ℓ} → List A → Option A
only (x ∷ []) = some x
only _ = none

unfoldable pub leader : Snapshot → Option String
unfolding leaders
leader s = only (leaders s)

abbrev pub truthy : Option Bool → Bool
truthy (some true) = true
truthy _ = false

holder_names : Dict NodeFacts → List String
holder_names [] = []
holder_names ((name, facts) ∷ d) =
    let rest = holder_names d in if truthy facts.holds_vip then name ∷ rest else rest

unfoldable pub os_vip_holders : Snapshot → List String
unfolding holder_names
os_vip_holders s = sort_by text_leb (holder_names s.facts)

abbrev pub values {ℓ} : {V : Type ℓ} → Dict V → List V
values [] = []
values ((_, v) ∷ d) = v ∷ values d

-- The difference of two positions, as `max(a - b, 0)`, where both are known.
abbrev pub behind : Option ℕ → Option ℕ → Option ℕ
behind (some ahead) (some own) = some (ahead - own)
behind _ _ = none

abbrev pub replica_lag : Member → Option Member → Option ℕ
replica_lag top none = none
replica_lag top (some m) = if is_replica m then behind top.wal_position m.wal_position else none

abbrev pub lag_from : Option Member → Option Member → Option ℕ
lag_from none m = none
lag_from (some top) m = replica_lag top m

unfoldable pub lag_bytes : Dict Member → String → Option ℕ
lag_bytes members node = lag_from (only (filter is_leader (values members))) (lookup node members)

pub record ReplicationRow : Type 0 where
  pub application_name : String
  pub client_addr : String
  pub state : String
  pub sync_state : String
  pub replay_lag_bytes : Option ℕ

pub record ProbeAttempt : Type 0 where
  pub seq : ℕ
  pub start : Time
  pub end : Time
  pub ok : Bool
  pub detail : String

unfoldable pub tag : String → ProbeAttempt → String
tag run_id a = run_id <> ":" <> str a.seq

pub record RoleSample : Type 0 where
  pub tick : ℕ
  pub member : Member

pub record RecorderLogs : Type 0 where
  pub probe_text : String
  pub roles_text : String
  pub attempts : List ProbeAttempt
  pub roles : List RoleSample

pub record CpuSample : Type 0 where
  pub node : String
  pub at : Time
  pub busy : ℕ
  pub total : ℕ

pub record InsertAck : Type 0 where
  pub tag : String
  pub row_id : ℕ
  pub primary_at : Time
  pub acked_at : Time

pub record Visibility : Type 0 where
  pub insert : InsertAck
  pub visible_at : Dict (Option Time)
  pub visible_row : Dict (Option ℕ)

pub record VipMove : Type 0 where
  pub node : String
  pub os_at : Option Time
  pub aws_at : Option Time

pub record Injection : Type 0 where
  pub node : String
  pub at : Time
  pub boot_id : Option String
