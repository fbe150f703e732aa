-- ===== src/Simulated/Operations.antt =====
-- The methods of the simulated cluster (`SimulatedCluster` in ha-test/hatest/simulated.py). Each
-- first brings the cluster to the time of its clock.
use spr1n6_osscontest_server.Common.{
  ℕ, ◌+◌, String, Bool, true, Option, none, some, List, [], ◌∷◌, ◌&&◌, ◌||◌, not, eqb, ◌==◌, ◌<>◌,
  if◌then◌else◌, Dict, insert, any, contains, text_leb, filter, keys,
}
use text.Mathlib.Text.{starts_with}
use spr1n6_osscontest_server.Common.Sort.{sort_by}
use spr1n6_osscontest_server.Config.{node, node_names, proxy_nodes}
use spr1n6_osscontest_server.Model.{
  Time, Member, silent, NodeFacts, no_facts, Snapshot, ReplicationRow, CpuSample, InsertAck,
  Visibility, Injection,
}
use spr1n6_osscontest_server.Simulated.{NodeState, Cluster, advance}
use spr1n6_osscontest_server.Simulated.Effects.{
  key_error, Method, pure, modify_cluster, read, or_raise, node_at, ◌>>=◌, ◌>>◌,
}
use spr1n6_osscontest_server.Simulated.Script.{
  on_kill, on_revive, on_stop_service, on_start_service, on_switchover, cpu,
}

abbrev pub advance_now : Method (Unit {0})
advance_now = modify_cluster advance

-- The results for a list of names, in a dictionary, in their order.
abbrev pub for_each : {A : Type 0} → (String → Method A) → List String → Dict A → Method (Dict A)
for_each f [] d = pure d
for_each f (name ∷ names) d = f name >>= (λ a. for_each f names (insert name a d))

abbrev facts_from : Cluster → String → NodeState → NodeFacts
facts_from c name n =
    if n.reachable
    then record {
      node = name;
      reachable = true;
      observed_at = some c.now;
      holds_vip = some n.holds_vip;
      patroni_service = some n.patroni_service;
      patroni_enabled = some n.patroni_enabled;
      openproxy_service =
          if contains name (proxy_nodes c.config) then some n.openproxy_service else none;
      watchdog = some n.watchdog;
      boot_id = some n.boot_id;
    }
    else no_facts name

unfoldable pub facts : String → Method NodeFacts
facts name = advance_now >> node_at name >>= (λ n. read (λ c. facts_from c name n))

-- `_member` of a node that is there
abbrev pub member_from : String → Time → NodeState → Member
member_from name at n =
    if not n.reachable || not n.patroni_reachable then silent name (some at) else record {
      node = name;
      observed_at = some at;
      reachable = true;
      role = some n.role;
      state = some n.state;
      timeline = some n.timeline;
      wal_position = some n.wal;
    }

abbrev pub member_at : Time → String → Method Member
member_at at name = node_at name >>= (λ n. pure (member_from name at n))

unfoldable pub members : Method (Dict Member)
members = advance_now >> (λ c. for_each (member_at c.now) (node_names c.config) [] c)

abbrev holder_names : Dict NodeState → List String
holder_names [] = []
holder_names ((name, n) ∷ nodes) =
    let rest = holder_names nodes in if n.holds_vip then name ∷ rest else rest

abbrev first_holder : List String → Option String × Option String
first_holder [] = (none, some "VIP 가 어느 ENI 에도 붙어 있지 않다")
first_holder (name ∷ _) = (some name, none)

unfoldable pub aws_vip_owner : Method (Option String × Option String)
aws_vip_owner = advance_now >> read (λ c. first_holder (holder_names c.nodes))

unfoldable pub snapshot : Bool → Method Snapshot
unfolding facts aws_vip_owner
snapshot include_aws = advance_now >> (λ c.
    (for_each (member_at c.now) (node_names c.config) [] >>= (λ members.
        for_each facts (node_names c.config) [] >>= (λ found.
          let checked = include_aws && c.config.aws_vip_check in
          (if checked then aws_vip_owner else pure (none, none)) >>= (λ owner. pure (record {
            taken_at = c.now;
            members = members;
            facts = found;
            aws_vip_owner = owner.0;
            aws_vip_checked = checked;
            aws_vip_error = owner.1;
          })))))
      c)

-- The rows of the streaming replicas, by name of the member.
abbrev replication_rows : List String → Method (List ReplicationRow)
replication_rows [] = pure []
replication_rows (name ∷ names) = node_at name >>= (λ n.
    if n.role == "replica" && n.state == "streaming"
    then (λ c. (or_raise (key_error name) (node c.config name), c)) >>= (λ k.
        replication_rows names >>= (λ rows. pure (
          record {
            application_name = k.member;
            client_addr = k.ip;
            state = "streaming";
            sync_state = "async";
            replay_lag_bytes = some 0;
          }
          ∷ rows)))
    else replication_rows names)

abbrev by_application : ReplicationRow → ReplicationRow → Bool
by_application a b = text_leb a.application_name b.application_name

unfoldable pub replication : Method (List ReplicationRow)
replication =
    advance_now
    >> (λ c. replication_rows (node_names c.config) c)
    >>= (λ rows. pure (sort_by by_application rows))

unfoldable pub probe_tags : String → Method (List String)
probe_tags run_id =
    advance_now >> read (λ c. filter (λ tag. starts_with tag (run_id <> ":")) (keys c.rows))

abbrev holds_document : ℕ → List ℕ → Bool
holds_document row documents = any (λ d. eqb d row) documents

unfoldable pub row_count : String → ℕ → Method ℕ
row_count name row =
    advance_now
    >> read (λ c. if holds_document row c.documents && name == c.config.primary then 1 else 0)

unfoldable pub boot_id : String → Method (Option String)
boot_id name =
    advance_now >> node_at name >>= (λ n. pure (if n.reachable then some n.boot_id else none))

unfoldable pub ssh_ok : String → Method Bool
ssh_ok name = advance_now >> node_at name >>= (λ n. pure n.reachable)

unfoldable pub cpu_samples : List String → Method (Dict CpuSample)
unfolding cpu
cpu_samples names = advance_now >> (λ c. for_each (λ name. cpu name c.now) names [] c)

-- A method of the script, called with the time of the clock after the cluster was brought there.
abbrev pub at_now : {A : Type 0} → (Time → Method A) → Method A
at_now f = advance_now >> (λ c. f c.now c)

abbrev pub returning_now : (Time → Method (Unit {0})) → Method Time
returning_now f = at_now (λ at. f at >> pure at)

unfoldable pub kill_db_stack : String → Method Injection
unfolding on_kill
kill_db_stack name = at_now (λ at.
    on_kill name at
    >> node_at name
    >>= (λ n. pure (record { node = name; at = at; boot_id = some n.boot_id })))

unfoldable pub revive_db_stack : String → Method Time
unfolding on_revive
revive_db_stack name = returning_now (on_revive name)

unfoldable pub stop_service : String → String → Method Time
unfolding on_stop_service
stop_service name unit = returning_now (on_stop_service name unit)

unfoldable pub start_service : String → String → Method Time
unfolding on_start_service
start_service name unit = returning_now (on_start_service name unit)

unfoldable pub switchover : String → String → Method Time
unfolding on_switchover
switchover leader candidate = returning_now (λ _. on_switchover leader candidate)

-- `_issue_row`
abbrev pub issue_row : String → Method ℕ
issue_row tag c =
    let row = c.next_row + 1 in pure row (record c { next_row = row; rows = insert tag row c.rows })

unfoldable pub recorder_insert : String → Method InsertAck
recorder_insert tag = at_now (λ at.
    issue_row tag
    >>= (λ row. pure (record { tag = tag; row_id = row; primary_at = at; acked_at = at + 10 })))

abbrev const_dict : {A : Type 0} → A → List String → Dict A → Dict A
const_dict a [] d = d
const_dict a (name ∷ names) d = const_dict a names (insert name a d)

unfoldable pub replica_visibility : String → List String → Method Visibility
unfolding recorder_insert
replica_visibility tag replicas = recorder_insert tag >>= (λ ack c.
    pure
      (record {
        insert = ack;
        visible_at = const_dict (some (ack.primary_at + c.settings.replica_lag)) replicas [];
        visible_row = const_dict (some ack.row_id) replicas [];
      })
      c)

abbrev vip_seen : String → Method (Option Bool)
vip_seen name = node_at name >>= (λ n. pure (if n.reachable then some n.holds_vip else none))

unfoldable pub vip_holders : Method (Dict (Option Bool))
vip_holders = advance_now >> (λ c. for_each vip_seen (proxy_nodes c.config) [] c)

unfoldable pub add_document : Method ℕ
add_document c =
    let row = c.next_row + 1 in
    pure row (record c {
      next_row = row;
      documents = if c.settings.write_reaches_primary then row ∷ c.documents else c.documents;
    })
