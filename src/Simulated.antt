-- ===== src/Simulated.antt =====
-- The simulated cluster and its script (ha-test/hatest/simulated.py): the state of the nodes, and
-- the changes that the script has scheduled. Times are milliseconds.
pub mod Effects
pub mod Script
pub mod Logs
pub mod Operations
pub mod Texts
pub mod Timeline
pub mod Vip
pub mod Kill
mod Tests
use spr1n6_osscontest_server.Common.{
  ℕ, ◌+◌, ◌*◌, ◌/◌, String, Bool, true, false, Option, none, some, List, [], ◌∷◌, ◌++◌, ◌&&◌, not,
  leb, ◌==◌, ◌<>◌, str, if◌then◌else◌, Dict, lookup, insert, modify,
}
use spr1n6_osscontest_server.Config.{Config, node_names, proxy_nodes}
use spr1n6_osscontest_server.Model.{Time}

pub record NodeState : Type 0 where
  pub role : String
  pub state : String
  pub timeline : ℕ
  pub wal : ℕ
  pub patroni_service : String
  pub patroni_enabled : String
  pub openproxy_service : String
  pub watchdog : String
  pub holds_vip : Bool
  pub postgres_procs : ℕ
  pub reachable : Bool
  pub patroni_reachable : Bool
  pub boot_id : String

-- `_NodeState()`
abbrev pub fresh : NodeState
fresh = record {
  role = "replica";
  state = "streaming";
  timeline = 53;
  wal = 10_000_000;
  patroni_service = "active";
  patroni_enabled = "enabled";
  openproxy_service = "active";
  watchdog = "inactive";
  holds_vip = false;
  postgres_procs = 1;
  reachable = true;
  patroni_reachable = true;
  boot_id = "boot-0";
}

-- The functions that the script schedules, with the variables they close over.
pub data Change : Type 0 where
  reboot_start stopped streaming : String → Change
  reboot_end : String → Time → Change
  promote rejoin : String → ℕ → Change
  move_vip : String → String → Change
  restore_vip : Change

-- An entry of `_events`; `done` says that its index is in `_done`.
pub record Event : Type 0 where
  pub at : Time
  pub change : Change
  pub done : Bool

-- The settings of a script. CPU shares are in tenths of a percent.
pub record Settings : Type 0 where
  pub replica_lag : Time
  pub reboot_after : Time
  pub reboot_duration : Time
  pub promote_after : Time
  pub promote_to : Option String
  pub write_resume_after : Time
  pub rejoin_after_revive : Time
  pub patroni_stop_after : Time
  pub patroni_start_after : Time
  pub vip_move_after : Time
  pub vip_write_gap : Time
  pub drop_acked : ℕ
  pub replica_queries : ℕ
  pub primary_queries : ℕ
  pub primary_cpu : ℕ
  pub replica_cpu : ℕ
  pub write_reaches_primary : Bool

-- `SimScript()`
abbrev pub defaults : Settings
defaults = record {
  replica_lag = 200;
  reboot_after = 18_000;
  reboot_duration = 45_000;
  promote_after = 30_000;
  promote_to = none;
  write_resume_after = 33_000;
  rejoin_after_revive = 15_000;
  patroni_stop_after = 1500;
  patroni_start_after = 4000;
  vip_move_after = 2000;
  vip_write_gap = 2500;
  drop_acked = 0;
  replica_queries = 24;
  primary_queries = 0;
  primary_cpu = 30;
  replica_cpu = 900;
  write_reaches_primary = true;
}

pub data Kind : Type 0 where
  kill proxy : Kind

-- `_injection_at`, `_injection_node` and `_injection_kind`, which are set together.
pub record Injected : Type 0 where
  pub at : Time
  pub node : String
  pub kind : Kind

-- A `SimulatedCluster` with its clock and its script.
pub record Cluster : Type 0 where
  pub config : Config
  pub now : Time
  pub settings : Settings
  pub nodes : Dict NodeState
  pub next_row : ℕ
  pub rows : Dict ℕ
  pub documents : List ℕ
  pub events : List Event
  pub injected : Option Injected
  pub cpu_calls : Dict ℕ

abbrev as_primary : NodeState → NodeState
as_primary n = record n { role = "primary"; state = "running"; watchdog = "active" }

abbrev pub initial_node : Config → String → NodeState
initial_node c name =
    let node = if name == c.primary then as_primary fresh else fresh in
    if name == c.vip_owner then record node { holds_vip = true } else node

unfoldable pub initial_nodes : Config → List String → Dict NodeState → Dict NodeState
initial_nodes c [] nodes = nodes
initial_nodes c (name ∷ names) nodes =
    initial_nodes c names (insert name (initial_node c name) nodes)

-- `SimulatedCluster(config, clock, script)`
abbrev pub create : Config → Time → Settings → Cluster
unfolding initial_nodes
create c now settings = record {
  config = c;
  now = now;
  settings = settings;
  nodes = initial_nodes c (node_names c) [];
  next_row = 5000;
  rows = [];
  documents = [];
  events = [];
  injected = none;
  cpu_calls = [];
}

abbrev pub with_role : String → String → Option ℕ → NodeState → NodeState
with_role role state none n = record n {
  role = role;
  state = state;
  watchdog = if role == "primary" then "active" else "inactive";
}
with_role role state (some timeline) n = record n {
  role = role;
  state = state;
  timeline = timeline;
  watchdog = if role == "primary" then "active" else "inactive";
}

-- `set_role`, on a node that is there.
abbrev pub set_role : String → String → String → Option ℕ → Dict NodeState → Dict NodeState
set_role node role state timeline nodes = modify node (with_role role state timeline) nodes

abbrev hold_vip : Bool → NodeState → NodeState
hold_vip b n = record n { holds_vip = b }

unfoldable pub return_vip : Config → List String → Dict NodeState → Dict NodeState
return_vip c [] nodes = nodes
return_vip c (name ∷ names) nodes =
    return_vip c names (modify name (hold_vip (name == c.vip_owner)) nodes)

-- A scheduled change. The nodes it names are those of the cluster: `node` was looked up when it was
-- scheduled, and the others come from the configuration or from `promote_to`, which is taken to be a
-- node of it; another name would raise KeyError in the source, and changes nothing here.
unfoldable pub change : Config → Change → Dict NodeState → Dict NodeState
unfolding return_vip
change c (reboot_start node) nodes = modify node (λ n. record n { reachable = false }) nodes
change c (reboot_end node at) nodes =
    modify node
      (λ n. record n {
        reachable = true;
        boot_id = "boot-" <> str (at / 1000);
        patroni_service = "inactive";
        watchdog = "inactive";
      })
      nodes
change c (promote candidate timeline) nodes =
    modify candidate (λ n. record n { wal = n.wal + 1000 })
      (set_role candidate "primary" "running" (some timeline) nodes)
change c (rejoin node timeline) nodes =
    set_role node "replica" "streaming" (some timeline)
      (modify node (λ n. record n { postgres_procs = 1 }) nodes)
change c (move_vip node other) nodes =
    modify other (hold_vip true) (modify node (hold_vip false) nodes)
change c (stopped node) nodes =
    modify node (λ n. record n { patroni_reachable = false; state = "stopped" }) nodes
change c restore_vip nodes = return_vip c (proxy_nodes c) nodes
change c (streaming node) nodes = set_role node "replica" "streaming" none nodes

abbrev pub is_due : Time → Event → Bool
is_due now e = not e.done && leb e.at now

abbrev tick_off : Event → Event
tick_off e = record e { done = true }

-- `for index, (at, change) in enumerate(self._events)`
unfoldable pub apply_events :
    Config → Time → List Event → Dict NodeState → List Event × Dict NodeState
unfolding change
apply_events c now [] nodes = ([], nodes)
apply_events c now (e ∷ events) nodes =
    let due = is_due now e in
    let rest = apply_events c now events (if due then change c e.change nodes else nodes) in
    ((if due then tick_off e else e) ∷ rest.0, rest.1)

-- `_advance`: `SimScript.apply` at the time of the clock.
unfoldable pub advance : Cluster → Cluster
unfolding apply_events
advance c =
    let applied = apply_events c.config c.now c.events c.nodes in
    record c { events = applied.0; nodes = applied.1 }
