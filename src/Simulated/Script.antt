-- ===== src/Simulated/Script.antt =====
-- How the script answers what is done to the simulated cluster (`SimScript` in
-- ha-test/hatest/simulated.py): the change at once, and those that it schedules.
use spr1n6_osscontest_server.Common.{
  ℕ, ◌+◌, ◌*◌, ◌/◌, max, String, true, false, Option, none, some, List, [], ◌∷◌, ◌++◌, ◌||◌, not,
  leb, ◌==◌, ◌<>◌, if◌then◌else◌, Dict, lookup, insert, modify, find, any, length, or_else,
}
use spr1n6_osscontest_server.Config.{replicas, proxy_nodes}
use spr1n6_osscontest_server.Model.{Time, VipMove, CpuSample}
use spr1n6_osscontest_server.Simulated.{
  NodeState, Change, reboot_start, reboot_end, promote, rejoin, move_vip, stopped, restore_vip,
  streaming, Kind, kill, proxy, Cluster, with_role,
}
use spr1n6_osscontest_server.Simulated.Effects.{
  cluster_error, stop_iteration, Method, pure, throw, modify_cluster, read, continue, or_raise,
  node_at, ◌>>=◌, ◌>>◌,
}

abbrev pub schedule : Time → Change → Method (Unit {0})
schedule at change = modify_cluster (λ c. record c {
  events = c.events ++ (record { at = at; change = change; done = false } ∷ []);
})

abbrev pub inject : Time → String → Kind → Method (Unit {0})
inject at node kind =
    modify_cluster
      (λ c. record c { injected = some (record { at = at; node = node; kind = kind }) })

-- An assignment to the fields of `cluster.nodes[node]`.
abbrev pub assign : String → (NodeState → NodeState) → Method (Unit {0})
assign node f = modify_cluster (λ c. record c { nodes = modify node f c.nodes })

-- `next(name for name in names if name != node)`
abbrev pub other_than : String → List String → Option String
other_than node names = find (λ name. not (name == node)) names

-- `self.promote_to or next(...)`: an empty name counts as none.
abbrev pub candidate_of : Cluster → String → Option String
candidate_of c node =
    if or_else c.settings.promote_to "" == ""
    then other_than node (replicas c.config)
    else c.settings.promote_to

abbrev pub candidate_for : String → Method String
candidate_for node c = (or_raise stop_iteration (candidate_of c node), c)

abbrev pub killed : NodeState → NodeState
killed n = record n {
  patroni_reachable = false;
  state = "stopped";
  postgres_procs = 0;
  patroni_service = "failed";
  patroni_enabled = "disabled";
  watchdog = "active";
}

unfoldable pub on_kill : String → Time → Method (Unit {0})
on_kill node at = inject at node kill >> candidate_for node >>= (λ candidate.
    node_at node >>= (λ state c.
      (assign node killed
          >> schedule (at + c.settings.reboot_after) (reboot_start node)
          >> schedule (at + c.settings.reboot_after + c.settings.reboot_duration)
              (reboot_end node at)
          >> schedule (at + c.settings.promote_after) (promote candidate (state.timeline + 1)))
        c))

-- `max(n.timeline for n in cluster.nodes.values())`
abbrev pub top_timeline : Dict NodeState → ℕ
top_timeline [] = 0
top_timeline ((_, n) ∷ nodes) = max n.timeline (top_timeline nodes)

abbrev pub revived : NodeState → NodeState
revived n = record n {
  patroni_service = "active";
  patroni_enabled = "enabled";
  patroni_reachable = true;
  role = "replica";
  state = "starting";
}

unfoldable pub on_revive : String → Time → Method (Unit {0})
on_revive node at = node_at node >>= (λ state.
    if state.reachable
    then assign node revived >> (λ c.
      schedule (at + c.settings.rejoin_after_revive) (rejoin node (top_timeline c.nodes)) c)
    else throw (cluster_error (node <> " Patroni 시작 실패: 재부팅 중이라 접속할 수 없다(모의)")))

-- `other = next(...)` and the change that gives it the VIP.
abbrev pub schedule_move : String → Time → Method (Unit {0})
schedule_move node at c =
    continue (or_raise stop_iteration (other_than node (proxy_nodes c.config)))
      (λ other. schedule (at + c.settings.vip_move_after) (move_vip node other)) c

unfoldable pub on_stop_service : String → String → Time → Method (Unit {0})
on_stop_service node unit at =
    if unit == "openproxy"
    then inject at node proxy
      >> node_at node
      >>= (λ _. assign node (λ n. record n { openproxy_service = "inactive" }))
      >> schedule_move node at
    else if unit == "patroni"
    then node_at node
      >>= (λ _. assign node (λ n. record n { patroni_service = "inactive" }))
      >> (λ c. schedule (at + c.settings.patroni_stop_after) (stopped node) c)
    else pure tt

unfoldable pub on_start_service : String → String → Time → Method (Unit {0})
on_start_service node unit at =
    if unit == "openproxy"
    then node_at node
      >>= (λ _. assign node (λ n. record n { openproxy_service = "active" }))
      >> (λ c. schedule (at + c.settings.vip_move_after) restore_vip c)
    else if unit == "patroni"
    then node_at node
      >>= (λ _. assign node (λ n. record n {
        patroni_service = "active";
        patroni_reachable = true;
        state = "starting";
      }))
      >> (λ c. schedule (at + c.settings.patroni_start_after) (streaming node) c)
    else pure tt

unfoldable pub on_switchover : String → String → Method (Unit {0})
on_switchover leader candidate = node_at leader >>= (λ l. node_at candidate >>= (λ k.
    let timeline = max l.timeline k.timeline + 1 in
    assign leader (with_role "replica" "streaming" (some timeline))
    >> assign candidate (with_role "primary" "running" (some timeline))))

unfoldable pub vip_move : String → Time → Method VipMove
vip_move node started = node_at node >>= (λ n c.
    let at = started + c.settings.vip_move_after in
    if n.holds_vip || any (λ e. leb e.at at) c.events
    then pure (record { node = node; os_at = some at; aws_at = some (at + 1000) }) c
    else pure (record { node = node; os_at = none; aws_at = none }) c)

abbrev queries_of : Cluster → String → ℕ
queries_of c name =
    if name == c.config.primary
    then c.settings.primary_queries
    else c.settings.replica_queries / max (length (replicas c.config)) 1

abbrev activity_into : Cluster → List String → Dict ℕ → Dict ℕ
activity_into c [] result = result
activity_into c (name ∷ names) result =
    activity_into c names (insert name (queries_of c name) result)

unfoldable pub activity : List String → Method (Dict ℕ)
activity nodes = read (λ c. activity_into c nodes [])

abbrev calls_of : Option ℕ → ℕ
calls_of none = 0
calls_of (some n) = n

-- The share is in tenths of a percent, so `int(n * percent)` divides by ten.
unfoldable pub cpu : String → Time → Method CpuSample
cpu node at c =
    let n = calls_of (lookup node c.cpu_calls) in
    let percent =
      if node == c.config.primary then c.settings.primary_cpu else c.settings.replica_cpu in
    pure (record { node = node; at = at; busy = n * percent / 10; total = n * 100 })
      (record c { cpu_calls = insert node (n + 1) c.cpu_calls })
