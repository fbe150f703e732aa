-- ===== src/Simulated/Vip/Reachable.antt =====
-- In every state that the methods of the simulated cluster can reach, exactly one proxy holds the
-- VIP (ha-test/hatest/simulated.py).
use spr1n6_osscontest_server.Common.{
  ℕ, ◌+◌, ◌≡◌, refl, ap, sym, ◌⊎◌, inl, inr, String, true, Option, none, some, List, [], ◌∷◌, arith,
  ◌==◌, if◌then◌else◌, Dict, insert, lookup-insert, eq_iff, eq_refl, contains, Bool-cases,
}
use spr1n6_osscontest_server.Config.{Config, node_names, proxy_nodes}
use spr1n6_osscontest_server.Model.{Time}
use spr1n6_osscontest_server.Simulated.{
  NodeState, move_vip, restore_vip, stopped, streaming, Settings, proxy, Cluster, initial_node,
  initial_nodes, create, advance,
}
use spr1n6_osscontest_server.Simulated.Effects.{Method, continue, or_raise, stop_iteration}
use spr1n6_osscontest_server.Simulated.Script.{
  schedule, other_than, schedule_move, on_stop_service, on_start_service,
}
use spr1n6_osscontest_server.Simulated.Operations.{
  kill_db_stack, revive_db_stack, stop_service, start_service, switchover, recorder_insert,
  add_document, issue_row, returning_now, cpu_samples,
}
use spr1n6_osscontest_server.Simulated.Logs.{build_logs, recorder_recent}
use spr1n6_osscontest_server.Simulated.Vip.Logged.{
  Keeps-advance, build_logs-Keeps, recorder_recent-Keeps, cpu_samples-Keeps,
}
use spr1n6_osscontest_server.Simulated.Vip.{OneHolder, IsFair, vip_at}
use spr1n6_osscontest_server.Simulated.Vip.Keeps.{
  ProxiesKnown, Sound, Keeps, Keeps->>=, Keeps-if, Keeps-with, Keeps-pure, Keeps-node_at,
  Keeps-assign, Keeps-schedule, Keeps-inject, advance-Sound, on_kill-Keeps, on_revive-Keeps,
  on_switchover-Keeps,
}

-- The methods that change the cluster. `observe` stands for those that only bring it to the time of
-- its clock, and `write` is also what `replica_visibility` does.
pub data Op : Type 0 where
  observe upload : Op
  kill_stack revive_stack write logs : String → Op
  recent : String → ℕ → Op
  sample : List String → Op
  stop start switch : String → String → Op

unfoldable pub operate : Op → Cluster → Cluster
unfolding advance kill_db_stack revive_db_stack stop_service start_service switchover
    recorder_insert add_document build_logs recorder_recent cpu_samples
operate observe c = advance c
operate upload c = (add_document c).1
operate (kill_stack node) c = (kill_db_stack node c).1
operate (revive_stack node) c = (revive_db_stack node c).1
operate (write tag) c = (recorder_insert tag c).1
operate (logs run_id) c = (build_logs run_id c).1
operate (recent run_id lines) c = (recorder_recent run_id lines c).1
operate (sample names) c = (cpu_samples names c).1
operate (stop node unit) c = (stop_service node unit c).1
operate (start node unit) c = (start_service node unit c).1
operate (switch leader candidate) c = (switchover leader candidate c).1

-- A proxy is stopped only on one of the two proxy nodes.
abbrev pub IsProper : Config → Op → Type 0
IsProper cfg (stop node unit) =
    unit ≡ "openproxy" → (node ≡ cfg.vip_owner) ⊎ (node ≡ cfg.standby_proxy)
IsProper cfg _ = Unit

-- The states of a cluster from its creation on, with any calls and any pauses.
pub data Reachable (cfg : Config) (settings : Settings) : Cluster → Type 0 where
  created : (now : Time) → Reachable cfg settings (create cfg now settings)
  slept :
      (c : Cluster) (ms : Time)
      → Reachable cfg settings c
      → Reachable cfg settings (record c { now = c.now + ms })
  did :
      (c : Cluster) (op : Op)
      → IsProper cfg op
      → Reachable cfg settings c
      → Reachable cfg settings (operate op c)

initial_node-vip :
    (cfg : Config) (name : String) → (initial_node cfg name).holds_vip ≡ (name == cfg.vip_owner)
initial_node-vip cfg name = ground arith

vip_at-initial :
    (cfg : Config) (names : List String) (nodes : Dict NodeState) (j : String)
    → vip_at j (initial_nodes cfg names nodes)
      ≡ (if contains j names then some (j == cfg.vip_owner) else vip_at j nodes)
unfolding initial_nodes
vip_at-initial cfg [] nodes j = refl
vip_at-initial cfg (name ∷ names) nodes j = ground (
  arith,
  vip_at-initial cfg names (insert name (initial_node cfg name) nodes) j,
  lookup-insert name j (initial_node cfg name) nodes,
  eq_iff name j,
  initial_node-vip cfg name,
)

create-Sound :
    (cfg : Config) (now : Time) (settings : Settings)
    → ProxiesKnown cfg
    → Sound cfg (create cfg now settings)
unfolding create
create-Sound cfg now settings k = record {
  same = refl;
  fair = tt;
  one = record {
    held = inl (
      ground (
        arith,
        vip_at-initial cfg (node_names cfg) [] cfg.vip_owner,
        k.owner_known,
        eq_refl cfg.vip_owner,
      ),
      ground (
        arith,
        vip_at-initial cfg (node_names cfg) [] cfg.standby_proxy,
        k.standby_known,
        k.distinct,
        eq_iff cfg.standby_proxy cfg.vip_owner,
        eq_iff cfg.vip_owner cfg.standby_proxy,
      ),
    );
    others = λ name p q e. ground (
      arith,
      vip_at-initial cfg (node_names cfg) [] name,
      p,
      e,
      eq_iff cfg.vip_owner name,
      eq_iff name cfg.vip_owner,
    );
  };
}

module _ {cfg : Config} where
  -- The other one of the two proxies.
  other_than-IsFair :
      (node other : String)
      → ProxiesKnown cfg
      → (node ≡ cfg.vip_owner) ⊎ (node ≡ cfg.standby_proxy)
      → other_than node (proxy_nodes cfg) ≡ some other
      → IsFair cfg (move_vip node other)
  other_than-IsFair node other k (inl p) h = inl (
    p,
    ground (
      arith,
      k.distinct,
      eq_refl cfg.vip_owner,
      eq_iff cfg.standby_proxy cfg.vip_owner,
      eq_iff cfg.vip_owner cfg.standby_proxy,
    ),
  )
  other_than-IsFair node other k (inr p) h =
      inr (p, ground (arith, k.distinct, eq_iff cfg.vip_owner cfg.standby_proxy))

  move-Keeps :
      (node : String) (at : Time)
      → ProxiesKnown cfg
      → (node ≡ cfg.vip_owner) ⊎ (node ≡ cfg.standby_proxy)
      → Keeps cfg (schedule_move node at)
  move-Keeps node at k proper = record {
    at = λ c s.
        inside c s (other_than node (proxy_nodes c.config))
          (ap (λ g. other_than node (proxy_nodes g)) (sym s.same));
  }
    where
      inside :
          (c : Cluster)
          → Sound cfg c
          → (o : Option String) → other_than node (proxy_nodes cfg) ≡ o
          → Sound cfg
              (continue
                (or_raise stop_iteration o)
                (λ other. schedule (at + c.settings.vip_move_after) (move_vip node other))
                c).1
      inside c s none e = s
      inside c s (some other) e =
          (Keeps-schedule (at + c.settings.vip_move_after) (move_vip node other)
              (other_than-IsFair node other k proper e)).at
            c s

  on_stop_service-Keeps :
      (node unit : String) (at : Time)
      → ProxiesKnown cfg
      → IsProper cfg (stop node unit)
      → Keeps cfg (on_stop_service node unit at)
  unfolding on_stop_service
  on_stop_service-Keeps node unit at k proper = elim (Bool-cases (unit == "openproxy")) [
    | inl y ↦ rw y (
        Keeps->>=
          (Keeps->>= (Keeps->>= (Keeps-inject at node proxy) (λ _. Keeps-node_at node))
            (λ _. Keeps-assign node (λ n. record n { openproxy_service = "inactive" }) (λ _. refl)))
          (λ _. move-Keeps node at k (proper ((eq_iff unit "openproxy").0 y))))
    | inr n ↦ rw n (
        Keeps-if (unit == "patroni")
          (Keeps->>=
            (Keeps->>= (Keeps-node_at node)
              (λ _. Keeps-assign node (λ n. record n { patroni_service = "inactive" }) (λ _. refl)))
            (λ _.
              Keeps-with
                (λ c. Keeps-schedule (at + c.settings.patroni_stop_after) (stopped node) tt)))
          (Keeps-pure tt))
  ]

  on_start_service-Keeps :
      (node unit : String) (at : Time) → Keeps cfg (on_start_service node unit at)
  unfolding on_start_service
  on_start_service-Keeps node unit at =
      Keeps-if (unit == "openproxy")
        (Keeps->>=
          (Keeps->>= (Keeps-node_at node)
            (λ _. Keeps-assign node (λ n. record n { openproxy_service = "active" }) (λ _. refl)))
          (λ _. Keeps-with (λ c. Keeps-schedule (at + c.settings.vip_move_after) restore_vip tt)))
        (Keeps-if (unit == "patroni")
          (Keeps->>=
            (Keeps->>= (Keeps-node_at node) (λ _.
              Keeps-assign node
                (λ n. record n {
                  patroni_service = "active";
                  patroni_reachable = true;
                  state = "starting";
                })
                (λ _. refl)))
            (λ _.
              Keeps-with
                (λ c. Keeps-schedule (at + c.settings.patroni_start_after) (streaming node) tt)))
          (Keeps-pure tt))

  module _ (k : ProxiesKnown cfg) where
    -- A method of the script at the time of the clock.
    Keeps-returning_now :
        {f : Time → Method (Unit {0})}
        → ((at : Time) → Keeps cfg (f at))
        → Keeps cfg (returning_now f)
    Keeps-returning_now h =
        Keeps->>= (Keeps-advance k)
          (λ _. Keeps-with (λ c. Keeps->>= (h c.now) (λ _. Keeps-pure c.now)))

    issue_row-Keeps : (tag : String) → Keeps cfg (issue_row tag)
    issue_row-Keeps tag = record {
      at = λ c s. record { same = s.same; fair = s.fair; one = s.one };
    }

    kill_db_stack-Keeps : (node : String) → Keeps cfg (kill_db_stack node)
    unfolding kill_db_stack
    kill_db_stack-Keeps node = Keeps->>= (Keeps-advance k) (λ _. Keeps-with (λ c.
        Keeps->>= (Keeps->>= (on_kill-Keeps node c.now) (λ _. Keeps-node_at node))
          (λ n. Keeps-pure (record { node = node; at = c.now; boot_id = some n.boot_id }))))

    recorder_insert-Keeps : (tag : String) → Keeps cfg (recorder_insert tag)
    unfolding recorder_insert
    recorder_insert-Keeps tag = Keeps->>= (Keeps-advance k) (λ _. Keeps-with (λ c.
        Keeps->>= (issue_row-Keeps tag) (λ row.
          Keeps-pure
            (record { tag = tag; row_id = row; primary_at = c.now; acked_at = c.now + 10 }))))

    operate-Sound :
        (op : Op) → IsProper cfg op → (c : Cluster) → Sound cfg c → Sound cfg (operate op c)
    unfolding operate
    operate-Sound observe p c s = advance-Sound k c s
    operate-Sound upload p c s = record { same = s.same; fair = s.fair; one = s.one }
    operate-Sound (kill_stack node) p c s = (kill_db_stack-Keeps node).at c s
    operate-Sound (revive_stack node) p c s = (Keeps-returning_now (on_revive-Keeps node)).at c s
    operate-Sound (write tag) p c s = (recorder_insert-Keeps tag).at c s
    operate-Sound (logs run_id) p c s = (build_logs-Keeps run_id).at c s
    operate-Sound (recent run_id lines) p c s = (recorder_recent-Keeps k run_id lines).at c s
    operate-Sound (sample names) p c s = (cpu_samples-Keeps k names).at c s
    operate-Sound (stop node unit) p c s =
        (Keeps-returning_now (λ at. on_stop_service-Keeps node unit at k p)).at c s
    operate-Sound (start node unit) p c s =
        (Keeps-returning_now (λ at. on_start_service-Keeps node unit at)).at c s
    operate-Sound (switch leader candidate) p c s =
        (Keeps-returning_now (λ at. on_switchover-Keeps leader candidate)).at c s

    Reachable-Sound : {settings : Settings} (c : Cluster) → Reachable cfg settings c → Sound cfg c
    Reachable-Sound {settings} _ (created now) = create-Sound cfg now settings k
    Reachable-Sound _ (slept c ms r) =
        let s = Reachable-Sound c r in record { same = s.same; fair = s.fair; one = s.one }
    Reachable-Sound _ (did c op p r) = operate-Sound op p c (Reachable-Sound c r)

-- If the two proxies are two nodes of the configuration, then in every state that the simulated
-- cluster reaches, by any calls of its methods with any pauses between them, where the proxy service
-- is stopped only on one of the two proxy nodes, one of the proxies holds the VIP, the other does not, and no other node does.
pub Reachable-OneHolder :
    (cfg : Config) (settings : Settings) (c : Cluster)
    → ProxiesKnown cfg
    → Reachable cfg settings c
    → OneHolder cfg c.nodes
Reachable-OneHolder cfg settings c k r = Sound.one (Reachable-Sound k c r)
