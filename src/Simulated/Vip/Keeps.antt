-- ===== src/Simulated/Vip/Keeps.antt =====
-- Rules for methods of the simulated cluster that leave the VIP with one proxy
-- (ha-test/hatest/simulated.py), and the methods of the script that obey them.
use spr1n6_osscontest_server.Common.{
  ◌+◌, max, ◌<>◌, ◌≡◌, refl, String, Bool, true, false, some, List, [], ◌∷◌, ◌++◌, ◌==◌,
  if◌then◌else◌, All, contains,
}
use spr1n6_osscontest_server.Config.{Config, node_names}
use spr1n6_osscontest_server.Model.{Time}
use spr1n6_osscontest_server.Simulated.{
  NodeState, Change, reboot_start, reboot_end, promote, rejoin, Event, Kind, kill, Cluster, advance,
  with_role,
}
use spr1n6_osscontest_server.Simulated.Effects.{
  Fault, Reply, value, raises, Method, pure, throw, continue, node_at, cluster_error, ◌>>=◌,
}
use spr1n6_osscontest_server.Simulated.Script.{
  schedule, inject, assign, candidate_for, killed, revived, top_timeline, on_kill, on_revive,
  on_switchover,
}
use spr1n6_osscontest_server.Simulated.Vip.{
  OneHolder, IsFair, modify-OneHolder, apply_events-OneHolder, apply_events-IsFair, with_role-vip,
}

-- The two proxies of the configuration are two of its nodes.
pub record ProxiesKnown (cfg : Config) : Type 0 where
  pub distinct : (cfg.vip_owner == cfg.standby_proxy) ≡ false
  pub owner_known : contains cfg.vip_owner (node_names cfg) ≡ true
  pub standby_known : contains cfg.standby_proxy (node_names cfg) ≡ true

pub record Sound (cfg : Config) (c : Cluster) : Type 0 where
  pub same : c.config ≡ cfg
  pub fair : All (λ e. IsFair cfg e.change) c.events
  pub one : OneHolder cfg c.nodes

append-IsFair :
    (cfg : Config) (events : List Event) (e : Event)
    → All (λ e. IsFair cfg e.change) events
    → IsFair cfg e.change
    → All (λ e. IsFair cfg e.change) (events ++ (e ∷ []))
append-IsFair cfg [] e h k = (k, tt)
append-IsFair cfg (d ∷ events) e h k = (h.0, append-IsFair cfg events e h.1 k)

-- `m` keeps the cluster sound, whether it returns or raises.
pub record Keeps {A : Type 0} (cfg : Config) (m : Method A) : Type 0 where
  pub at : (c : Cluster) → Sound cfg c → Sound cfg (m c).1

module _ {cfg : Config} where
  pub Keeps->>= :
      {A B : Type 0} {m : Method A} {f : A → Method B}
      → Keeps cfg m
      → ((a : A) → Keeps cfg (f a))
      → Keeps cfg (m >>= f)
  Keeps->>= {m = m} {f} h k = record { at = λ c s. inside c s (m c).0 }
    where
      inside : (c : Cluster) → Sound cfg c → (r : Reply _) → Sound cfg (continue r f (m c).1).1
      inside c s (value a) = (k a).at (m c).1 (h.at c s)
      inside c s (raises e) = h.at c s

  pub Keeps-if :
      {A : Type 0} (b : Bool) {m n : Method A}
      → Keeps cfg m
      → Keeps cfg n
      → Keeps cfg (if b then m else n)
  Keeps-if true h k = h
  Keeps-if false h k = k

  -- A method that looks at the cluster first.
  pub Keeps-with :
      {A : Type 0} {f : Cluster → Method A}
      → ((c : Cluster) → Keeps cfg (f c))
      → Keeps cfg (λ c. f c c)
  Keeps-with h = record { at = λ c s. (h c).at c s }

  pub Keeps-pure : {A : Type 0} (a : A) → Keeps cfg (pure a)
  Keeps-pure a = record { at = λ c s. s }

  pub Keeps-throw : {A : Type 0} (e : Fault) → Keeps cfg (throw {A = A} e)
  Keeps-throw e = record { at = λ c s. s }

  pub Keeps-node_at : (node : String) → Keeps cfg (node_at node)
  Keeps-node_at node = record { at = λ c s. s }

  pub Keeps-candidate_for : (node : String) → Keeps cfg (candidate_for node)
  Keeps-candidate_for node = record { at = λ c s. s }

  pub Keeps-assign :
      (node : String) (f : NodeState → NodeState)
      → ((n : NodeState) → (f n).holds_vip ≡ n.holds_vip)
      → Keeps cfg (assign node f)
  Keeps-assign node f h = record {
    at = λ c s. record {
      same = s.same;
      fair = s.fair;
      one = modify-OneHolder cfg node f c.nodes h s.one;
    };
  }

  pub Keeps-schedule : (at : Time) (ch : Change) → IsFair cfg ch → Keeps cfg (schedule at ch)
  Keeps-schedule at ch f = record {
    at = λ c s. record {
      same = s.same;
      fair = append-IsFair cfg c.events (record { at = at; change = ch; done = false }) s.fair f;
      one = s.one;
    };
  }

  pub Keeps-inject : (at : Time) (node : String) (kind : Kind) → Keeps cfg (inject at node kind)
  Keeps-inject at node kind = record {
    at = λ c s. record { same = s.same; fair = s.fair; one = s.one };
  }

  pub advance-Sound : ProxiesKnown cfg → (c : Cluster) → Sound cfg c → Sound cfg (advance c)
  unfolding advance
  advance-Sound k c s = record {
    same = s.same;
    fair = rw s.same (apply_events-IsFair cfg k.distinct c.now c.events c.nodes s.fair);
    one = rw s.same (apply_events-OneHolder cfg k.distinct c.now c.events c.nodes s.fair s.one);
  }

  pub on_kill-Keeps : (node : String) (at : Time) → Keeps cfg (on_kill node at)
  unfolding on_kill
  on_kill-Keeps node at =
      Keeps->>= (Keeps->>= (Keeps-inject at node kill) (λ _. Keeps-candidate_for node))
        (λ candidate. Keeps->>= (Keeps-node_at node) (λ state. Keeps-with (λ c.
          Keeps->>=
            (Keeps->>=
              (Keeps->>= (Keeps-assign node killed (λ _. refl))
                (λ _. Keeps-schedule (at + c.settings.reboot_after) (reboot_start node) tt))
              (λ _.
                Keeps-schedule (at + c.settings.reboot_after + c.settings.reboot_duration)
                  (reboot_end node at) tt))
            (λ _.
              Keeps-schedule (at + c.settings.promote_after)
                (promote candidate (state.timeline + 1)) tt))))

  pub on_revive-Keeps : (node : String) (at : Time) → Keeps cfg (on_revive node at)
  unfolding on_revive
  on_revive-Keeps node at = Keeps->>= (Keeps-node_at node) (λ state.
      Keeps-if state.reachable
        (Keeps->>= (Keeps-assign node revived (λ _. refl)) (λ _. Keeps-with (λ c.
          Keeps-schedule (at + c.settings.rejoin_after_revive) (rejoin node (top_timeline c.nodes))
            tt)))
        (Keeps-throw (cluster_error (node <> " Patroni 시작 실패: 재부팅 중이라 접속할 수 없다(모의)"))))

  pub on_switchover-Keeps : (leader candidate : String) → Keeps cfg (on_switchover leader candidate)
  unfolding on_switchover
  on_switchover-Keeps leader candidate = Keeps->>= (Keeps-node_at leader) (λ l.
      Keeps->>= (Keeps-node_at candidate) (λ k.
        let timeline = some (max l.timeline k.timeline + 1) in
        Keeps->>=
          (Keeps-assign leader (with_role "replica" "streaming" timeline)
            (with_role-vip "replica" "streaming" timeline))
          (λ _.
            Keeps-assign candidate (with_role "primary" "running" timeline)
              (with_role-vip "primary" "running" timeline))))
