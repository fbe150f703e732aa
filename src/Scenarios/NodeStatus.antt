-- ===== src/Scenarios/NodeStatus.antt =====
-- H-6: the state of the nodes is shown, and a replica is stopped and started again
-- (`NodeStatusScenario` in ha-test/hatest/scenarios.py).
use spr1n6_osscontest_server.Common.{
  ℕ, String, Bool, false, Option, none, some, List, [], ◌∷◌, ◌&&◌, not, ◌<>◌, if◌then◌else◌,
  is_some, lookup, all,
}
use spr1n6_osscontest_server.Common.Int.{ℤ}
use spr1n6_osscontest_server.Config.{Config, node_names, replicas}
use spr1n6_osscontest_server.Measure.{seconds_between}
use spr1n6_osscontest_server.Model.{
  Time, Member, Snapshot, lag_bytes, is_running, display_role, display_state,
}
use spr1n6_osscontest_server.Report.{Outcome, is_set}
use spr1n6_osscontest_server.Runner.Effects.{
  snapshot, snapshot_without_aws, stop_service, start_service, mark, Env, Action, perform, pure,
  ◌>>=◌, ◌>>◌,
}
use spr1n6_osscontest_server.Scenarios.{follow, is_streaming, or_key_error}
use spr1n6_osscontest_server.Scenarios.Replication.{criterion}

-- What the run has when it judges: the three snapshots, and the two members that are named.
pub record Looks : Type 0 where
  pub stopped_at : Time
  pub reflected_at : Option Time
  pub started_at : Time
  pub back_at : Option Time
  pub before : Snapshot
  pub during : Member
  pub after : Member

abbrev is_shown : Option Member → Bool
is_shown none = false
is_shown (some m) = m.reachable && is_set m.state

module _ (env : Env) (fmt_seconds : ℕ → Option ℤ → String) (c : Config) where
  -- The three nodes show a role and a state, and the replicas a lag.
  abbrev pub shows_all : Snapshot → Bool
  shows_all s =
      all (λ n. is_shown (lookup n s.members)) (node_names c)
      && all (λ n. is_some (lag_bytes s.members n)) (replicas c)

  unfoldable pub status_outcome : Looks → Outcome
  status_outcome l =
      let node = c.h6_stop_node in
      record {
        injected_at = some l.stopped_at;
        injection = node <> " Patroni stop → start";
        measurements =
            ("정지 → 반영", fmt_seconds 1 (seconds_between (some l.stopped_at) l.reflected_at))
            ∷ ("시작 → streaming 복귀", fmt_seconds 1 (seconds_between (some l.started_at) l.back_at))
            ∷ ("정지 중 표시", node <> " " <> display_state l.during)
            ∷ [];
        criteria =
            criterion "3대의 역할·상태·Lag 가 표시됨" (shows_all l.before)
              (if shows_all l.before then "역할·상태·TL·Lag 3대 표시" else "일부 조회 실패")
            ∷ criterion "멈춘 노드의 상태 변화가 반영됨" (is_some l.reflected_at && not (is_running l.during))
                (node <> " " <> display_state l.during)
            ∷ criterion "원복 뒤 기준 상태로 표시됨" (is_some l.back_at && is_streaming env l.after)
                (node <> " " <> display_role l.after <> " " <> display_state l.after)
            ∷ [];
        notes = "같은 변화가 Grafana '노드별 상태 변화' 패널에도 빨간 구간으로 남는다(대시보드 새로고침 5초)." ∷ [];
      }

  -- `status.render`, which raises KeyError on a node that the snapshot lacks.
  abbrev pub render_nodes : Snapshot → List String → Action (Unit {0})
  render_nodes s [] = pure tt
  render_nodes s (n ∷ names) =
      or_key_error n (lookup n s.members)
      >>= (λ _. or_key_error n (lookup n s.facts))
      >>= (λ _. render_nodes s names)

  abbrev pub need_nodes : Snapshot → Action (Unit {0})
  need_nodes s = render_nodes s (node_names c)

  -- `NodeStatusScenario.run`
  unfoldable pub status_run : Action Outcome
  unfolding status_outcome
  status_run =
      let node = c.h6_stop_node in
      perform env snapshot >>= (λ before.
        need_nodes before >> perform env (stop_service node "patroni") >>= (λ stopped_at.
          perform env (mark (node <> " Patroni 정지"))
          >> follow env (λ m. not (is_running m)) node
          >>= (λ reflected_at. perform env snapshot_without_aws >>= (λ during.
              need_nodes during >> perform env (start_service node "patroni") >>= (λ started_at.
                perform env (mark (node <> " Patroni 시작"))
                >> follow env (is_streaming env) node
                >>= (λ back_at. perform env snapshot >>= (λ after.
                    need_nodes after >> or_key_error node (lookup node during.members) >>= (λ m.
                      or_key_error node (lookup node after.members) >>= (λ k. pure (
                        status_outcome (record {
                          stopped_at = stopped_at;
                          reflected_at = reflected_at;
                          started_at = started_at;
                          back_at = back_at;
                          before = before;
                          during = m;
                          after = k;
                        })))))))))))
