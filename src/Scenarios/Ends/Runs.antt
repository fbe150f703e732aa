-- ===== src/Scenarios/Ends/Runs.antt =====
-- Each scenario ends (ha-test/hatest/scenarios.py).
use spr1n6_osscontest_server.Common.{
  ℕ, ◌≢◌, String, Option, none, some, List, [], ◌∷◌, arith, not, ◌<>◌, lookup,
}
use spr1n6_osscontest_server.Common.Int.{ℤ}
use spr1n6_osscontest_server.Config.{Config, node_names}
use spr1n6_osscontest_server.Model.{Time, Snapshot, is_running}
use spr1n6_osscontest_server.Runner.Effects.{
  recorder_logs, recorder_insert, probe_tags, boot_id, revive_db_stack, replica_visibility,
  replication, snapshot, snapshot_without_aws, stop_service, start_service, watch_vip, vip_moved,
  mark, sleep, Env, Ticks, Run, raise, Raised, out_of_fuel,
}
use spr1n6_osscontest_server.Runner.Ends.{
  Allows, Ends, Ends-pure, Ends-throw, Ends-perform, Ends->>=,
}
use spr1n6_osscontest_server.Scenarios.{is_streaming}
use spr1n6_osscontest_server.Scenarios.Ends.{
  or_key_error-Ends, kill_and_follow-Ends, reconnect-Ends, follow_rejoin-Ends, follow-Ends,
  see_vip-Ends,
}
use spr1n6_osscontest_server.Runner.Terminates.{anything, ended}
use spr1n6_osscontest_server.Scenarios.Table.{TestCase, h1, h3, h4, h5, h6, scenario}
use spr1n6_osscontest_server.Scenarios.Replication.{replication_run}
use spr1n6_osscontest_server.Scenarios.Failover.{failover_run, mark_rejoined}
use spr1n6_osscontest_server.Scenarios.Retention.{retention_run, marker_of, need_leader}
use spr1n6_osscontest_server.Scenarios.ProxyFailover.{proxy_run, mark_if}
use spr1n6_osscontest_server.Scenarios.NodeStatus.{status_run, render_nodes}

module _ (env : Env) (k : Ticks env) (fmt_seconds : ℕ → Option ℤ → String) (c : Config)
    {E : Raised → Type 0} {t : Time} (a : Allows env t E) where
  replication_run-Ends : (run_id : String) → Ends env t E (replication_run env fmt_seconds c run_id)
  unfolding replication_run
  replication_run-Ends run_id = Ends->>= (Ends-perform k a (replica_visibility _)) (λ v.
      Ends->>= (Ends-perform k a (mark _))
        (λ _. Ends->>= (Ends-perform k a (replication c.primary)) (λ rows. Ends-pure _)))

  mark_rejoined-Ends : (at : Option Time) → Ends env t E (mark_rejoined env fmt_seconds c at)
  mark_rejoined-Ends none = Ends-pure tt
  mark_rejoined-Ends (some at) = Ends-perform k a (mark _)

  failover_run-Ends : Ends env t E (failover_run env fmt_seconds c)
  unfolding failover_run
  failover_run-Ends = Ends->>= (kill_and_follow-Ends env k a c.primary) (λ killed.
      Ends->>=
        (Ends->>= (reconnect-Ends env k a c.primary) (λ _. Ends-perform k a (boot_id c.primary)))
        (λ boot_after. Ends->>= (Ends-perform k a (revive_db_stack c.primary)) (λ revived_at.
          Ends->>=
            (Ends->>= (Ends-perform k a (mark _)) (λ _. follow_rejoin-Ends env k a c.primary))
            (λ rejoined_at.
              Ends->>=
                (Ends->>= (mark_rejoined-Ends rejoined_at) (λ _. Ends-perform k a recorder_logs))
                (λ logs. Ends-pure _)))))

  need_leader-Ends : (o : Option String) → Ends env t E (need_leader env c o)
  need_leader-Ends none = Ends-throw _ (a.errors _ _)
  need_leader-Ends (some n) = Ends-pure n

  retention_run-Ends : (run_id : String) → Ends env t E (retention_run env c run_id)
  unfolding retention_run
  retention_run-Ends run_id =
      Ends->>= (Ends-perform k a (recorder_insert (marker_of run_id))) (λ ack.
        Ends->>=
          (Ends->>= (Ends-perform k a (sleep 2000)) (λ _. kill_and_follow-Ends env k a c.primary))
          (λ killed. Ends->>= (need_leader-Ends killed.1) (λ new_leader.
            Ends->>= (Ends-perform k a recorder_logs) (λ logs.
              Ends->>= (Ends-perform k a (probe_tags new_leader)) (λ present. Ends-pure _)))))

  mark_if-Ends :
      (at : Option Time) (text : String) → Ends env t E (mark_if env fmt_seconds c at text)
  mark_if-Ends none text = Ends-pure tt
  mark_if-Ends (some at) text = Ends-perform k a (mark text)

  render_nodes-Ends :
      (s : Snapshot) (names : List String) → Ends env t E (render_nodes env fmt_seconds c s names)
  render_nodes-Ends s [] = Ends-pure tt
  render_nodes-Ends s (n ∷ names) =
      Ends->>=
        (Ends->>= (or_key_error-Ends env k a n (lookup n s.members))
          (λ _. or_key_error-Ends env k a n (lookup n s.facts)))
        (λ _. render_nodes-Ends s names)

  proxy_run-Ends : (run_id : String) → Ends env t E (proxy_run env fmt_seconds c run_id)
  unfolding proxy_run
  proxy_run-Ends run_id =
      Ends->>=
        (Ends->>= (Ends-perform k a (watch_vip c.standby_proxy))
          (λ _. Ends-perform k a (stop_service c.vip_owner "openproxy")))
        (λ down_at.
          Ends->>=
            (Ends->>=
              (Ends->>= (Ends-perform k a (mark _))
                (λ _. see_vip-Ends env k a c.standby_proxy down_at))
              (λ _. Ends-perform k a (vip_moved c.standby_proxy)))
            (λ move.
              Ends->>=
                (Ends->>= (mark_if-Ends move.os_at ("VIP → " <> c.standby_proxy))
                  (λ _. Ends-perform k a (recorder_insert (run_id <> ":after-takeover"))))
                (λ ack.
                  Ends->>=
                    (Ends->>= (Ends-perform k a (watch_vip c.vip_owner))
                      (λ _. Ends-perform k a (start_service c.vip_owner "openproxy")))
                    (λ up_at.
                      Ends->>=
                        (Ends->>=
                          (Ends->>= (Ends-perform k a (mark _))
                            (λ _. see_vip-Ends env k a c.vip_owner up_at))
                          (λ _. Ends-perform k a (vip_moved c.vip_owner)))
                        (λ back.
                          Ends->>=
                            (Ends->>=
                              (Ends->>= (mark_if-Ends back.os_at ("VIP → " <> c.vip_owner <> " 복귀"))
                                (λ _. Ends-perform k a (sleep 3000)))
                              (λ _. Ends-perform k a recorder_logs))
                            (λ logs. Ends-pure _))))))

  status_run-Ends : Ends env t E (status_run env fmt_seconds c)
  unfolding status_run
  status_run-Ends = Ends->>= (Ends-perform k a snapshot) (λ before.
      Ends->>=
        (Ends->>= (render_nodes-Ends before (node_names c))
          (λ _. Ends-perform k a (stop_service c.h6_stop_node "patroni")))
        (λ stopped_at.
          Ends->>=
            (Ends->>= (Ends-perform k a (mark _))
              (λ _. follow-Ends env k a (λ m. not (is_running m)) c.h6_stop_node))
            (λ reflected_at. Ends->>= (Ends-perform k a snapshot_without_aws) (λ during.
              Ends->>=
                (Ends->>= (render_nodes-Ends during (node_names c))
                  (λ _. Ends-perform k a (start_service c.h6_stop_node "patroni")))
                (λ started_at.
                  Ends->>=
                    (Ends->>= (Ends-perform k a (mark _))
                      (λ _. follow-Ends env k a (is_streaming env) c.h6_stop_node))
                    (λ back_at. Ends->>= (Ends-perform k a snapshot) (λ after.
                      Ends->>=
                        (Ends->>= (render_nodes-Ends after (node_names c)) (λ _.
                          or_key_error-Ends env k a c.h6_stop_node
                            (lookup c.h6_stop_node during.members)))
                        (λ m.
                          Ends->>=
                            (or_key_error-Ends env k a c.h6_stop_node
                              (lookup c.h6_stop_node after.members))
                            (λ n. Ends-pure _)))))))))

  pub scenario-Ends :
      (tc : TestCase) (run_id : String) → Ends env t E (scenario env fmt_seconds c run_id tc).run
  scenario-Ends h1 run_id = replication_run-Ends run_id
  scenario-Ends h3 run_id = failover_run-Ends
  scenario-Ends h4 run_id = retention_run-Ends run_id
  scenario-Ends h5 run_id = proxy_run-Ends run_id
  scenario-Ends h6 run_id = status_run-Ends

-- If the clock does not go back and sleeping moves it, then the scenarios H-1 and H-3 to H-6 end from
-- every state, whatever the calls answer: no loop uses up its fuel.
pub scenario-ends :
    (env : Env) (fmt_seconds : ℕ → Option ℤ → String) (c : Config) (tc : TestCase) (run_id : String)
    (s : Run)
    → Ticks env
    → ((scenario env fmt_seconds c run_id tc).run s).0 ≢ raise out_of_fuel
scenario-ends env fmt_seconds c tc run_id s k =
    ended _ ((scenario-Ends env k fmt_seconds c (anything env) tc run_id).raised s (omega arith))
