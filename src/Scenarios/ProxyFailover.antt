-- ===== src/Scenarios/ProxyFailover.antt =====
-- H-5: the active proxy is stopped, the standby takes over the VIP, and it comes back
-- (`ProxyFailoverScenario` in ha-test/hatest/scenarios.py).
use spr1n6_osscontest_server.Common.{
  ℕ, String, Bool, Option, none, some, [], ◌∷◌, ◌&&◌, ◌||◌, not, ltb, ◌<>◌, str, if◌then◌else◌,
  is_some,
}
use spr1n6_osscontest_server.Common.Int.{ℤ}
use spr1n6_osscontest_server.Config.{Config}
use spr1n6_osscontest_server.Measure.{seconds_between, write_stop}
use spr1n6_osscontest_server.Model.{Time, RecorderLogs, VipMove, InsertAck}
use spr1n6_osscontest_server.Report.{Outcome}
use spr1n6_osscontest_server.Runner.Effects.{
  watch_vip, vip_moved, stop_service, start_service, recorder_insert, recorder_logs, mark, sleep,
  Env, Action, perform, pure, ◌>>=◌, ◌>>◌,
}
use spr1n6_osscontest_server.Scenarios.{vip_write_limit, see_vip}
use spr1n6_osscontest_server.Scenarios.Replication.{criterion, within_limit}

-- What the run has when it judges.
pub record Moved : Type 0 where
  pub down_at : Time
  pub up_at : Time
  pub move : VipMove
  pub back : VipMove
  pub ack : InsertAck
  pub logs : RecorderLogs

module _ (env : Env) (fmt_seconds : ℕ → Option ℤ → String) (c : Config) where
  -- The standby has the VIP on the server, and on AWS where that is checked.
  abbrev pub has_moved : VipMove → Bool
  has_moved m = is_some m.os_at && (is_some m.aws_at || not c.aws_vip_check)

  abbrev since : Time → Option Time → String
  since from at = fmt_seconds 1 (seconds_between (some from) at)

  unfoldable pub proxy_outcome : Moved → Outcome
  proxy_outcome m =
      let takeover = write_stop m.logs.attempts m.down_at (some m.up_at) in
      let return = write_stop m.logs.attempts m.up_at none in
      let back = since m.up_at m.back.os_at in
      record {
        injected_at = some m.down_at;
        injection = c.vip_owner <> " OpenProxy 중단 (systemctl stop)";
        measurements =
            (
              "VIP 이동",
              "서버 " <> since m.down_at m.move.os_at <> " · AWS " <> since m.down_at m.move.aws_at,
            )
            ∷ ("쓰기 끊김", fmt_seconds 1 takeover.duration)
            ∷ ("복귀 끊김", fmt_seconds 1 return.duration <> " (VIP 복귀 " <> back <> ")")
            ∷ [];
        criteria =
            criterion ("Standby(" <> c.standby_proxy <> ")가 VIP 를 인수하고 같은 Endpoint 로 접속됨")
              (has_moved m.move && ltb 0 m.ack.row_id)
              ("VIP "
                <> c.vip
                <> ":"
                <> str c.vip_port
                <> " → "
                <> c.standby_proxy
                <> ", INSERT id "
                <> str m.ack.row_id)
            ∷ criterion "쓰기 끊김 5초 이내" (within_limit vip_write_limit takeover.duration)
                (fmt_seconds 1 takeover.duration)
            ∷ criterion "복귀 때도 자동" (is_some m.back.os_at)
                (if is_some m.back.os_at then c.vip_owner <> " 로 복귀 " <> back else "복귀 안 됨")
            ∷ [];
        notes = "앱이 붙는 주소(VIP)는 그대로다. VIP 를 가진 OpenProxy 노드만 바뀐다." ∷ [];
      }

  abbrev pub mark_if : Option Time → String → Action (Unit {0})
  mark_if none text = pure tt
  mark_if (some at) text = perform env (mark text)

  -- `ProxyFailoverScenario.run`
  unfoldable pub proxy_run : String → Action Outcome
  unfolding proxy_outcome
  proxy_run run_id =
      perform env (watch_vip c.standby_proxy)
      >> perform env (stop_service c.vip_owner "openproxy")
      >>= (λ down_at.
          perform env (mark ("장애 주입: " <> c.vip_owner <> " OpenProxy 중단"))
          >> see_vip env c.standby_proxy down_at
          >> perform env (vip_moved c.standby_proxy)
          >>= (λ move.
              mark_if move.os_at ("VIP → " <> c.standby_proxy)
              >> perform env (recorder_insert (run_id <> ":after-takeover"))
              >>= (λ ack.
                  perform env (watch_vip c.vip_owner)
                  >> perform env (start_service c.vip_owner "openproxy")
                  >>= (λ up_at.
                      perform env (mark (c.vip_owner <> " OpenProxy 시작"))
                      >> see_vip env c.vip_owner up_at
                      >> perform env (vip_moved c.vip_owner)
                      >>= (λ back.
                          mark_if back.os_at ("VIP → " <> c.vip_owner <> " 복귀")
                          >> perform env (sleep 3000)
                          >> perform env recorder_logs
                          >>= (λ logs. pure (
                              proxy_outcome (record {
                                down_at = down_at;
                                up_at = up_at;
                                move = move;
                                back = back;
                                ack = ack;
                                logs = logs;
                              }))))))))
