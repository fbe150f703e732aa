-- ===== src/Scenarios/Failover.antt =====
-- H-3: the primary is killed, a replica takes over, and the old primary joins again
-- (`FailoverScenario` in ha-test/hatest/scenarios.py).
use spr1n6_osscontest_server.Common.{
  ℕ, String, Bool, false, Option, none, some, [], ◌∷◌, ◌&&◌, not, leb, ◌==◌, ◌<>◌, str,
  if◌then◌else◌, is_some,
}
use spr1n6_osscontest_server.Common.Int.{ℤ}
use spr1n6_osscontest_server.Config.{Config}
use spr1n6_osscontest_server.Measure.{
  seconds_between, promotion, write_stop, max_simultaneous_leaders,
}
use spr1n6_osscontest_server.Model.{Time, RecorderLogs, Injection}
use spr1n6_osscontest_server.Report.{Outcome}
use spr1n6_osscontest_server.Runner.Effects.{
  boot_id, revive_db_stack, recorder_logs, mark, Env, Action, perform, pure, clock_now, ◌>>=◌, ◌>>◌,
}
use spr1n6_osscontest_server.Runner.Restore.{reboot_wait, rounds}
use spr1n6_osscontest_server.Scenarios.{promote_limit, kill_and_follow, wait_ssh, follow_rejoin}
use spr1n6_osscontest_server.Scenarios.Replication.{criterion, within_limit}

-- What the run has when it judges.
pub record Followed : Type 0 where
  pub injection : Injection
  pub new_leader : Option String
  pub boot_after : Option String
  pub revived_at : Time
  pub rejoined_at : Option Time
  pub logs : RecorderLogs

-- Two known boot ids that differ.
abbrev pub rebooted : Option String → Option String → Bool
rebooted (some a) (some b) = not (a == b)
rebooted _ _ = false

abbrev promoted_at : Option (String × Time) → Option Time
promoted_at none = none
promoted_at (some p) = some p.1

abbrev promoted_to : Option (String × Time) → String
promoted_to none = ""
promoted_to (some p) = " (→ " <> p.0 <> ")"

abbrev promoted_text : Option (String × Time) → String
promoted_text none = "승격 안 됨"
promoted_text (some p) = p.0 <> " 승격"

module _ (env : Env) (fmt_seconds : ℕ → Option ℤ → String) (c : Config) where
  unfoldable pub failover_outcome : Followed → Outcome
  failover_outcome f =
      let promoted = promotion f.logs.roles c.primary f.injection.at in
      let stop = write_stop f.logs.attempts f.injection.at none in
      let leaders = max_simultaneous_leaders f.logs.roles in
      let rejoin = fmt_seconds 1 (seconds_between (some f.revived_at) f.rejoined_at) in
      record {
        injected_at = some f.injection.at;
        injection = c.primary <> " Patroni 자동 시작 끄고 Patroni·PostgreSQL SIGKILL";
        measurements =
            (
              "승격까지",
              fmt_seconds 1 (seconds_between (some f.injection.at) (promoted_at promoted))
                  <> promoted_to promoted,
            )
            ∷ ("쓰기 멈춤", fmt_seconds 1 stop.duration <> " (실패 시도 " <> str stop.failures <> "회)")
            ∷ ("옛 Primary 합류", rejoin <> " (다시 시작 → streaming)")
            ∷ [];
        criteria =
            criterion "사람 개입 없이 Replica 1대가 Leader 로 승격" (is_some promoted && is_some f.new_leader)
              (promoted_text promoted)
            ∷ criterion "Leader 는 항상 1대" (leb leaders 1) ("동시에 Leader 최대 " <> str leaders <> "대")
            ∷ criterion "쓰기 멈춤 45초 이내 후 자동 재개" (within_limit promote_limit stop.duration)
                (fmt_seconds 1 stop.duration)
            ∷ criterion "옛 Primary 가 Replica 로 합류" (is_some f.rejoined_at) rejoin
            ∷ [];
        notes =
            ("측정값은 기록 도구가 " <> c.observer
              <> " 에서 0.5초마다 VIP 로 INSERT 하고 1초마다 3대 역할을 적은 서버 시각 기록으로 계산했다.")
            ∷ (c.primary
                <> " watchdog 재부팅: "
                <> (if rebooted f.injection.boot_id f.boot_after
                    then "확인됨 (boot_id 바뀜) — 승격 전에 옛 Primary 가 fencing 됐다"
                    else "없음"))
            ∷ [];
      }

  abbrev pub mark_rejoined : Option Time → Action (Unit {0})
  mark_rejoined none = pure tt
  mark_rejoined (some at) = perform env (mark (c.primary <> " Replica 합류"))

  abbrev reconnect : Action (Unit {0})
  reconnect s = wait_ssh env (rounds reboot_wait 3000) (clock_now env s) c.primary s

  -- `FailoverScenario.run`
  unfoldable pub failover_run : Action Outcome
  unfolding failover_outcome
  failover_run = kill_and_follow env c.primary >>= (λ killed.
      reconnect >> perform env (boot_id c.primary) >>= (λ boot_after.
        perform env (revive_db_stack c.primary) >>= (λ revived_at.
          perform env (mark (c.primary <> " Patroni 다시 시작"))
          >> follow_rejoin env c.primary
          >>= (λ rejoined_at. mark_rejoined rejoined_at >> perform env recorder_logs >>= (λ logs.
              pure (
                failover_outcome (record {
                  injection = killed.0;
                  new_leader = killed.1;
                  boot_after = boot_after;
                  revived_at = revived_at;
                  rejoined_at = rejoined_at;
                  logs = logs;
                })))))))
