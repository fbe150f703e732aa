-- ===== src/Scenarios/Retention.antt =====
-- H-4: the primary is killed under writes, and the rows that were acknowledged are looked for on the
-- new primary (`DataRetentionScenario` in ha-test/hatest/scenarios.py).
use spr1n6_osscontest_server.Common.{
  ℕ, String, Option, none, some, List, [], ◌∷◌, ◌++◌, ◌&&◌, ◌<>◌, str, if◌then◌else◌, is_empty,
  length, take, join, contains,
}
use spr1n6_osscontest_server.Config.{Config}
use spr1n6_osscontest_server.Measure.{loss}
use spr1n6_osscontest_server.Model.{Time, RecorderLogs}
use spr1n6_osscontest_server.Report.{Outcome}
use spr1n6_osscontest_server.Runner.Effects.{
  recorder_insert, recorder_logs, probe_tags, sleep, Env, Action, perform, pure, throw, error,
  ◌>>=◌, ◌>>◌,
}
use spr1n6_osscontest_server.Scenarios.{kill_and_follow}
use spr1n6_osscontest_server.Scenarios.Replication.{criterion}

abbrev pub marker_of : String → String
marker_of run_id = run_id <> ":before-failure"

abbrev lost_note : List String → List String
lost_note [] = []
lost_note (t ∷ tags) = ("유실된 행: " <> join ", " (take 10 (t ∷ tags))) ∷ []

abbrev count_text : ℕ → String
count_text n = str n <> "건"

-- The outcome, from the tags that are present on the new primary.
unfoldable pub retention_outcome : Config → String → Time → RecorderLogs → List String → Outcome
retention_outcome c run_id injected_at logs present =
    let result = loss logs.attempts present run_id injected_at in
    let kept = contains (marker_of run_id) present in
    let lost = length result.lost in
    let before = length result.lost_before in
    record {
      injected_at = some injected_at;
      injection = "쓰기(0.5초마다 INSERT) 중 " <> c.primary <> " 강제 종료";
      measurements =
          ("성공 응답", count_text result.acked)
          ∷ ("남은 행", count_text result.present)
          ∷ ("유실", count_text lost <> " (장애 전 응답분 " <> str before <> "건)")
          ∷ ("모르게 커밋", count_text (length result.unknown_commits))
          ∷ [];
      criteria =
          criterion "장애 전에 저장한 행이 새 Primary 에서 모두 조회됨" (kept && is_empty result.lost_before)
            ("표식 행 " <> (if kept then "있음" else "없음") <> ", 장애 전 응답분 유실 " <> str before <> "건")
          ∷ criterion "유실 0건" (is_empty result.lost) ("유실 " <> str lost <> "건")
          ∷ [];
      notes =
          ("비동기 복제라 장애 순간에 커밋 중이던 행은 유실될 수 있어 건수를 함께 기록한다."
            ∷ "모르게 커밋은 실패 응답을 받았지만 실제로는 남은 행이다. 데이터가 사라진 것이 아니다." ∷ [])
          ++ lost_note result.lost;
    }

module _ (env : Env) (c : Config) where
  abbrev pub need_leader : Option String → Action String
  need_leader none = throw (error "ScenarioError" "새 Primary 가 뜨지 않아 유실을 비교할 수 없다")
  need_leader (some n) = pure n

  -- `DataRetentionScenario.run`
  unfoldable pub retention_run : String → Action Outcome
  unfolding retention_outcome
  retention_run run_id = perform env (recorder_insert (marker_of run_id)) >>= (λ ack.
      perform env (sleep 2000) >> kill_and_follow env c.primary >>= (λ killed.
        need_leader killed.1 >>= (λ new_leader. perform env recorder_logs >>= (λ logs.
          perform env (probe_tags new_leader)
          >>= (λ present. pure (retention_outcome c run_id killed.0.at logs present))))))
