-- ===== src/Scenarios/Replication.antt =====
-- H-1: a marker row is written through the VIP and read on the replicas (`ReplicationScenario` in
-- ha-test/hatest/scenarios.py). `fmt_seconds` displays a duration, to some digits; it stands for the
-- rounding of floats in ha-test/hatest/clock.py.
use spr1n6_osscontest_server.Common.{
  ℕ, ◌*◌, String, Bool, false, Option, none, some, List, [], ◌∷◌, ◌&&◌, not, ltb, eqb, ◌==◌, ◌<>◌,
  str, if◌then◌else◌, Dict, lookup, filter, all, is_empty, join, map, length, ◌>>=◌,
}
use spr1n6_osscontest_server.Common.Int.{ℤ, pos, leb_ℤ}
use spr1n6_osscontest_server.Clock.{fmt_bytes}
use spr1n6_osscontest_server.Config.{Config, replicas}
use spr1n6_osscontest_server.Measure.{seconds_between}
use spr1n6_osscontest_server.Model.{Time, Visibility, ReplicationRow}
use spr1n6_osscontest_server.Report.{Outcome, Criterion}
use spr1n6_osscontest_server.Runner.Effects
use spr1n6_osscontest_server.Runner.Effects.{
  Call, replica_visibility, replication, mark, Env, Action, perform,
}
use spr1n6_osscontest_server.Scenarios.{replication_limit}

abbrev pub criterion : String → Bool → String → Criterion
criterion text ok actual = record { text = text; ok = ok; actual = actual }

-- `d.get(node)` of optional values.
abbrev pub get_known {ℓ} : {A : Type ℓ} → String → Dict (Option A) → Option A
get_known node d = lookup node d >>= (λ o. o)

unfoldable pub delay_of : Visibility → String → Option ℤ
delay_of v node = seconds_between (some v.insert.primary_at) (get_known node v.visible_at)

abbrev pub within_limit : Time → Option ℤ → Bool
within_limit limit none = false
within_limit limit (some d) = leb_ℤ d (pos limit)

abbrev row_is : ℕ → Option ℕ → Bool
row_is row none = false
row_is row (some r) = eqb r row

abbrev same_row_at : Visibility → String → Bool
same_row_at v node = row_is v.insert.row_id (get_known node v.visible_row)

abbrev small : Option ℕ → Bool
small none = false
small (some lag) = ltb lag (1024 * 1024)

abbrev is_streaming_row : ReplicationRow → Bool
is_streaming_row r = r.state == "streaming"

abbrev pub or_dash : String → String
or_dash s = if s == "" then "-" else s

module _ (env : Env) (fmt_seconds : ℕ → Option ℤ → String) (c : Config) where
  abbrev delay_text : Visibility → String
  delay_text v = join ", " (map (λ n. n <> " " <> fmt_seconds 3 (delay_of v n)) (replicas c))

  abbrev lag_text : List ReplicationRow → String
  lag_text rows =
      or_dash
        (join ", " (map (λ r. r.application_name <> " " <> fmt_bytes r.replay_lag_bytes) rows))

  abbrev pub seen_in_time : Visibility → Bool
  seen_in_time v =
      all (λ n. within_limit replication_limit (delay_of v n)) (replicas c)
      && all (same_row_at v) (replicas c)

  unfoldable pub replication_outcome : Visibility → List ReplicationRow → Outcome
  unfolding delay_of
  replication_outcome v rows =
      let streaming = length (filter is_streaming_row rows) in
      let same = if all (same_row_at v) (replicas c) then "예" else "아니오" in
      record {
        injected_at = some v.insert.primary_at;
        injection = "표식 행 INSERT (VIP 경유, id " <> str v.insert.row_id <> ")";
        measurements =
            ("Replica 조회까지", delay_text v)
            ∷ ("pg_stat_replication", str streaming <> "줄 streaming")
            ∷ ("Lag", lag_text rows)
            ∷ [];
        criteria =
            criterion "두 Replica 모두 같은 행이 1초 안에 조회됨" (seen_in_time v)
              (delay_text v <> ", 같은 id " <> same)
            ∷ criterion "pg_stat_replication 2줄 streaming" (eqb streaming (length (replicas c)))
                (str streaming <> "줄")
            ∷ criterion "Lag 0MB (1MB 미만)"
                (not (is_empty rows) && all (λ r. small r.replay_lag_bytes) rows) (lag_text rows)
            ∷ [];
        notes = [];
      }

  -- `ReplicationScenario.run`
  unfoldable pub replication_run : String → Action Outcome
  unfolding replication_outcome
  replication_run run_id =
      Effects.◌>>=◌ (perform env (replica_visibility (run_id <> ":marker"))) (λ v.
        Effects.◌>>◌ (perform env (mark ("표식 행 INSERT (id " <> str v.insert.row_id <> ")"))) (
          Effects.◌>>=◌ (perform env (replication c.primary))
            (λ rows. Effects.pure (replication_outcome v rows))))
