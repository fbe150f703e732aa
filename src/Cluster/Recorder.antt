-- ===== src/Cluster/Recorder.antt =====
-- The methods of `Cluster` that drive the recorder on the observer (ha-test/hatest/cluster.py).
-- `recorder_text` is what the file of the recorder holds.
use spr1n6_osscontest_server.Common.{
  ℕ, String, true, Option, none, some, List, [], ◌∷◌, ◌++◌, ◌==◌, ◌<>◌, if◌then◌else◌, splitlines,
  lookup,
}
use spr1n6_osscontest_server.Common.Int.{ℤ}
use spr1n6_osscontest_server.Config.{Config}
use spr1n6_osscontest_server.Json.{Json}
use spr1n6_osscontest_server.Model.{Time, ProbeAttempt, RecorderLogs, InsertAck}
use spr1n6_osscontest_server.Parse.{Parsed, parse_error, parse_probe_log, parse_recorder_logs}
use spr1n6_osscontest_server.Parse.Watches.{parse_insert}
use spr1n6_osscontest_server.Commands.Recorder.{
  recorder_deploy_script, recorder_call_script, recorder_read_script, recorder_tail_script,
}
use spr1n6_osscontest_server.Cluster.{RemoteResult, is_ok, parse_key_values}
use spr1n6_osscontest_server.Cluster.Session.{
  Command, config_error, Op, give, fail, ◌>>=◌, ◌>>◌, read, or_fault, set_deployed, is_deployed,
  run_on, observer_call_with, observer_call,
}

abbrev pub run_dir : Config → String → String
run_dir c run_id = c.remote_dir <> "/runs/" <> run_id

module _ (nodes : List Command → Command → RemoteResult) (c : Config) where
  unfoldable pub recorder_stop : String → Op Unit
  recorder_stop run_id =
      observer_call nodes c (recorder_call_script c ("stop" ∷ run_dir c run_id ∷ [])) "기록 멈춤"
      >> give tt

  -- The result is not looked at.
  unfoldable pub recorder_close : String → Op Unit
  recorder_close run_id =
      run_on nodes c.observer (recorder_call_script c ("cleanup" ∷ run_dir c run_id ∷ [])) true 30
      >> give tt

  abbrev pub db_password_or : Option String → Op String
  db_password_or none =
      fail (config_error "DB 비밀번호가 없다. 저장소 .env 의 DB_PASSWORD 나 HA_DB_PASSWORD 를 채운다")
  db_password_or (some p) =
      if p == ""
      then fail (config_error "DB 비밀번호가 없다. 저장소 .env 의 DB_PASSWORD 나 HA_DB_PASSWORD 를 채운다")
      else give p

  abbrev pub deploy : String → Op Unit
  deploy recorder_text = is_deployed >>= (λ b.
      if b
      then give tt
      else (observer_call nodes c (recorder_deploy_script c recorder_text) "기록 도구 배포"
          >> set_deployed))

  unfoldable pub recorder_open : String → String → Op Unit
  unfolding observer_call_with
  recorder_open recorder_text run_id = db_password_or c.db_password >>= (λ password.
      deploy recorder_text
      >> observer_call_with nodes c (recorder_call_script c ("prepare" ∷ run_dir c run_id ∷ []))
          "기록 도구 준비" (("HA_DB_PASSWORD", password) ∷ []) 30
      >> give tt)

  module _ (read_float : String → Option Time) where
    unfoldable pub recorder_start : String → Op Time
    recorder_start run_id =
        observer_call nodes c (recorder_call_script c ("start" ∷ run_dir c run_id ∷ run_id ∷ []))
          "기록 시작"
        >>= (λ out. or_fault (lookup "started" (parse_key_values out)))
        >>= (λ started. or_fault (read_float started))

    module _ (read_int : String → Option ℤ) (repr : String → String)
        (loads : String → Option Json) where
      unfoldable pub recorder_insert : String → String → Op InsertAck
      recorder_insert run_id tag =
          observer_call nodes c (recorder_call_script c ("insert" ∷ run_dir c run_id ∷ tag ∷ []))
            "VIP INSERT"
          >>= (λ out. read (parse_insert read_int read_float tag out))

      -- A line that raises ParseError is passed over.
      abbrev recent_of : List String → Op (List ProbeAttempt)
      recent_of [] = give []
      recent_of (line ∷ lines) =
          recent_line (parse_probe_log read_int read_float repr line)
          >>= (λ found. recent_of lines >>= (λ rest. give (found ++ rest)))
        where
          recent_line : Parsed (List ProbeAttempt) → Op (List ProbeAttempt)
          recent_line (parse_error e) = give []
          recent_line p = read p

      unfoldable pub recorder_recent : String → ℕ → Op (List ProbeAttempt)
      recorder_recent run_id count =
          run_on nodes c.observer (recorder_tail_script c run_id count) true 10
          >>= (λ r. if is_ok r then recent_of (splitlines r.stdout) else give [])

      unfoldable pub recorder_logs : String → Op RecorderLogs
      recorder_logs run_id =
          observer_call nodes c (recorder_read_script c run_id "probe.log") "쓰기 기록 읽기"
          >>= (λ probes.
              observer_call nodes c (recorder_read_script c run_id "roles.log") "역할 기록 읽기"
              >>= (λ roles. read (parse_recorder_logs read_int read_float repr loads probes roles)))
