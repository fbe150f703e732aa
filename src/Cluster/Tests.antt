-- ===== src/Cluster/Tests.antt =====
-- Answers of the proxies (ha-test/hatest/cluster.py).
use spr1n6_osscontest_server.Common.{
  ◌≡◌, refl, ◌≢◌, ◌↔◌, ◌⊎◌, eq_iff, String, false, none, some, Option, List, [], ◌∷◌, Dict, str,
  join, ◌==◌, if◌then◌else◌,
}
use spr1n6_osscontest_server.Common.Int.{ℤ, pos}
use spr1n6_osscontest_server.Common.Split.{replace}
use spr1n6_osscontest_server.Json.{Json}
use spr1n6_osscontest_server.Model.{Time, Member, silent}
use spr1n6_osscontest_server.Parse.{parse_patroni_scan, each_line}
use spr1n6_osscontest_server.Commands.{fill, replace_all, targets, quote}
use spr1n6_osscontest_server.Commands.Actions.{patroni_scan_script}
use spr1n6_osscontest_server.Cluster.Session.{Command, Sent, reply, fault, cluster_error}
use spr1n6_osscontest_server.Cluster.Ssh.{stdin_of, result_of, expired}
use spr1n6_osscontest_server.Cluster.Methods.{members, lock_owner}
use spr1n6_osscontest_server.Cluster.Viewers.{with_sent, scans, members-answered, members-silent}
use spr1n6_osscontest_server.Config.Sample.{sample}
use spr1n6_osscontest_server.Config.Load.{strip}
use spr1n6_osscontest_server.Cluster.Owner.{IsHeldBy, aws_vip_owner-some_iff}
use spr1n6_osscontest_server.Cluster.{
  RemoteResult, brief, aws_vip_owner, aws_value, parse_key_values,
}

abbrev answers : String → RemoteResult
answers node = record {
  node = node;
  returncode = pos 0;
  stdout = if node == "db-02" then "ts=1\naws_vip = 1\n" else "aws_vip=0";
  stderr = "";
}

owner_of_sample : aws_vip_owner answers sample ≡ (some "db-02", none)
unfolding aws_vip_owner aws_value parse_key_values strip
owner_of_sample = refl

answers-of_sample : IsHeldBy answers "db-02" "db-03"
unfolding aws_value parse_key_values strip
answers-of_sample = (refl, refl)

different : sample.vip_owner ≢ sample.standby_proxy
different h = cc ((eq_iff sample.vip_owner sample.standby_proxy).1 h)

aws_vip_owner-some_iff_example : ((aws_vip_owner answers sample).0 ≡ some "db-02") ↔ (
    ((sample.vip_owner ≡ "db-02") × IsHeldBy answers "db-02" "db-03")
    ⊎ ((sample.standby_proxy ≡ "db-02") × IsHeldBy answers "db-03" "db-02"))
aws_vip_owner-some_iff_example = aws_vip_owner-some_iff answers sample "db-02" different

-- The observer does not answer, the next node does.
abbrev two_nodes : List Command → Command → RemoteResult
two_nodes sent c = record {
  node = c.node;
  returncode = if c.node == sample.observer then pos 255 else pos 0;
  stdout = "";
  stderr = "timed out";
}

abbrev nothing_sent : Sent
nothing_sent = record { commands = []; recorder_deployed = false }

abbrev no_int : String → Option ℤ
no_int s = none

abbrev no_time : String → Option Time
no_time s = none

abbrev no_json : String → Option Json
no_json s = none

abbrev text_or_empty : Option String → String
text_or_empty none = ""
text_or_empty (some s) = s

abbrev scan_text : String
scan_text = text_or_empty (patroni_scan_script sample)

scan_is_made : patroni_scan_script sample ≡ some scan_text
unfolding patroni_scan_script fill replace_all replace targets join str
scan_is_made = refl

abbrev all_silent : Dict Member
all_silent =
    ("db-01", silent "db-01" none)
    ∷ ("db-02", silent "db-02" none)
    ∷ ("db-03", silent "db-03" none)
    ∷ []

members-answered_example :
    members two_nodes sample no_time no_int (λ s. s) no_json nothing_sent
    ≡ (reply all_silent, with_sent nothing_sent (scans scan_text ("db-03" ∷ "db-01" ∷ [])))
unfolding parse_patroni_scan each_line
members-answered_example =
    members-answered two_nodes sample no_time no_int (λ s. s) no_json scan_text scan_is_made
      ("db-03" ∷ []) "db-01" ("db-02" ∷ []) nothing_sent refl (refl, tt) refl

abbrev no_nodes : List Command → Command → RemoteResult
no_nodes sent c = record { node = c.node; returncode = pos 255; stdout = ""; stderr = "timed out" }

members-silent_example : members no_nodes sample no_time no_int (λ s. s) no_json nothing_sent ≡ (
  fault (
      cluster_error
        "어느 노드에서도 Patroni 를 조회하지 못했다: db-03 rc=255 timed out / db-01 rc=255 timed out / db-02 rc=255 timed out"),
  with_sent nothing_sent (scans scan_text ("db-03" ∷ "db-01" ∷ "db-02" ∷ [])),
)
unfolding brief str join strip
members-silent_example =
    members-silent no_nodes sample no_time no_int (λ s. s) no_json scan_text scan_is_made
      nothing_sent (refl, (refl, (refl, tt)))

locked_by : lock_owner (parse_key_values "locked=0\nowner=kim\n") ≡ some "kim"
unfolding lock_owner parse_key_values strip
locked_by = refl

secret_in_front :
    stdin_of "echo 1\n" (("HA_DB_PASSWORD", "a b") ∷ [])
    ≡ "export HA_DB_PASSWORD='a b'\nmain() {\necho 1\n}\nmain </dev/null\n"
unfolding stdin_of quote
secret_in_front = refl

out_of_time :
    result_of
      (record { node = "db-01"; script = ""; as_db_user = false; secrets = []; timeout = 30 })
      (expired none)
    ≡ record { node = "db-01"; returncode = pos 124; stdout = ""; stderr = "30초 안에 끝나지 않았다" }
unfolding result_of str
out_of_time = refl
