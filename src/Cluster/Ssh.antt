-- ===== src/Cluster/Ssh.antt =====
-- What `Remote` hands to ssh, and what it keeps of a command (ha-test/hatest/remote.py). The process is
-- a parameter, and so are the display of a time and of a duration.
use Prim.Native.String.{count}
use spr1n6_osscontest_server.Common.{
  ℕ, String, Bool, Option, none, some, List, [], ◌∷◌, ◌++◌, ◌<>◌, if◌then◌else◌, ltb, first, map,
  join, splitlines, str, Dict,
}
use spr1n6_osscontest_server.Common.Int.{ℤ, pos}
use spr1n6_osscontest_server.Config.{Config, node}
use spr1n6_osscontest_server.Config.Load.{is_blank, rstrip_by}
use spr1n6_osscontest_server.Model.{Time}
use spr1n6_osscontest_server.Commands.{quote}
use spr1n6_osscontest_server.Cluster.{RemoteResult, str_int}
use spr1n6_osscontest_server.Cluster.Session.{Command}

abbrev pub ssh_options : List String
ssh_options =
    "-o" ∷ "BatchMode=yes" ∷ "-o" ∷ "ConnectTimeout=5" ∷ "-o" ∷ "ServerAliveInterval=5" ∷ "-o"
    ∷ "ServerAliveCountMax=3" ∷ "-o" ∷ "ControlMaster=auto" ∷ "-o" ∷ "ControlPath=/tmp/ha-test-%C"
    ∷ "-o" ∷ "ControlPersist=120" ∷ "-o" ∷ "LogLevel=ERROR" ∷ []

abbrev pub timeout_rc : ℕ
timeout_rc = 124

abbrev pub log_script_limit : ℕ
log_script_limit = 3000

abbrev remote_command : Config → Bool → String
remote_command c as_db_user =
    if as_db_user then "sudo -iu " <> quote c.db_os_user <> " bash -s" else "bash -s"

-- A node that is not in the configuration raises KeyError, which is none.
unfoldable pub argv : Config → String → Bool → Option (List String)
argv c name as_db_user = elim (node c name) [
  | none ↦ none
  | some n ↦ some ("ssh" ∷ ssh_options ++ (n.ssh ∷ remote_command c as_db_user ∷ []))
]

abbrev exports : Dict String → String
exports [] = ""
exports ((key, value) ∷ secrets) = "export " <> key <> "=" <> quote value <> "\n" <> exports secrets

-- `script.rstrip()`
abbrev rstripped : String → String
rstripped script = rstrip_by is_blank script

unfoldable pub stdin_of : String → Dict String → String
stdin_of script secrets =
    exports secrets <> "main() {\n" <> rstripped script <> "\n}\nmain </dev/null\n"

-- How the process of a command ends; in time, or with what it wrote until then.
pub data Process : Type 0 where
  completed : ℤ → String → String → Process
  expired : Option String → Process

abbrev text_or_empty : Option String → String
text_or_empty none = ""
text_or_empty (some s) = s

-- The result of `Remote.run`.
unfoldable pub result_of : Command → Process → RemoteResult
result_of c (completed returncode stdout stderr) = record {
  node = c.node;
  returncode = returncode;
  stdout = stdout;
  stderr = stderr;
}
result_of c (expired out) = record {
  node = c.node;
  returncode = pos timeout_rc;
  stdout = text_or_empty out;
  stderr = str c.timeout <> "초 안에 끝나지 않았다";
}

abbrev logged_body : String → String
logged_body script =
    let body = rstripped script in
    if ltb log_script_limit (count body)
    then first log_script_limit body <> "\n… (" <> str (count script) <> "자 중 앞부분만 적었다)"
    else body

module _ (fmt_time : Time → String) (fmt_duration : Time → String) where
  -- A command that goes on in the background has no return code yet.
  abbrev outcome_text : Option (ℤ × Time) → String
  outcome_text none = "백그라운드"
  outcome_text (some (returncode, elapsed)) =
      "rc=" <> str_int returncode <> " " <> fmt_duration elapsed <> "s"

  -- The entry of a command. The secrets are not in it.
  unfoldable pub log_entry : Config → Command → Option (ℤ × Time) → Time → String
  log_entry c k outcome started =
      "["
      <> fmt_time started
      <> "] "
      <> k.node
      <> " ("
      <> (if k.as_db_user then c.db_os_user else "ssh 사용자")
      <> ") "
      <> outcome_text outcome
      <> "\n"
      <> join "\n" (map (λ line. "    " <> line) (splitlines (logged_body k.script)))

-- The text of the log, which is empty afterwards.
unfoldable pub drain_log : List String → String × List String
unfolding join
drain_log log = (join "\n" log, [])
