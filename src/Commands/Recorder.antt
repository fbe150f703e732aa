-- ===== src/Commands/Recorder.antt =====
-- The scripts of the recorder and of the lock (ha-test/hatest/commands.py).
use spr1n6_osscontest_server.Common.{
  ℕ, Option, none, String, List, [], ◌∷◌, ◌<>◌, str, join, map, has_part, if◌then◌else◌,
}
use spr1n6_osscontest_server.Common.Split.{replace}
use spr1n6_osscontest_server.Config.{Config}
use spr1n6_osscontest_server.Commands.{
  fill, quote, targets, recorder_eof, if_filled, rstrip_newlines,
}

abbrev pub recorder_deploy_template : String
recorder_deploy_template =
    "\n" <> "mkdir -p {{DIR}}/runs\n" <> "chmod 700 {{DIR}}\n"
    <> "cat > {{DIR}}/recorder.sh <<'{{EOF}}'\n" <> "@@CONTENT@@\n" <> "{{EOF}}\n"
    <> "chmod 700 {{DIR}}/recorder.sh\n"
    <> "echo \"sha256=$(sha256sum {{DIR}}/recorder.sh | cut -d' ' -f1)\"\n"

-- The content comes after `fill`, so that no text in it is taken for a place to fill.
unfoldable pub recorder_deploy_script : Config → String → Option String
unfolding fill replace
recorder_deploy_script c content =
    if has_part recorder_eof content
    then none
    else if_filled
        (fill recorder_deploy_template (("DIR", c.remote_dir) ∷ ("EOF", recorder_eof) ∷ []))
        (replace "@@CONTENT@@" (rstrip_newlines content))

abbrev pub recorder_call_template : String
recorder_call_template =
    "\n"
    <> "export HA_VIP={{VIP}} HA_VIP_PORT={{PORT}} HA_WRITE_POOL={{POOL}} HA_DB_USER={{USER}}\n"
    <> "export HA_PROBE_TABLE={{TABLE}} HA_PATRONI_PORT={{PATRONI_PORT}} HA_PATRONI_TARGETS={{TARGETS}}\n"
    <> "bash {{DIR}}/recorder.sh {{ARGS}}\n"

unfoldable pub recorder_call_script : Config → List String → Option String
unfolding fill
recorder_call_script c args = fill recorder_call_template (
    ("VIP", c.vip)
    ∷ ("PORT", str c.vip_port)
    ∷ ("POOL", c.write_pool)
    ∷ ("USER", c.db_user)
    ∷ ("TABLE", c.probe_table)
    ∷ ("PATRONI_PORT", str c.patroni_port)
    ∷ ("TARGETS", quote (targets c))
    ∷ ("DIR", c.remote_dir)
    ∷ ("ARGS", join " " (map quote args))
    ∷ [])

abbrev pub recorder_read_template : String
recorder_read_template = "cat {{DIR}}/runs/{{RUN}}/{{NAME}}"

unfoldable pub recorder_read_script : Config → String → String → Option String
unfolding fill
recorder_read_script c run_id name =
    fill recorder_read_template (("DIR", c.remote_dir) ∷ ("RUN", run_id) ∷ ("NAME", name) ∷ [])

abbrev pub recorder_tail_template : String
recorder_tail_template = "tail -n {{N}} {{DIR}}/runs/{{RUN}}/probe.log"

unfoldable pub recorder_tail_script : Config → String → ℕ → Option String
unfolding fill
recorder_tail_script c run_id lines =
    fill recorder_tail_template (("N", str lines) ∷ ("DIR", c.remote_dir) ∷ ("RUN", run_id) ∷ [])

abbrev pub lock_template : String
lock_template =
    "\n" <> "mkdir -p {{DIR}}\n" <> "if mkdir {{DIR}}/lock 2>/dev/null; then\n"
    <> "  printf '%s\\n' {{OWNER}} > {{DIR}}/lock/owner\n" <> "  echo \"locked=1\"\n" <> "else\n"
    <> "  echo \"locked=0\"\n" <> "  echo \"owner=$(cat {{DIR}}/lock/owner 2>/dev/null)\"\n"
    <> "fi\n"

unfoldable pub lock_script : Config → String → Option String
unfolding fill
lock_script c owner = fill lock_template (("DIR", c.remote_dir) ∷ ("OWNER", quote owner) ∷ [])

abbrev pub unlock_template : String
unlock_template = "rm -rf {{DIR}}/lock"

unfoldable pub unlock_script : Config → Option String
unfolding fill
unlock_script c = fill unlock_template (("DIR", c.remote_dir) ∷ [])
