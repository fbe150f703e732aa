-- ===== src/Commands/Queries.antt =====
-- The scripts that ask the database, and the watches (ha-test/hatest/commands.py).
use spr1n6_osscontest_server.Common.{
  ℕ, Bool, if◌then◌else◌, Option, some, String, [], ◌∷◌, ◌<>◌, str,
}
use spr1n6_osscontest_server.Model.{Time}
use spr1n6_osscontest_server.Simulated.Texts.{fmt3}
use spr1n6_osscontest_server.Config.{Config}
use spr1n6_osscontest_server.Commands.{fill, psql, imds_base, imds_token}

abbrev pub replication_template : String
replication_template =
    "\n" <> "{{PSQL}} <<'SQL'\n"
    <> "SELECT application_name, coalesce(host(client_addr), ''), state, sync_state,\n"
    <> "       coalesce(pg_wal_lsn_diff(pg_current_wal_lsn(), replay_lsn), -1)::bigint\n"
    <> "FROM pg_stat_replication\n" <> "ORDER BY application_name;\n" <> "SQL\n"

unfoldable pub replication_script : Config → Option String
unfolding fill
replication_script c = fill replication_template (("PSQL", psql c) ∷ [])

abbrev pub probe_tags_template : String
probe_tags_template =
    "\n" <> "{{PSQL}} <<'SQL'\n"
    <> "SELECT tag FROM {{TABLE}} WHERE starts_with(tag, '{{RUN_ID}}:');\n" <> "SQL\n"

unfoldable pub probe_tags_script : Config → String → Option String
unfolding fill
probe_tags_script c run_id =
    fill probe_tags_template (("PSQL", psql c) ∷ ("TABLE", c.probe_table) ∷ ("RUN_ID", run_id) ∷ [])

abbrev pub row_count_template : String
row_count_template =
    "\n" <> "{{PSQL}} <<'SQL'\n" <> "SELECT count(*) FROM {{TABLE}} WHERE id = {{ID}};\n" <> "SQL\n"

unfoldable pub row_count_script : Config → String → ℕ → Option String
unfolding fill
row_count_script c table row_id =
    fill row_count_template (("PSQL", psql c) ∷ ("TABLE", table) ∷ ("ID", str row_id) ∷ [])

abbrev pub cpu_sample_script : Option String
cpu_sample_script = some ("echo \"ts=$(date +%s.%N)\"\n" <> "head -n 1 /proc/stat\n")

abbrev pub activity_watch_template : String
activity_watch_template =
    "\n" <> "echo \"ready=$(date +%s.%N)\"\n" <> "timeout {{SECONDS}} {{PSQL}} <<'SQL'\n"
    <> "SELECT pid, extract(epoch FROM query_start)\n" <> "FROM pg_stat_activity\n"
    <> "WHERE pid <> pg_backend_pid()\n" <> "  AND datname = '{{DATABASE}}'\n"
    <> "  AND query_start >= to_timestamp({{SINCE}})\n" <> "  AND (query ILIKE '%embedding <=>%'\n"
    <> "       OR query ILIKE '%to_tsquery(''simple''%'\n"
    <> "       OR query ILIKE '%ctx_before%'\n" <> "       OR query ILIKE '%hnsw.ef_search%')\n"
    <> "\\watch 0.2\n" <> "SQL\n" <> "echo \"done=$(date +%s.%N)\"\n"

unfoldable pub activity_watch_script : Config → Time → ℕ → Option String
unfolding fill
activity_watch_script c since seconds = fill activity_watch_template (
    ("SECONDS", str seconds)
    ∷ ("PSQL", psql c)
    ∷ ("DATABASE", c.database)
    ∷ ("SINCE", fmt3 since)
    ∷ [])

abbrev pub marker_watch_template : String
marker_watch_template =
    "\n" <> "psql -X -q -h {{SOCKET}} -U postgres -d {{DATABASE}} -v ON_ERROR_STOP=1 <<'SQL'\n"
    <> "DO $$\n" <> "DECLARE\n"
    <> "  deadline timestamptz := clock_timestamp() + interval '{{SECONDS}} seconds';\n"
    <> "  found_id bigint;\n" <> "BEGIN\n"
    <> "  RAISE NOTICE 'ready %', extract(epoch FROM clock_timestamp());\n" <> "  LOOP\n"
    <> "    SELECT id INTO found_id FROM {{TABLE}} WHERE tag = '{{TAG}}';\n"
    <> "    IF found_id IS NOT NULL THEN\n"
    <> "      RAISE NOTICE 'visible % %', extract(epoch FROM clock_timestamp()), found_id;\n"
    <> "      RETURN;\n" <> "    END IF;\n" <> "    IF clock_timestamp() > deadline THEN\n"
    <> "      RAISE NOTICE 'timeout %', extract(epoch FROM clock_timestamp());\n"
    <> "      RETURN;\n" <> "    END IF;\n" <> "    PERFORM pg_sleep(0.005);\n" <> "  END LOOP;\n"
    <> "END\n" <> "$$;\n" <> "SQL\n"

unfoldable pub marker_watch_script : Config → String → ℕ → Option String
unfolding fill
marker_watch_script c tag seconds = fill marker_watch_template (
    ("SOCKET", c.pg_socket_dir)
    ∷ ("DATABASE", c.database)
    ∷ ("SECONDS", str seconds)
    ∷ ("TABLE", c.probe_table)
    ∷ ("TAG", tag)
    ∷ [])

abbrev pub vip_watch_template : String
vip_watch_template =
    "\n" <> "vip={{VIP}}\n" <> "until=$(( $(date +%s) + {{SECONDS}} ))\n"
    <> "echo \"ready=$(date +%s.%N)\"\n" <> "if [ \"{{CHECK_AWS}}\" = 1 ]; then\n" <> "  (\n"
    <> "    base={{BASE}}\n" <> "    token=$({{TOKEN}})\n"
    <> "    while [ \"$(date +%s)\" -lt \"$until\" ]; do\n"
    <> "      for mac in $(curl -s -m 1 -H \"X-aws-ec2-metadata-token: $token\" \"$base/\"); do\n"
    <> "        if curl -s -m 1 -H \"X-aws-ec2-metadata-token: $token\" \"$base/${mac%/}/local-ipv4s\" | grep -qx \"$vip\"; then\n"
    <> "          echo \"aws=$(date +%s.%N)\"\n" <> "          exit 0\n" <> "        fi\n"
    <> "      done\n" <> "      sleep 0.2\n" <> "    done\n" <> "    echo \"aws=timeout\"\n"
    <> "  ) &\n" <> "fi\n" <> "os=timeout\n" <> "while [ \"$(date +%s)\" -lt \"$until\" ]; do\n"
    <> "  if ip -4 -o addr show | grep -qF \" $vip/\"; then os=$(date +%s.%N); break; fi\n"
    <> "  sleep 0.05\n" <> "done\n" <> "echo \"os=$os\"\n" <> "wait\n"

unfoldable pub vip_watch_script : Config → ℕ → Bool → Option String
unfolding fill
vip_watch_script c seconds check_aws = fill vip_watch_template (
    ("VIP", c.vip)
    ∷ ("SECONDS", str seconds)
    ∷ ("CHECK_AWS", if check_aws then "1" else "0")
    ∷ ("BASE", imds_base)
    ∷ ("TOKEN", imds_token)
    ∷ [])
