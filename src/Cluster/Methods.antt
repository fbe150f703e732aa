-- ===== src/Cluster/Methods.antt =====
-- The methods of `Cluster` that run commands and read their output (ha-test/hatest/cluster.py).
use spr1n6_osscontest_server.Common.{
  ℕ, zero, String, Bool, true, false, Option, none, some, List, [], ◌∷◌, ◌++◌, ◌||◌, ◌==◌, ◌<>◌,
  if◌then◌else◌, any, join, splitlines, Dict, lookup, insert, some_eq, or_else,
}
use spr1n6_osscontest_server.Common.Int.{ℤ, pos}
use spr1n6_osscontest_server.Config.{Config, node, node_names, proxy_nodes}
use spr1n6_osscontest_server.Config.Load.{strip}
use spr1n6_osscontest_server.Json.{Json}
use spr1n6_osscontest_server.Model.{
  Time, Member, silent, NodeFacts, no_facts, ReplicationRow, CpuSample, Injection,
}
use spr1n6_osscontest_server.Parse.{parse_patroni_scan, parse_replication}
use spr1n6_osscontest_server.Parse.Watches.{parse_cpu}
use spr1n6_osscontest_server.Commands.Actions.{
  node_facts_script, patroni_scan_script, ssh_ok_script, kill_db_stack_script,
  revive_db_stack_script, stop_service_script, start_service_script, switchover_script,
  vip_held_script,
}
use spr1n6_osscontest_server.Commands.Queries.{
  replication_script, probe_tags_script, row_count_script, cpu_sample_script,
}
use spr1n6_osscontest_server.Commands.Recorder.{lock_script, unlock_script}
use spr1n6_osscontest_server.Cluster.{RemoteResult, is_ok, brief, parse_key_values}
use spr1n6_osscontest_server.Cluster.Session.{
  Command, cluster_error, Op, give, fail, ◌>>=◌, ◌>>◌, read, or_fault, run_on, db_query,
  observer_call, timed_action, run_each,
}

-- `value or None` of a text
abbrev or_none : Option String → Option String
or_none none = none
or_none (some v) = if v == "" then none else some v

-- The observer first.
abbrev pub others_than : String → List String → List String
others_than observer [] = []
others_than observer (name ∷ names) =
    let rest = others_than observer names in if name == observer then rest else name ∷ rest

abbrev pub viewers : Config → List String
viewers c = c.observer ∷ others_than c.observer (node_names c)

-- `{name: found.get(name, Member(name, None, False)) for name in names}`
abbrev pub members_of : Dict Member → List String → Dict Member → Dict Member
members_of found [] members = members
members_of found (name ∷ names) members =
    members_of found names
      (insert name (elim (lookup name found) [ none ↦ silent name none | some m ↦ m ]) members)

-- The lines of a set.
abbrev line_set : List String → List String → List String
line_set [] tags = tags
line_set (line ∷ lines) tags =
    let tag = strip line in
    line_set lines (if tag == "" || any (λ t. t == tag) tags then tags else tag ∷ tags)

abbrev failed_of : Dict RemoteResult → List String
failed_of [] = []
failed_of ((node, r) ∷ results) =
    let rest = failed_of results in if is_ok r then rest else (node <> " " <> brief r) ∷ rest

unfoldable pub vip_answer : RemoteResult → Option Bool
unfolding parse_key_values
vip_answer r =
    if is_ok r then some (some_eq (lookup "vip" (parse_key_values r.stdout)) "1") else none

abbrev vip_answers : Dict RemoteResult → Dict (Option Bool)
vip_answers [] = []
vip_answers ((node, r) ∷ results) = (node, vip_answer r) ∷ vip_answers results

-- A missing owner, or an empty one, is not known.
unfoldable pub lock_owner : Dict String → Option String
lock_owner values =
    if some_eq (lookup "locked" values) "1"
    then none
    else some (or_else (or_none (lookup "owner" values)) "알 수 없음")

module _ (nodes : List Command → Command → RemoteResult) (c : Config) where
  unfoldable pub ssh_ok : String → Op Bool
  ssh_ok node = run_on nodes node ssh_ok_script false 10 >>= (λ r. give (is_ok r))

  unfoldable pub probe_tags : String → String → Op (List String)
  unfolding db_query probe_tags_script
  probe_tags node run_id =
      db_query nodes node (probe_tags_script c run_id) "기록 행 조회"
      >>= (λ out. give (line_set (splitlines out) []))

  unfoldable pub vip_holders : Op (Dict (Option Bool))
  vip_holders =
      run_each nodes (vip_held_script c) 10 (proxy_nodes c) [] >>= (λ rs. give (vip_answers rs))

  unfoldable pub lock : String → Op (Option String)
  unfolding observer_call lock_script lock_owner
  lock owner =
      observer_call nodes c (lock_script c owner) "시험 잠금"
      >>= (λ out. give (lock_owner (parse_key_values out)))

  unfoldable pub unlock : Op Unit
  unfolding observer_call unlock_script
  unlock = observer_call nodes c (unlock_script c) "시험 잠금 풀기" >> give tt

  module _ (read_float : String → Option Time) where
    -- A ValueError is None too.
    abbrev maybe_float : Option String → Option Time
    maybe_float none = none
    maybe_float (some value) = if value == "" then none else read_float value

    abbrev facts_of : String → Dict String → NodeFacts
    facts_of node values = record {
      node = node;
      reachable = true;
      observed_at = maybe_float (lookup "ts" values);
      holds_vip = some (some_eq (lookup "vip" values) "1");
      patroni_service = or_none (lookup "patroni_service" values);
      patroni_enabled = or_none (lookup "patroni_enabled" values);
      openproxy_service = or_none (lookup "openproxy_service" values);
      watchdog = or_none (lookup "watchdog" values);
      boot_id = or_none (lookup "boot_id" values);
    }

    unfoldable pub facts : String → Op NodeFacts
    unfolding parse_key_values
    facts node = run_on nodes node (node_facts_script c) false 15 >>= (λ r.
        if is_ok r then give (facts_of node (parse_key_values r.stdout)) else give (no_facts node))

    abbrev injected : String → RemoteResult → Dict String → Option String → Op Injection
    injected node r values none = fail (cluster_error (node <> " 장애 주입 실패: " <> brief r))
    injected node r values (some ts) =
        or_fault (read_float ts)
        >>= (λ t. give (record { node = node; at = t; boot_id = lookup "boot_id" values }))

    unfoldable pub kill_db_stack : String → Op Injection
    unfolding parse_key_values
    kill_db_stack node = run_on nodes node kill_db_stack_script false 30 >>= (λ r.
        injected node r (parse_key_values r.stdout) (lookup "ts" (parse_key_values r.stdout)))

    unfoldable pub revive_db_stack : String → Op Time
    unfolding timed_action
    revive_db_stack node =
        timed_action nodes read_float node revive_db_stack_script (node <> " Patroni 시작") false 60

    unfoldable pub stop_service : String → String → Op Time
    unfolding timed_action
    stop_service node unit =
        timed_action nodes read_float node (stop_service_script unit) (node <> " " <> unit <> " 중단")
          false 60

    unfoldable pub start_service : String → String → Op Time
    unfolding timed_action
    start_service node unit =
        timed_action nodes read_float node (start_service_script unit)
          (node <> " " <> unit <> " 시작") false 60

    unfoldable pub switchover : String → String → Op Time
    unfolding timed_action
    switchover leader candidate = or_fault (node c leader) >>= (λ from.
        or_fault (node c candidate) >>= (λ to.
          timed_action nodes read_float candidate (switchover_script c from.member to.member)
            ("switchover " <> leader <> " → " <> candidate) true 90))

    module _ (read_int : String → Option ℤ) (repr : String → String)
        (loads : String → Option Json) where
      abbrev pub scan : RemoteResult → Op (Dict Member)
      scan r =
          read (parse_patroni_scan read_int read_float repr loads r.stdout)
          >>= (λ found. give (members_of found (node_names c) []))

      abbrev pub members_from : List String → List String → Op (Dict Member)
      members_from [] errors =
          fail (cluster_error ("어느 노드에서도 Patroni 를 조회하지 못했다: " <> join " / " errors))
      members_from (viewer ∷ rest) errors =
          run_on nodes viewer (patroni_scan_script c) false 10 >>= (λ r.
            if is_ok r
            then scan r
            else members_from rest (errors ++ ((viewer <> " " <> brief r) ∷ [])))

      unfoldable pub members : Op (Dict Member)
      members = members_from (viewers c) []

      unfoldable pub replication : String → Op (List ReplicationRow)
      unfolding db_query
      replication node =
          db_query nodes node (replication_script c) "pg_stat_replication"
          >>= (λ out. read (parse_replication read_int read_float repr out))

      unfoldable pub row_count : String → String → ℕ → Op ℤ
      unfolding db_query
      row_count node table row_id =
          db_query nodes node (row_count_script c table row_id) (table <> " 조회")
          >>= (λ out. if strip out == "" then give (pos zero) else or_fault (read_int (strip out)))

      abbrev cpu_of : Dict RemoteResult → Op (Dict CpuSample)
      cpu_of [] = give []
      cpu_of ((node, r) ∷ results) =
          read (parse_cpu read_int read_float node r.stdout)
          >>= (λ sample. cpu_of results >>= (λ rest. give ((node, sample) ∷ rest)))

      abbrev cpu_or : Dict RemoteResult → List String → Op (Dict CpuSample)
      cpu_or results [] = cpu_of results
      cpu_or results (e ∷ errors) =
          fail (cluster_error ("CPU 를 읽지 못했다: " <> join " / " (e ∷ errors)))

      unfoldable pub cpu_samples : List String → Op (Dict CpuSample)
      cpu_samples names =
          run_each nodes cpu_sample_script 10 names []
          >>= (λ results. cpu_or results (failed_of results))
