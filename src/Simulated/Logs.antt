-- ===== src/Simulated/Logs.antt =====
-- The logs that the script makes up around the injection (`_probe_log` and `_role_log` in
-- ha-test/hatest/simulated.py).
pub mod Loops
use spr1n6_osscontest_server.Common.{
  ℕ, zero, suc, ◌+◌, ◌-◌, ◌*◌, ◌/◌, String, Bool, true, false, Option, none, some, List, [], ◌∷◌,
  ◌++◌, ◌&&◌, ◌||◌, not, leb, ltb, ◌==◌, ◌<>◌, str, if◌then◌else◌, Dict, lookup, insert, is_some,
  filter, length,
}
use spr1n6_osscontest_server.Config.{Config, node_names}
use spr1n6_osscontest_server.Model.{Time, Member, silent, ProbeAttempt, RoleSample}
use spr1n6_osscontest_server.Simulated.{
  NodeState, Settings, Kind, kill, proxy, Injected, Cluster, advance,
}
use spr1n6_osscontest_server.Simulated.Effects.{
  Fault, key_error, cluster_error, stop_iteration, Method, pure, throw, modify_cluster, read,
  or_raise, node_at, ◌>>=◌, ◌>>◌,
}
use spr1n6_osscontest_server.Simulated.Script.{candidate_for}

abbrev pub gap_of : Cluster → Kind → Time
gap_of c proxy = c.settings.vip_write_gap
gap_of c kill = c.settings.write_resume_after

abbrev row_text : Option ℕ → ℕ → String
row_text none seq = str (5000 + seq)
row_text (some row) seq = str row

-- `rows.setdefault(tag, row)`
abbrev pub set_default : String → ℕ → Dict ℕ → Dict ℕ
set_default tag row rows = if is_some (lookup tag rows) then rows else insert tag row rows

-- The variables of the loop.
pub record Probing : Type 0 where
  pub seq : ℕ
  pub time : Time
  pub dropped : ℕ
  pub rows : Dict ℕ

abbrev pub wrote : Time → Time → Time → Bool
wrote injected resumed t = ltb t injected || leb resumed t

abbrev probe_of : String → Bool → ℕ → Probing → ProbeAttempt
probe_of tag ok seq p = record {
  seq = seq;
  start = p.time;
  end = p.time + (if ok then 20 else 1000);
  ok = ok;
  detail =
      if ok then row_text (lookup tag p.rows) seq else "rc=1 25006 cannot execute during recovery";
}

abbrev pub probe_step : Settings → String → Time → Time → Probing → ProbeAttempt × Probing
probe_step settings run_id injected resumed p =
    let seq = p.seq + 1 in
    let ok = wrote injected resumed p.time in
    let tag = run_id <> ":" <> str seq in
    let drop = ok && ltb p.dropped settings.drop_acked && leb injected p.time in
    (
      probe_of tag ok seq p,
      record {
        seq = seq;
        time = p.time + 500;
        dropped = if drop then p.dropped + 1 else p.dropped;
        rows = if ok && not drop then set_default tag (5000 + seq) p.rows else p.rows;
      },
    )

-- `while t < resume_at + 3.0`, on fuel.
unfoldable pub probe_loop :
    ℕ → Settings → String → Time → Time → Probing → List ProbeAttempt × Dict ℕ
probe_loop zero settings run_id injected resumed p = ([], p.rows)
probe_loop (suc fuel) settings run_id injected resumed p =
    let step = probe_step settings run_id injected resumed p in
    let rest = probe_loop fuel settings run_id injected resumed step.1 in
    if ltb p.time (resumed + 3000) then (step.0 ∷ rest.0, rest.1) else ([], p.rows)

-- The loop runs for five seconds and the gap, in steps of half a second.
abbrev pub probe_rounds : Time → ℕ
probe_rounds gap = suc (suc ((gap + 5000) / 500))

-- The clock of a simulated run starts long after the first two seconds of its count, so the start of
-- the log is no negative time.
unfoldable pub probe_from : String → Injected → Cluster → List ProbeAttempt × Dict ℕ
unfolding probe_loop
probe_from run_id i c =
    let gap = gap_of c i.kind in
    probe_loop (probe_rounds gap) c.settings run_id i.at (i.at + gap)
      (record { seq = 0; time = i.at - 2000; dropped = 0; rows = c.rows })

abbrev pub probe_log_at : Option Injected → String → Method (List ProbeAttempt)
unfolding probe_from
probe_log_at none run_id c = pure [] c
probe_log_at (some i) run_id c =
    let log = probe_from run_id i c in pure log.0 (record c { rows = log.1 })

unfoldable pub probe_log : String → Method (List ProbeAttempt)
unfolding probe_log_at
probe_log run_id c = probe_log_at c.injected run_id c

abbrev last_of : {A : Type 0} → ℕ → List A → List A
last_of n [] = []
last_of n (x ∷ xs) = if leb (length (x ∷ xs)) n then x ∷ xs else last_of n xs

-- `attempts[-lines:]`, which is the whole list for 0.
abbrev tail_of : {A : Type 0} → ℕ → List A → List A
tail_of zero xs = xs
tail_of (suc n) xs = last_of (suc n) xs

unfoldable pub recorder_recent : String → ℕ → Method (List ProbeAttempt)
unfolding probe_log
recorder_recent run_id lines c =
    (modify_cluster advance
        >> probe_log run_id
        >>= (λ attempts. pure (tail_of lines (filter (λ a. leb a.end c.now) attempts))))
      c

abbrev led : String → Time → ℕ → String → String → NodeState → Member
led name at timeline role state n = record {
  node = name;
  observed_at = some at;
  reachable = true;
  role = some role;
  state = some state;
  timeline = some timeline;
  wal_position = some n.wal;
}

abbrev role_of : Cluster → Injected → String → Time → String → NodeState → Member
role_of c i candidate at name n =
    if name == i.node && leb i.at at
    then silent name (some at)
    else if name == candidate && leb (i.at + c.settings.promote_after) at
    then led name at 54 "primary" "running" n
    else if name == i.node
    then led name at 53 "primary" "running" n
    else led name at 53 "replica" "streaming" n

abbrev pub roles_at : Injected → String → ℕ → List String → Method (List RoleSample)
roles_at i candidate tick [] = pure []
roles_at i candidate tick (name ∷ names) = node_at name >>= (λ n c.
    (roles_at i candidate tick names >>= (λ rest. pure (
        record { tick = tick; member = role_of c i candidate (i.at - 2000 + tick * 1000) name n }
        ∷ rest)))
      c)

abbrev pub role_ticks : Injected → String → ℕ → ℕ → Method (List RoleSample)
role_ticks i candidate tick zero = pure []
role_ticks i candidate tick (suc left) =
    (λ c. roles_at i candidate tick (node_names c.config) c)
    >>= (λ now. role_ticks i candidate (tick + 1) left >>= (λ rest. pure (now ++ rest)))

abbrev pub role_log_at : Option Injected → Method (List RoleSample)
role_log_at none = pure []
role_log_at (some i) = candidate_for i.node >>= (λ candidate. role_ticks i candidate 0 50)

unfoldable pub role_log : Method (List RoleSample)
role_log c = role_log_at c.injected c

-- `build_logs`
unfoldable pub build_logs : String → Method (List ProbeAttempt × List RoleSample)
unfolding probe_log role_log
build_logs run_id = probe_log run_id >>= (λ probes. role_log >>= (λ roles. pure (probes, roles)))
