-- ===== src/Simulated/Tests.antt =====
-- A failure of the primary of ha-test/cluster.conf, simulated (ha-test/hatest/simulated.py).
use spr1n6_osscontest_server.Common.{
  ◌+◌, ◌≡◌, refl, true, false, none, some, ◌<>◌, str, All, lookup, is_some, arith, inl,
}
use spr1n6_osscontest_server.Common.Int.{pos}
use spr1n6_osscontest_server.Common.Sort.{sort_by}
use spr1n6_osscontest_server.Config.Sample.{sample}
use spr1n6_osscontest_server.Measure.{write_stop}
use spr1n6_osscontest_server.Simulated.{
  defaults, Cluster, create, advance, Injected, kill, initial_node, initial_nodes,
}
use spr1n6_osscontest_server.Simulated.Script.{on_kill}
use spr1n6_osscontest_server.Simulated.Logs.{probe_from, probe_loop}
use spr1n6_osscontest_server.Simulated.Logs.Loops.{
  probing_from, HasAttempt, probe_from-IsTimely, probe_from-kept, probe_from-enough,
}
use spr1n6_osscontest_server.Simulated.Kill.{later, Taken, on_kill-promotes}
use spr1n6_osscontest_server.Simulated.Vip.{OneHolder, vip_at}
use spr1n6_osscontest_server.Simulated.Vip.Keeps.{ProxiesKnown}
use spr1n6_osscontest_server.Simulated.Vip.Reachable.{
  stop, operate, created, slept, did, Reachable-OneHolder,
}

abbrev idle : Cluster
idle = create sample 100_000 defaults

abbrev struck : Cluster
struck = (on_kill "db-01" 100_000 idle).1

abbrev failure : Injected
failure = record { at = 100_000; node = "db-01"; kind = kill }

on_kill-promotes_example : Taken idle "db-01" "db-02" 100_000 130_000 (later 130_000 struck)
unfolding initial_nodes
on_kill-promotes_example =
    on_kill-promotes idle "db-01" "db-02" 100_000 130_000 (initial_node sample "db-01")
      (initial_node sample "db-02") tt refl refl refl refl refl refl refl

proxies : ProxiesKnown sample
proxies = record { distinct = refl; owner_known = refl; standby_known = refl }

-- The active proxy is stopped, three seconds pass, and the VIP has moved.
abbrev stopped : Cluster
stopped = operate (stop "db-02" "openproxy") idle

abbrev waited : Cluster
waited = record stopped { now = stopped.now + 3000 }

moved :
    (vip_at "db-02" (advance waited).nodes ≡ some false)
    × (vip_at "db-03" (advance waited).nodes ≡ some true)
unfolding operate create
moved = (refl, refl)

Reachable-OneHolder_example : OneHolder sample waited.nodes
Reachable-OneHolder_example =
    Reachable-OneHolder sample defaults waited proxies
      (slept stopped 3000 (did idle (stop "db-02" "openproxy") (λ _. inl refl) (created 100_000)))

-- The stop of the writes that is measured in the log: the gap of the script and one step before it.
measured_stop :
    (write_stop (probe_from "H-3-1" failure idle).0 100_000 none).duration ≡ some (pos 33_500)
unfolding write_stop create sort_by str probe_from
measured_stop = refl

probe_from-IsTimely_example : HasAttempt "H-3-1" failure struck 4
unfolding create
probe_from-IsTimely_example =
    probe_from-IsTimely "H-3-1" failure struck 4 (omega arith) (omega arith)

probe_from-kept_example :
    All
      (λ a.
        a.ok ≡ true
        → is_some (lookup ("H-3-1" <> ":" <> str a.seq) (probe_from "H-3-1" failure idle).1) ≡ true)
      (probe_from "H-3-1" failure idle).0
unfolding create
probe_from-kept_example = probe_from-kept "H-3-1" failure idle refl

probe_from-enough_example :
    probe_loop 1000 defaults "H-3-1" 100_000 133_000 (probing_from failure idle)
    ≡ probe_from "H-3-1" failure idle
unfolding create
probe_from-enough_example = probe_from-enough "H-3-1" failure idle 1000 (omega arith) (omega arith)
