-- ===== src/Simulated/Vip/Logged.antt =====
-- The logs and the samples of the simulated cluster leave the VIP alone: they change its rows and its
-- counts alone (ha-test/hatest/simulated.py).
use spr1n6_osscontest_server.Common.{
  ◌+◌, String, List, [], ◌∷◌, Dict, insert, ℕ, Option, none, some, zero, suc,
}
use spr1n6_osscontest_server.Config.{Config, node_names}
use spr1n6_osscontest_server.Simulated.{Injected, advance}
use spr1n6_osscontest_server.Simulated.Effects.{Method, modify_cluster}
use spr1n6_osscontest_server.Simulated.Script.{cpu}
use spr1n6_osscontest_server.Simulated.Operations.{for_each, cpu_samples}
use spr1n6_osscontest_server.Simulated.Logs.{
  probe_log, probe_log_at, roles_at, role_ticks, role_log_at, role_log, build_logs, recorder_recent,
}
use spr1n6_osscontest_server.Simulated.Vip.Keeps.{
  ProxiesKnown, Keeps, Keeps->>=, Keeps-with, Keeps-pure, Keeps-node_at, Keeps-candidate_for,
  advance-Sound,
}

module _ {cfg : Config} where
  probe_log-Keeps : (run_id : String) → Keeps cfg (probe_log run_id)
  unfolding probe_log
  probe_log-Keeps run_id = Keeps-with (λ c. of_injected c.injected)
    where
      of_injected : (o : Option Injected) → Keeps cfg (probe_log_at o run_id)
      of_injected none = Keeps-pure []
      of_injected (some i) = record {
        at = λ c s. record { same = s.same; fair = s.fair; one = s.one };
      }

  roles_at-Keeps :
      (i : Injected) (candidate : String) (tick : ℕ) (names : List String)
      → Keeps cfg (roles_at i candidate tick names)
  roles_at-Keeps i candidate tick [] = Keeps-pure []
  roles_at-Keeps i candidate tick (name ∷ names) = Keeps->>= (Keeps-node_at name) (λ n.
      Keeps-with (λ c. Keeps->>= (roles_at-Keeps i candidate tick names) (λ rest. Keeps-pure _)))

  role_ticks-Keeps :
      (i : Injected) (candidate : String) (tick left : ℕ)
      → Keeps cfg (role_ticks i candidate tick left)
  role_ticks-Keeps i candidate tick zero = Keeps-pure []
  role_ticks-Keeps i candidate tick (suc left) =
      Keeps->>= (Keeps-with (λ c. roles_at-Keeps i candidate tick (node_names c.config)))
        (λ now. Keeps->>= (role_ticks-Keeps i candidate (tick + 1) left) (λ rest. Keeps-pure _))

  role_log-Keeps : Keeps cfg role_log
  unfolding role_log
  role_log-Keeps = Keeps-with (λ c. of_injected c.injected)
    where
      of_injected : (o : Option Injected) → Keeps cfg (role_log_at o)
      of_injected none = Keeps-pure []
      of_injected (some i) =
          Keeps->>= (Keeps-candidate_for i.node) (λ candidate. role_ticks-Keeps i candidate 0 50)

  -- `recorder_logs` calls `build_logs`.
  pub build_logs-Keeps : (run_id : String) → Keeps cfg (build_logs run_id)
  unfolding build_logs
  build_logs-Keeps run_id =
      Keeps->>= (probe_log-Keeps run_id)
        (λ probes. Keeps->>= role_log-Keeps (λ roles. Keeps-pure _))

  for_each-Keeps :
      {A : Type 0} (f : String → Method A) (names : List String) (d : Dict A)
      → ((name : String) → Keeps cfg (f name))
      → Keeps cfg (for_each f names d)
  for_each-Keeps f [] d h = Keeps-pure d
  for_each-Keeps f (name ∷ names) d h =
      Keeps->>= (h name) (λ a. for_each-Keeps f names (insert name a d) h)

  module _ (k : ProxiesKnown cfg) where
    pub Keeps-advance : Keeps cfg (modify_cluster advance)
    Keeps-advance = record { at = advance-Sound k }

    pub recorder_recent-Keeps :
        (run_id : String) (lines : ℕ) → Keeps cfg (recorder_recent run_id lines)
    unfolding recorder_recent
    recorder_recent-Keeps run_id lines = Keeps-with (λ c.
        Keeps->>= (Keeps->>= Keeps-advance (λ _. probe_log-Keeps run_id))
          (λ attempts. Keeps-pure _))

    pub cpu_samples-Keeps : (names : List String) → Keeps cfg (cpu_samples names)
    unfolding cpu_samples cpu
    cpu_samples-Keeps names = Keeps->>= Keeps-advance (λ _. Keeps-with (λ c.
        for_each-Keeps (λ name. cpu name c.now) names []
          (λ name. record { at = λ d s. record { same = s.same; fair = s.fair; one = s.one } })))
