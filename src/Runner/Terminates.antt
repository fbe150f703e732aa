-- ===== src/Runner/Terminates.antt =====
-- The loops of the restoring end (`restore_cluster` and `TestRunner.run` in ha-test/hatest/runner.py).
use spr1n6_osscontest_server.Common.{◌≢◌, String, arith}
use spr1n6_osscontest_server.Config.{Config}
use spr1n6_osscontest_server.Runner.Effects.{
  Env, Ticks, Run, Result, ok, raise, out_of_fuel, mark, interrupt, aborted, error,
}
use spr1n6_osscontest_server.Runner.Ends.{Allows, Ends-perform, Raises, IsEnd}
use spr1n6_osscontest_server.Runner.Restore.{restore_cluster}
use spr1n6_osscontest_server.Runner.Restore.Ends.{restore_cluster-Ends}
use spr1n6_osscontest_server.Runner.Unlocks.{finish-Ends}
use spr1n6_osscontest_server.Runner.{Scenario, finish}

pub anything : (env : Env) → Allows env 0 IsEnd
anything env = record { errors = λ _ _. tt; interrupted = λ _ _ _ _. tt }

pub ended : {A : Type 0} (r : Result A) → Raises IsEnd r → r ≢ raise out_of_fuel
ended (ok a) h e = cc
ended (raise out_of_fuel) h e = h
ended (raise interrupt) h e = cc
ended (raise (aborted m)) h e = cc
ended (raise (error k m)) h e = cc

-- If the clock does not go back and sleeping moves it, then restoring the cluster ends from every
-- state, whatever the calls answer: no loop uses up its fuel.
pub restore_cluster-ends :
    (env : Env) (c : Config) (s : Run) → Ticks env → (restore_cluster env c s).0 ≢ raise out_of_fuel
restore_cluster-ends env c s k =
    ended _ ((restore_cluster-Ends env k c (anything env)).raised s (omega arith))

-- If the clock does not go back and sleeping moves it, then the `finally` clause of a run ends from
-- every state, whatever the calls answer.
pub finish-ends :
    (env : Env) (c : Config) (sc : Scenario) (run_id : String) (s : Run)
    → Ticks env
    → (finish env c sc run_id s).0 ≢ raise out_of_fuel
finish-ends env c sc run_id s k = ended _ (
    (finish-Ends env k c (record { errors = λ _ _. tt; interrupted = λ _ _ _ _. tt })
        (λ text. Ends-perform k (anything env) (mark text)) sc run_id).raised
      s (omega arith))
