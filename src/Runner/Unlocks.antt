-- ===== src/Runner/Unlocks.antt =====
-- The lock of a test is released when the run ends (ha-test/hatest/runner.py).
use spr1n6_osscontest_server.Common.{◌≤◌, ◌≡◌, ◌≢◌, String, Option, none, some, List, arith}
use spr1n6_osscontest_server.Config.{Config}
use spr1n6_osscontest_server.Model.{Time}
use spr1n6_osscontest_server.Baseline.{Checklist, passed, evaluate}
use spr1n6_osscontest_server.Runner.Effects.{
  Call, snapshot, unlock, recorder_stop, recorder_close, mark, Env, Ticks, Raised, modify, perform,
  returns, interrupts,
}
use spr1n6_osscontest_server.Runner.Ends.{
  Allows, Ends, Ends-pure, Ends-throw, Ends-perform, Ends->>=, Ends-if, Ends-try_except, OrCaught,
  Ends-test,
}
use spr1n6_osscontest_server.Runner.Restore.Ends.{restore_cluster-Ends}
use spr1n6_osscontest_server.Runner.{
  Scenario, or_key_error, evaluate_now, stop_recording, restore, release_lock, mark_restored,
  clean_up, cleaned, finish,
}

module _ (env : Env) (k : Ticks env) (c : Config) {F : Raised → Type 0} {t : Time}
    (a : Allows env t F) where
  or_key_error-Ends : (l : Option Checklist) → Ends env t F (or_key_error l)
  or_key_error-Ends none = Ends-throw _ (a.errors _ _)
  or_key_error-Ends (some l) = Ends-pure l

  pub evaluate_now-Ends : Ends env t F (evaluate_now env c)
  evaluate_now-Ends = Ends->>= (Ends-perform k a snapshot) (λ s. or_key_error-Ends (evaluate s c))

module _ (env : Env) (k : Ticks env) (c : Config) {E : Raised → Type 0} {t : Time} where
  module _ (a : Allows env t (OrCaught E)) where
    stop_recording-Ends :
        (sc : Scenario) (run_id : String) → Ends env t E (stop_recording env c sc run_id)
    unfolding stop_recording
    stop_recording-Ends sc run_id =
        Ends-if sc.needs_recorder
          (Ends->>= (Ends-try_except (Ends-perform k a (recorder_stop run_id)) (λ _. Ends-pure tt))
            (λ _. Ends-try_except (Ends-perform k a (recorder_close run_id)) (λ _. Ends-pure tt)))
          (Ends-pure tt)

    restore-Ends : Ends env t E (restore env c)
    unfolding restore
    restore-Ends =
        Ends-try_except
          (Ends->>= (Ends->>= (restore_cluster-Ends env k c a) (λ _. evaluate_now-Ends env k c a))
            (λ l. Ends-pure (some l)))
          (λ _. Ends-pure none)

    release_lock-Ends : Ends env t E (release_lock env c)
    unfolding release_lock
    release_lock-Ends = Ends-try_except (Ends-perform k a unlock) (λ _. Ends-pure tt)

    note_restore-Ends :
        (r : Option Checklist) → Ends env t E (modify (λ s. record s { restore = r }))
    note_restore-Ends r = record {
      later = λ s h. omega arith;
      raised = λ s h. tt;
      kept = λ s h l. l;
    }

    module _ (marks : (text : String) → Ends env t E (perform env (mark text))) where
      mark_restored-Ends : (r : Option Checklist) → Ends env t E (mark_restored env c r)
      mark_restored-Ends none = Ends-pure tt
      mark_restored-Ends (some l) = Ends-if (passed l) (marks "원복 완료") (Ends-pure tt)

      clean_up-Ends : (sc : Scenario) (run_id : String) → Ends env t E (clean_up env c sc run_id)
      unfolding clean_up
      clean_up-Ends sc run_id =
          Ends->>= (Ends->>= (stop_recording-Ends sc run_id) (λ _. restore-Ends))
            (λ r. Ends->>= (note_restore-Ends r) (λ _. mark_restored-Ends r))

      cleaned-Ends : (sc : Scenario) (run_id : String) → Ends env t E (cleaned env c sc run_id)
      unfolding cleaned
      cleaned-Ends sc run_id =
          Ends-test (λ s. s.touched) (λ _ _ _. clean_up-Ends sc run_id) (λ _ _ _. Ends-pure tt)

      pub finish-Ends : (sc : Scenario) (run_id : String) → Ends env t E (finish env c sc run_id)
      unfolding finish
      finish-Ends sc run_id =
          Ends->>= (cleaned-Ends sc run_id)
            (λ _. Ends-test (λ s. s.locked) (λ _ _ _. release_lock-Ends) (λ _ _ _. Ends-pure tt))

-- From the time `t` on nobody interrupts, and Grafana takes every mark.
pub record Calm (env : Env) (t : Time) : Type 0 where
  pub uninterrupted :
      (c : Call) (calls : List Call) → t ≤ env.now calls → env.answer c calls ≢ interrupts
  pub marks : (text : String) (calls : List Call) → env.answer (mark text) calls ≡ returns tt
