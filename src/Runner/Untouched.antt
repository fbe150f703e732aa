-- ===== src/Runner/Untouched.antt =====
-- A run that stops before the injection leaves the cluster alone (ha-test/hatest/runner.py).
use spr1n6_osscontest_server.Common.{
  ◌≡◌, refl, String, Bool, true, false, Option, none, some, if◌then◌else◌, All, contains, ◌&&◌, sym,
  subst,
}
use spr1n6_osscontest_server.Config.{Config}
use spr1n6_osscontest_server.Baseline.{Checklist, passed, evaluate}
use spr1n6_osscontest_server.Report.{TcResult}
use spr1n6_osscontest_server.Runner.Effects.{
  Call, recorder_open, recorder_start, open_app, sleep, snapshot, confirm, lock, Env, Run, Result,
  Action, ok, raise, pure, throw, modify, handle, continue, perform, aborted, error, interrupt,
  out_of_fuel, ◌>>=◌, ◌>>◌, begin,
}
use spr1n6_osscontest_server.Runner.{
  Scenario, disruptive, or_key_error, evaluate_now, check_baseline, confirm_injection, unowned,
  acquire_lock, look, prepare, execute, body, attempt, cleaned, finish, run,
}

-- The calls that change nothing on the cluster: a look, the question, and the try for the lock.
abbrev pub IsLook : Call → Type 0
IsLook snapshot = Unit
IsLook (confirm _) = Unit
IsLook (lock _) = Unit
IsLook _ = ⊥

-- Nothing but looks so far.
pub record Looked (r : Run) : Type 0 where
  pub looks : All IsLook r.calls
  pub untouched : r.touched ≡ false
  pub unlocked : r.locked ≡ false

-- A scenario does not assign the local variables of `run`.
abbrev pub KeepsTouched : Scenario → Type 0
KeepsTouched sc = (s : Run) → s.touched ≡ true → (sc.run s).1.touched ≡ true

clash : {A : Type 0} (b : Bool) → b ≡ true → b ≡ false → A
clash true h k = cc
clash false h k = cc

module _ (P : Run → Type 0) where
  -- `P` holds after a bind if it holds after each part.
  after->>= :
      {A B : Type 0} (m : Action A) (f : A → Action B) (s : Run)
      → P (m s).1
      → ((a : A) (u : Run) → P u → P (f a u).1)
      → P ((m >>= f) s).1
  after->>= m f s h k = inside (m s).0
    where
      inside : (r : Result _) → P (continue r f (m s).1).1
      inside (ok a) = k a (m s).1 h
      inside (raise e) = h

  after-if :
      {A : Type 0} (b : Bool) (m n : Action A) (s : Run)
      → P (m s).1
      → P (n s).1
      → P ((if b then m else n) s).1
  after-if true m n s h k = h
  after-if false m n s h k = k

module _ (env : Env) (c : Config) where
  perform-Looked :
      (call : Call) → IsLook call → (s : Run) → Looked s → Looked (perform env call s).1
  perform-Looked call l s h = record {
    looks = (l, h.looks);
    untouched = h.untouched;
    unlocked = h.unlocked;
  }

  or_key_error-Looked : (l : Option Checklist) (s : Run) → Looked s → Looked (or_key_error l s).1
  or_key_error-Looked none s h = h
  or_key_error-Looked (some l) s h = h

  check_baseline-Looked : (s : Run) → Looked s → Looked (check_baseline env c s).1
  unfolding check_baseline
  check_baseline-Looked s h =
      after->>= Looked (evaluate_now env c) _ s
        (after->>= Looked (perform env snapshot) _ s (perform-Looked snapshot tt s h)
          (λ v u k. or_key_error-Looked (evaluate v c) u k))
        (λ l u k. after-if Looked (passed l) (pure l) (throw _) u k k)

  note_baseline-Looked :
      (l : Checklist) (s : Run) → Looked s → Looked (record s { baseline = some l })
  note_baseline-Looked l s h = record {
    looks = h.looks;
    untouched = h.untouched;
    unlocked = h.unlocked;
  }

  confirm_injection-Looked :
      (tc : String) (s : Run) → Looked s → Looked (confirm_injection env c tc s).1
  unfolding confirm_injection
  confirm_injection-Looked tc s h =
      after-if Looked (contains tc disruptive) _ (pure tt) s
        (after->>= Looked (perform env (confirm tc)) _ s (perform-Looked (confirm tc) tt s h)
          (λ yes u k. after-if Looked yes (pure tt) (throw _) u k k))
        h

  unowned-Looked : (o : Option String) (s : Run) → Looked s → Looked (unowned env c o s).1
  unowned-Looked none s h = h
  unowned-Looked (some o) s h = h

  abbrev noted : Action (Unit {0})
  noted = check_baseline env c >>= (λ l. modify (λ r. record r { baseline = some l }))

  look-Looked :
      (sc : Scenario) (run_id : String) (s : Run) → Looked s → Looked (look env c sc run_id s).1
  unfolding look acquire_lock
  look-Looked sc run_id s h =
      after->>= Looked (noted >> confirm_injection env c sc.tc) (λ _. acquire_lock env c run_id) s
        (after->>= Looked noted (λ _. confirm_injection env c sc.tc) s
          (after->>= Looked (check_baseline env c)
            (λ l. modify (λ r. record r { baseline = some l })) s (check_baseline-Looked s h)
            note_baseline-Looked)
          (λ _ u k. confirm_injection-Looked sc.tc u k))
        (λ _ u k.
          after->>= Looked (perform env (lock run_id)) (unowned env c) u
            (perform-Looked (lock run_id) tt u k) unowned-Looked)

  abbrev Touched : Run → Type 0
  Touched r = r.touched ≡ true

  abbrev started : String → Action (Unit {0})
  started run_id = perform env (recorder_open run_id) >> perform env (recorder_start run_id)

  execute-Touched :
      (has_app : Bool) (sc : Scenario) (run_id : String) (s : Run)
      → KeepsTouched sc
      → Touched s
      → Touched (execute env c has_app sc run_id s).1
  unfolding execute
  execute-Touched has_app sc run_id s keeps h =
      after->>= Touched (opened >> recording) (λ _. sc.run) s
        (after->>= Touched opened (λ _. recording) s
          (after-if Touched (sc.needs_app && has_app) (perform env open_app) (pure tt) s h h)
          (λ _ u k.
            after-if Touched sc.needs_recorder (started run_id >> perform env (sleep 3000))
              (pure tt) u
              (after->>= Touched (started run_id) (λ _. perform env (sleep 3000)) u
                (after->>= Touched (perform env (recorder_open run_id))
                  (λ _. perform env (recorder_start run_id)) u k (λ _ v l. l))
                (λ _ v l. l))
              k))
        (λ _ u k. keeps u k)
    where
      opened : Action (Unit {0})
      opened = if sc.needs_app && has_app then perform env open_app else pure tt

      recording : Action (Unit {0})
      recording = if sc.needs_recorder then started run_id >> perform env (sleep 3000) else pure tt

  -- If the cluster was not touched, there were only looks.
  abbrev Spared : Run → Type 0
  Spared r = r.touched ≡ false → Looked r

  abbrev touch : Bool → Run → Run
  touch got r = record r { locked = got; touched = true }

  body-Spared :
      (has_app : Bool) (sc : Scenario) (run_id : String) (s : Run)
      → KeepsTouched sc
      → Looked s
      → Spared (body env c has_app sc run_id s).1
  unfolding body prepare
  body-Spared has_app sc run_id s keeps h =
      inside (look env c sc run_id s).0 (look-Looked sc run_id s h)
    where
      inside :
          (r : Result Bool) {u : Run}
          → Looked u
          → Spared
              (((λ v. (r, v))
                  >>= (λ got. modify (touch got))
                  >> execute env c has_app sc run_id
                  >>= (λ o. modify (λ r. record r { outcome = some o })))
                u).1
      inside (ok got) {u} k = λ f.
          clash _
            (after->>= Touched (execute env c has_app sc run_id)
              (λ o. modify (λ r. record r { outcome = some o })) (touch got u)
              (execute-Touched has_app sc run_id (touch got u) keeps refl) (λ _ _ l. l))
            f
      inside (raise e) k = λ _. k

  handle-Spared :
      (r : Result (Option String)) (s : Run) → Spared s → Spared (handle r (λ e. pure (some e)) s).1
  handle-Spared (ok a) s h = h
  handle-Spared (raise (aborted e)) s h = h
  handle-Spared (raise (error d e)) s h = h
  handle-Spared (raise interrupt) s h = h
  handle-Spared (raise out_of_fuel) s h = h

  attempt-Spared :
      (has_app : Bool) (sc : Scenario) (run_id : String)
      → KeepsTouched sc
      → Spared (attempt env c has_app sc run_id begin).1
  unfolding attempt
  attempt-Spared has_app sc run_id keeps = handle-Spared _ _ (
      after->>= Spared (body env c has_app sc run_id) (λ _. pure none) begin
        (body-Spared has_app sc run_id begin keeps
          (record { looks = tt; untouched = refl; unlocked = refl }))
        (λ _ _ k. k))

  finish-idle :
      (sc : Scenario) (run_id : String) (s : Run) → Looked s → finish env c sc run_id s ≡ (ok tt, s)
  unfolding finish cleaned
  finish-idle sc run_id s h = rw (h.untouched, h.unlocked)

  conclude-calls :
      (r : Result (Option String)) (f : Option String → Action TcResult) (s : Run)
      → ((a : Option String) → (f a s).1 ≡ s)
      → (continue r f s).1 ≡ s
  conclude-calls (ok a) f s h = h a
  conclude-calls (raise e) f s h = refl

  -- If a run stops before it counts the cluster as touched (the baseline is off, the person says no,
  -- the lock is another test's, or a call before the injection raises or is interrupted), then the
  -- whole run made no call but snapshots, the question and the try for the lock. The scenario must
  -- not assign the local variables of `run`.
  pub run-untouched :
      (simulated has_app : Bool) (sc : Scenario) (run_id : String)
      → KeepsTouched sc
      → (attempt env c has_app sc run_id begin).1.touched ≡ false
      → All IsLook (run env c simulated has_app sc run_id begin).1.calls
  unfolding run
  run-untouched simulated has_app sc run_id keeps h =
      let looked = attempt-Spared has_app sc run_id keeps h in
      rw (finish-idle sc run_id (attempt env c has_app sc run_id begin).1 looked) (
        subst (λ s. All IsLook s.calls)
          (sym (conclude-calls (attempt env c has_app sc run_id begin).0 _ _ (λ a. refl)))
          looked.looks)
