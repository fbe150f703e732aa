-- ===== src/Runner/Ends.antt =====
-- Rules for actions of a run that end in time (ha-test/hatest/runner.py): one for each way to build
-- an action.
use spr1n6_osscontest_server.Common.{
  ℕ, ◌+◌, ◌≤◌, ◌≡◌, refl, inl, inr, String, Bool, true, false, List, ◌∷◌, arith, if◌then◌else◌,
  Bool-cases,
}
use spr1n6_osscontest_server.Model.{Time}
use spr1n6_osscontest_server.Runner.Effects.{
  Call, Reply, Env, Ticks, Run, Action, Result, ok, raise, Raised, error, aborted, interrupt,
  out_of_fuel, pure, throw, perform, order, handle, try_except, clock_now, continue, from_reply,
  returns, fails, interrupts, ◌>>=◌, ◌>>◌, sleep,
}

abbrev after_sleep : ℕ → Run → Run
after_sleep ms s = record s { calls = sleep ms ∷ s.calls }

-- A raise is one of those that `E` allows.
abbrev pub Raises : {A : Type 0} → (Raised → Type 0) → Result A → Type 0
Raises E (ok a) = Unit
Raises E (raise e) = E e

-- Every raise but that of a loop that used up its fuel.
abbrev pub IsEnd : Raised → Type 0
IsEnd out_of_fuel = ⊥
IsEnd _ = Unit

-- `E`, and the exceptions that `except Exception` catches.
abbrev pub OrCaught : (Raised → Type 0) → Raised → Type 0
OrCaught E (aborted e) = Unit
OrCaught E (error k e) = Unit
OrCaught E interrupt = E interrupt
OrCaught E out_of_fuel = E out_of_fuel

-- No raise at all.
abbrev pub IsNever : Raised → Type 0
IsNever e = ⊥

-- The calls may fail, and where one may be interrupted from the time `t` on, `E` allows that.
pub record Allows (env : Env) (t : Time) (E : Raised → Type 0) : Type 0 where
  pub errors : (k e : String) → E (error k e)
  pub interrupted :
      (c : Call) (calls : List Call)
      → t ≤ env.now calls
      → env.answer c calls ≡ interrupts
      → E interrupt

-- From the time `t` on, `m` does not turn the clock back, raises only what `E` allows, and does not
-- forget that the lock is held.
pub record Ends {A : Type 0} (env : Env) (t : Time) (E : Raised → Type 0) (m : Action A)
    : Type 0 where
  pub later : (s : Run) → t ≤ clock_now env s → clock_now env s ≤ clock_now env (m s).1
  pub raised : (s : Run) → t ≤ clock_now env s → Raises E (m s).0
  pub kept : (s : Run) → t ≤ clock_now env s → s.locked ≡ true → (m s).1.locked ≡ true

pub Ends-mono :
    {A : Type 0} {env : Env} {t u : Time} {E : Raised → Type 0} {m : Action A}
    → t ≤ u
    → Ends env t E m
    → Ends env u E m
Ends-mono h e = record {
  later = λ s k. e.later s (omega arith);
  raised = λ s k. e.raised s (omega arith);
  kept = λ s k. e.kept s (omega arith);
}

pub Allows-mono :
    {env : Env} {t u : Time} {E : Raised → Type 0} → t ≤ u → Allows env t E → Allows env u E
Allows-mono h a = record {
  errors = a.errors;
  interrupted = λ c calls k. a.interrupted c calls (omega arith);
}

module _ {env : Env} {t : Time} {E : Raised → Type 0} where
  pub Ends-pure : {A : Type 0} (a : A) → Ends env t E (pure a)
  Ends-pure a = record { later = λ s h. omega arith; raised = λ s h. tt; kept = λ s h l. l }

  pub Ends-throw : {A : Type 0} (e : Raised) → E e → Ends env t E (throw {A = A} e)
  Ends-throw e k = record { later = λ s h. omega arith; raised = λ s h. k; kept = λ s h l. l }

  pub Ends-perform : Ticks env → Allows env t E → (c : Call) → Ends env t E (perform env c)
  Ends-perform k a c = record {
    later = λ s h. k.forward c s.calls;
    raised = λ s h. clear (env.answer c s.calls) (a.interrupted c s.calls h);
    kept = λ s h l. l;
  }
    where
      clear : {A : Type 0} (r : Reply A) → (r ≡ interrupts → E interrupt) → Raises E (from_reply r)
      clear (returns a) h = tt
      clear (fails k m) h = a.errors k m
      clear interrupts h = h refl

  continue-later :
      {A B : Type 0} (r : Result A) (f : A → Action B) (s : Run)
      → t ≤ clock_now env s
      → ((a : A) → Ends env t E (f a))
      → clock_now env s ≤ clock_now env (continue r f s).1
  continue-later (ok a) f s h k = (k a).later s h
  continue-later (raise e) f s h k = omega arith

  continue-raised :
      {A B : Type 0} (r : Result A) (f : A → Action B) (s : Run)
      → t ≤ clock_now env s
      → Raises E r
      → ((a : A) → Ends env t E (f a))
      → Raises E (continue r f s).0
  continue-raised (ok a) f s h c k = (k a).raised s h
  continue-raised (raise e) f s h c k = c

  continue-kept :
      {A B : Type 0} (r : Result A) (f : A → Action B) (s : Run)
      → t ≤ clock_now env s
      → s.locked ≡ true
      → ((a : A) → Ends env t E (f a))
      → (continue r f s).1.locked ≡ true
  continue-kept (ok a) f s h l k = (k a).kept s h l
  continue-kept (raise e) f s h l k = l

  pub Ends->>= :
      {A B : Type 0} {m : Action A} {f : A → Action B}
      → Ends env t E m
      → ((a : A) → Ends env t E (f a))
      → Ends env t E (m >>= f)
  Ends->>= {m = m} {f} e k = record {
    later = λ s h. omega (arith, e.later s h, continue-later (m s).0 f (m s).1 (after s h) k);
    raised = λ s h. continue-raised (m s).0 f (m s).1 (after s h) (e.raised s h) k;
    kept = λ s h l. continue-kept (m s).0 f (m s).1 (after s h) (e.kept s h l) k;
  }
    where
      after : (s : Run) → t ≤ clock_now env s → t ≤ clock_now env (m s).1
      after s h = omega (arith, e.later s h)

  pub Ends-order : Ticks env → Allows env t E → (c : Call) → Ends env t E (order env c)
  Ends-order k a c = Ends->>= (Ends-perform k a c) (λ _. Ends-pure tt)

  pub Ends-if :
      {A : Type 0} (b : Bool) {m n : Action A}
      → Ends env t E m
      → Ends env t E n
      → Ends env t E (if b then m else n)
  Ends-if true h k = h
  Ends-if false h k = k

  handle-later :
      {A : Type 0} (r : Result A) (f : String → Action A) (s : Run)
      → t ≤ clock_now env s
      → ((e : String) → Ends env t E (f e))
      → clock_now env s ≤ clock_now env (handle r f s).1
  handle-later (ok a) f s h k = omega arith
  handle-later (raise (aborted e)) f s h k = (k e).later s h
  handle-later (raise (error c e)) f s h k = (k _).later s h
  handle-later (raise interrupt) f s h k = omega arith
  handle-later (raise out_of_fuel) f s h k = omega arith

  handle-raised :
      {A : Type 0} (r : Result A) (f : String → Action A) (s : Run)
      → t ≤ clock_now env s
      → Raises (OrCaught E) r
      → ((e : String) → Ends env t E (f e))
      → Raises E (handle r f s).0
  handle-raised (ok a) f s h c k = tt
  handle-raised (raise (aborted e)) f s h c k = (k e).raised s h
  handle-raised (raise (error d e)) f s h c k = (k _).raised s h
  handle-raised (raise interrupt) f s h c k = c
  handle-raised (raise out_of_fuel) f s h c k = c

  handle-kept :
      {A : Type 0} (r : Result A) (f : String → Action A) (s : Run)
      → t ≤ clock_now env s
      → s.locked ≡ true
      → ((e : String) → Ends env t E (f e))
      → (handle r f s).1.locked ≡ true
  handle-kept (ok a) f s h l k = l
  handle-kept (raise (aborted e)) f s h l k = (k e).kept s h l
  handle-kept (raise (error d e)) f s h l k = (k _).kept s h l
  handle-kept (raise interrupt) f s h l k = l
  handle-kept (raise out_of_fuel) f s h l k = l

  pub Ends-try_except :
      {A : Type 0} {m : Action A} {f : String → Action A}
      → Ends env t (OrCaught E) m
      → ((e : String) → Ends env t E (f e))
      → Ends env t E (try_except m f)
  Ends-try_except {m = m} {f} e k = record {
    later = λ s h. omega (arith, e.later s h, handle-later (m s).0 f (m s).1 (after s h) k);
    raised = λ s h. handle-raised (m s).0 f (m s).1 (after s h) (e.raised s h) k;
    kept = λ s h l. handle-kept (m s).0 f (m s).1 (after s h) (e.kept s h l) k;
  }
    where
      after : (s : Run) → t ≤ clock_now env s → t ≤ clock_now env (m s).1
      after s h = omega (arith, e.later s h)

  -- The pause moves the clock, so the rest may start from a later time.
  pub Ends-sleep :
      {A : Type 0} {m : Action A}
      → Ticks env
      → Allows env t E
      → (ms : ℕ) → Ends env (t + ms) E m
      → Ends env t E (perform env (sleep ms) >> m)
  Ends-sleep {m = m} k a ms e = record {
    later = λ s h. later (env.answer (sleep ms) s.calls) s h;
    raised = λ s h. raised (env.answer (sleep ms) s.calls) s h (a.interrupted (sleep ms) s.calls h);
    kept = λ s h. kept (env.answer (sleep ms) s.calls) s h;
  }
    where
      kept :
          (r : Reply (Unit {0})) (s : Run)
          → t ≤ clock_now env s
          → s.locked ≡ true
          → (continue (from_reply r) (λ _. m) (after_sleep ms s)).1.locked ≡ true
      kept (returns u) s h l = e.kept (after_sleep ms s) (omega (arith, k.slept ms s.calls)) l
      kept (fails _ _) s h l = l
      kept interrupts s h l = l

      later :
          (r : Reply (Unit {0})) (s : Run)
          → t ≤ clock_now env s
          → clock_now env s ≤ clock_now env (continue (from_reply r) (λ _. m) (after_sleep ms s)).1
      later (returns u) s h = omega (
        arith,
        k.slept ms s.calls,
        e.later (after_sleep ms s) (omega (arith, k.slept ms s.calls)),
      )
      later (fails _ _) s h = k.forward (sleep ms) s.calls
      later interrupts s h = k.forward (sleep ms) s.calls

      raised :
          (r : Reply (Unit {0})) (s : Run)
          → t ≤ clock_now env s
          → (r ≡ interrupts → E interrupt)
          → Raises E (continue (from_reply r) (λ _. m) (after_sleep ms s)).0
      raised (returns u) s h i = e.raised (after_sleep ms s) (omega (arith, k.slept ms s.calls))
      raised (fails _ _) s h i = a.errors _ _
      raised interrupts s h i = i refl

  -- A test of the state chooses.
  pub Ends-test :
      {A : Type 0} {m n : Action A} (b : Run → Bool)
      → ((s : Run) → b s ≡ true → t ≤ clock_now env s → Ends env t E m)
      → ((s : Run) → b s ≡ false → t ≤ clock_now env s → Ends env t E n)
      → Ends env t E (λ s. if b s then m s else n s)
  Ends-test b e f = record {
    later = λ s h. elim (Bool-cases (b s)) [
      | inl y ↦ rw y ((e s y h).later s h)
      | inr y ↦ rw y ((f s y h).later s h)
    ];
    raised = λ s h. elim (Bool-cases (b s)) [
      | inl y ↦ rw y ((e s y h).raised s h)
      | inr y ↦ rw y ((f s y h).raised s h)
    ];
    kept = λ s h l. elim (Bool-cases (b s)) [
      | inl y ↦ rw y ((e s y h).kept s h l)
      | inr y ↦ rw y ((f s y h).kept s h l)
    ];
  }
