-- ===== src/Measure/Stops.antt =====
-- What `write_stop` measures (ha-test/hatest/measure.py).
use spr1n6_osscontest_server.Common.{
  ℕ, ◌≤◌, ◌≡◌, refl, inl, inr, Option-cases, Bool, true, Option, none, some, List, [], ◌∷◌, filter,
  length, filter-filter, subst, ap, ◌∙◌, All, Any, All-of_filter, Any-of_filter, ◌&&◌, leb,
}
use native.Mathlib.Nat.{le_refl}
use mathlib.Core.Option.{some-injective}
use spr1n6_osscontest_server.Common.Sort.{
  sort_by, by_key, IsSorted, All-of_sort_by, Any-of_sort_by, sort_by-IsSorted,
  length-filter-sort_by,
}
use spr1n6_osscontest_server.Model.{Time, ProbeAttempt}
use spr1n6_osscontest_server.Measure.{
  WriteStop, write_stop, stop_of, quiet_stop, broken_stop, in_window, succeeded, failed, not_past,
  elapsed_from, or_time,
}
use spr1n6_osscontest_server.Measure.Extremes.{
  Greatest, Least, max_opt-Greatest, min_opt-Least, Greatest-of_sorted, Least-of_sorted,
}

-- A failed attempt inside the window.
abbrev pub failed_in : Time → Option Time → ProbeAttempt → Bool
failed_in since until a = in_window since until a && failed a

-- A measurement after a failure. `fail_at` is the earliest start of a failed attempt of the window.
-- The last success is the latest end, not after `fail_at`, of a successful attempt. The resumption
-- is the earliest end of a successful attempt that began at `fail_at` or later.
pub record IsBroken (attempts : List ProbeAttempt) (since : Time) (until : Option Time)
    (fail_at : Time) (s : WriteStop) : Type 0 where
  pub first : Least (failed_in since until) (λ a. a.start) attempts (some fail_at)
  pub last_ok : Greatest (λ a. a.ok && leb a.end fail_at) (λ a. a.end) attempts s.last_ok_at
  pub resumed : Least (λ a. a.ok && leb fail_at a.start) (λ a. a.end) attempts s.resumed_at
  pub duration : s.duration ≡ elapsed_from (or_time s.last_ok_at since) s.resumed_at
  pub counted :
      s.failures
      ≡ length
          (filter (λ a. not_past s.resumed_at a.start) (filter (failed_in since until) attempts))

-- A measurement that reports a first failure, and what it says of it.
abbrev pub Reports : List ProbeAttempt → Time → Option Time → WriteStop → Type 0
Reports attempts since until s =
    (fail_at : Time) × (s.first_fail_at ≡ some fail_at) × IsBroken attempts since until fail_at s

module _ (attempts : List ProbeAttempt) (since : Time) (until : Option Time) where
  abbrev successes : List ProbeAttempt
  successes = sort_by (by_key (λ a. a.end)) (filter succeeded attempts)

  abbrev failures : List ProbeAttempt
  failures =
      sort_by (by_key (λ a. a.start)) (filter failed (filter (in_window since until) attempts))

  -- What holds of every ordered failure holds of every failed attempt of the window.
  from_failures :
      (P : ProbeAttempt → Type 0)
      → All P failures
      → All (λ a. failed_in since until a ≡ true → P a) attempts
  from_failures P h =
      All-of_filter P (failed_in since until) attempts
        (rw filter-filter at (All-of_sort_by (by_key (λ a. a.start)) P _ h))

  some_failure :
      (P : ProbeAttempt → Type 0)
      → Any P failures
      → Any (λ a. (failed_in since until a ≡ true) × P a) attempts
  some_failure P h =
      Any-of_filter P (failed_in since until) attempts
        (rw filter-filter at (Any-of_sort_by (by_key (λ a. a.start)) P _ h))

  recount :
      (q : ProbeAttempt → Bool) (fs : List ProbeAttempt)
      → failures ≡ fs
      → length (filter q fs) ≡ length (filter q (filter (failed_in since until) attempts))
  recount q fs e = rw (← e) (
      length-filter-sort_by (by_key (λ a. a.start)) q _
      ∙ ap (λ l. length (filter q l)) (filter-filter failed (in_window since until) attempts))

  broken :
      (f : ProbeAttempt) (fs : List ProbeAttempt) (n : ℕ)
      → failures ≡ f ∷ fs
      → IsBroken attempts since until f.start (broken_stop successes (f ∷ fs) f.start since n)
  unfolding broken_stop
  broken f fs n e = record {
    first = (
      from_failures (λ a. f.start ≤ a.start) (rw e (le_refl f.start, sorted.0)),
      some_failure (λ a. a.start ≡ f.start) (rw e (inl refl)),
    );
    last_ok =
        Greatest-of_sorted _ succeeded (λ a. leb a.end f.start) (λ a. a.end) attempts _
          (max_opt-Greatest (λ a. leb a.end f.start) (λ a. a.end) successes);
    resumed =
        Least-of_sorted _ succeeded (λ a. leb f.start a.start) (λ a. a.end) attempts _
          (min_opt-Least (λ a. leb f.start a.start) (λ a. a.end) successes);
    duration = refl;
    counted = recount _ (f ∷ fs) e;
  }
    where
      sorted : IsSorted (λ (a : ProbeAttempt). a.start) (f ∷ fs)
      sorted =
          subst (IsSorted (λ a. a.start)) e (sort_by-IsSorted (λ (a : ProbeAttempt). a.start) _)

  by_cases :
      (fs : List ProbeAttempt) (n : ℕ) (fail_at : Time)
      → failures ≡ fs
      → (stop_of successes fs since until n).first_fail_at ≡ some fail_at
      → IsBroken attempts since until fail_at (stop_of successes fs since until n)
  unfolding stop_of quiet_stop broken_stop
  by_cases [] n fail_at e h = cc
  by_cases (f ∷ fs) n fail_at e h =
      subst (λ t. IsBroken attempts since until t (stop_of successes (f ∷ fs) since until n))
        (some-injective _ _ h) (broken f fs n e)

  no_failure :
      (fs : List ProbeAttempt) (n : ℕ)
      → failures ≡ fs
      → (stop_of successes fs since until n).first_fail_at ≡ none
      → fs ≡ []
  unfolding stop_of quiet_stop broken_stop
  no_failure [] n e h = refl
  no_failure (f ∷ fs) n e h = cc

  reported :
      (fail_at : Time)
      → (write_stop attempts since until).first_fail_at ≡ some fail_at
      → IsBroken attempts since until fail_at (write_stop attempts since until)
  unfolding write_stop
  reported fail_at h =
      by_cases failures (length (filter (in_window since until) attempts)) fail_at refl h

  -- If `write_stop` reports no first failure, then no attempt of the window failed.
  unreported :
      (write_stop attempts since until).first_fail_at ≡ none
      → All (λ a. failed_in since until a ≡ true → ⊥) attempts
  unfolding write_stop
  unreported h =
      from_failures (λ a. ⊥)
        (rw (no_failure failures (length (filter (in_window since until) attempts)) refl h) tt)

  refuted :
      (xs : List ProbeAttempt)
      → Any (λ a. failed_in since until a ≡ true) xs
      → All (λ a. failed_in since until a ≡ true → ⊥) xs
      → ⊥
  refuted [] h k = h
  refuted (x ∷ xs) (inl e) k = k.0 e
  refuted (x ∷ xs) (inr h) k = refuted xs h k.1

  -- If an attempt of the window failed, then `write_stop` reports a first failure: it is the earliest
  -- start of a failed attempt of the window, the last success and the resumption are the extreme ends
  -- of the successful attempts on either side of it (none exactly when there is no such attempt), the
  -- duration runs from the last success, or from `since`, to the resumption, and the failures that are
  -- counted are the failed attempts of the window that began before the resumption.
  pub write_stop-IsBroken :
      Any (λ a. failed_in since until a ≡ true) attempts
      → Reports attempts since until (write_stop attempts since until)
  write_stop-IsBroken h = elim (Option-cases (write_stop attempts since until).first_fail_at) [
    | inl e ↦ absurd (refuted attempts h (unreported e))
    | inr (fail_at, e) ↦ (fail_at, e, reported fail_at e)
  ]
