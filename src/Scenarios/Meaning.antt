-- ===== src/Scenarios/Meaning.antt =====
-- What a scenario that passes has shown (ha-test/hatest/scenarios.py).
use spr1n6_osscontest_server.Common.{
  ℕ, ◌≤◌, ◌≡◌, refl, ◌↔◌, String, Bool, true, false, Option, none, some, List, [], ◌∷◌, arith, ◌&&◌,
  is_some, is_empty, contains,
}
use spr1n6_osscontest_server.Common.Int.{ℤ, pos, ◌≤ℤ◌}
use spr1n6_osscontest_server.Config.{Config}
use spr1n6_osscontest_server.Measure.{
  promotion, write_stop, max_simultaneous_leaders, loss, succeeded,
}
use spr1n6_osscontest_server.Measure.Losses.{tagged, loss_iff}
use spr1n6_osscontest_server.Model.{Time, RecorderLogs}
use spr1n6_osscontest_server.Report.{decide, pass}
use spr1n6_osscontest_server.Runner.Effects.{Env}
use spr1n6_osscontest_server.Scenarios.{promote_limit}
use spr1n6_osscontest_server.Scenarios.Replication.{within_limit}
use spr1n6_osscontest_server.Scenarios.Failover.{Followed, failover_outcome}
use spr1n6_osscontest_server.Scenarios.Retention.{retention_outcome, marker_of}

-- A failover as H-3 wants it: a new Leader was recorded and seen, no two Leaders at one tick, the
-- writes stopped for a known time of at most 45 seconds, and the old primary joined again.
pub record IsFailover (c : Config) (f : Followed) : Type 0 where
  pub promoted : is_some (promotion f.logs.roles c.primary f.injection.at) ≡ true
  pub seen : is_some f.new_leader ≡ true
  pub alone : max_simultaneous_leaders f.logs.roles ≤ 1
  pub stop : ℤ
  pub measured : (write_stop f.logs.attempts f.injection.at none).duration ≡ some stop
  pub short : stop ≤ℤ pos promote_limit
  pub rejoined : is_some f.rejoined_at ≡ true

-- The test of four criteria in a row.
four-pass :
    (p q r u v : Bool)
    → ((p && q) ≡ true) × (r ≡ true) × (u ≡ true) × (v ≡ true)
    → (p && q && r && u && v) ≡ true
four-pass p q r u v h = ground arith

within-known :
    (d : Option ℤ)
    → within_limit promote_limit d ≡ true
    → (z : ℤ) × (d ≡ some z) × (z ≤ℤ pos promote_limit)
within-known none h = cc
within-known (some z) h = (z, refl, ground arith)

known-within :
    (d : Option ℤ) (z : ℤ)
    → d ≡ some z
    → z ≤ℤ pos promote_limit
    → within_limit promote_limit d ≡ true
known-within none z e h = cc
known-within (some d) z e h = ground (arith, e, h)

module _ (env : Env) (fmt_seconds : ℕ → Option ℤ → String) (c : Config) where
  failover_outcome-IsFailover :
      (f : Followed)
      → decide (some (failover_outcome env fmt_seconds c f)) none ≡ pass
      → IsFailover c f
  unfolding decide failover_outcome
  failover_outcome-IsFailover f h =
      let (z, m, s) =
        within-known (write_stop f.logs.attempts f.injection.at none).duration (ground arith) in
      record {
        promoted = ground arith;
        seen = ground arith;
        alone = ground arith;
        stop = z;
        measured = m;
        short = s;
        rejoined = ground arith;
      }

  failover_outcome-pass :
      (f : Followed)
      → IsFailover c f
      → decide (some (failover_outcome env fmt_seconds c f)) none ≡ pass
  unfolding decide failover_outcome
  failover_outcome-pass f k = ground (
    arith,
    k.promoted,
    k.seen,
    k.alone,
    known-within (write_stop f.logs.attempts f.injection.at none).duration k.stop k.measured
        k.short,
    k.rejoined,
  )

  -- The verdict of an H-3 that was not stopped is Pass exactly when its records show a failover as the
  -- test wants it.
  pub failover_outcome-pass_iff :
      (f : Followed)
      → (decide (some (failover_outcome env fmt_seconds c f)) none ≡ pass) ↔ IsFailover c f
  failover_outcome-pass_iff f = (failover_outcome-IsFailover f, failover_outcome-pass f)

empty-contains : (t : String) (xs : List String) → is_empty xs ≡ true → contains t xs ≡ false
empty-contains t [] h = refl
empty-contains t (x ∷ xs) h = cc

retention-lost :
    (c : Config) (run_id : String) (at : Time) (logs : RecorderLogs) (present : List String)
    → decide (some (retention_outcome c run_id at logs present)) none ≡ pass
    → (contains (marker_of run_id) present ≡ true)
      × (is_empty (loss logs.attempts present run_id at).lost ≡ true)
unfolding decide retention_outcome
retention-lost c run_id at logs present h = (ground arith, ground arith)

-- If the verdict of an H-4 that was not stopped is Pass, then the marker that was written before the
-- failure is present on the new primary, and so is every tag of a write that was acknowledged, before
-- the failure or after it.
pub retention_outcome-pass :
    (c : Config) (run_id : String) (at : Time) (logs : RecorderLogs) (present : List String)
    → decide (some (retention_outcome c run_id at logs present)) none ≡ pass
    → (contains (marker_of run_id) present ≡ true)
      × ((t : String) → tagged run_id succeeded logs.attempts t ≡ true → contains t present ≡ true)
retention_outcome-pass c run_id at logs present h =
    let (marker, none_lost) = retention-lost c run_id at logs present h in
    (
      marker,
      λ t w. ground (
        arith,
        (loss_iff logs.attempts present run_id at t).0,
        empty-contains t (loss logs.attempts present run_id at).lost none_lost,
        w,
      ),
    )
