-- ===== src/Measure/Losses.antt =====
-- Which acknowledged rows are gone: `loss` (ha-test/hatest/measure.py).
use spr1n6_osscontest_server.Common.{
  ◌≡◌, ◌∙◌, inl, inr, String, Bool, true, List, [], ◌∷◌, arith, ◌&&◌, not, map, filter, contains,
  Bool-cases, ltb,
}
use spr1n6_osscontest_server.Common.Sort.{sort_by}
use spr1n6_osscontest_server.Common.Sets.{
  difference, contains-to_set, contains-filter, contains-sort_by,
}
use spr1n6_osscontest_server.Model.{Time, ProbeAttempt, tag}
use spr1n6_osscontest_server.Measure.{
  loss, succeeded, by_seq, acked_tags, acked_before_tags, probe_rows,
}

-- The tag `t` belongs to an attempt that passes the test `p`.
abbrev pub tagged : String → (ProbeAttempt → Bool) → List ProbeAttempt → String → Bool
tagged run_id p attempts t = contains t (map (tag run_id) (filter p attempts))

tagged_mono :
    (run_id t : String) (p : ProbeAttempt → Bool) (attempts : List ProbeAttempt)
    → tagged run_id p attempts t ≡ true
    → contains t (map (tag run_id) attempts) ≡ true
tagged_mono run_id t p [] h = h
tagged_mono run_id t p (a ∷ attempts) h = elim (Bool-cases (p a)) [
  | inl e ↦ ground (arith, tagged_mono run_id t p attempts)
  | inr e ↦ ground (arith, tagged_mono run_id t p attempts)
]

contains-sorted_difference :
    (t : String) (a b : List String)
    → contains t (sort_by by_seq (difference a b)) ≡ (contains t a && not (contains t b))
contains-sorted_difference t a b =
    contains-sort_by by_seq t (difference a b) ∙ contains-filter _ t a

-- A row counts as missing whether or not it is looked up among the tags of the attempts.
missing :
    (acked tags present : Bool)
    → (acked ≡ true → tags ≡ true)
    → (acked && not (present && tags)) ≡ (acked && not present)
missing acked tags present h = ground arith

module _ (attempts : List ProbeAttempt) (present : List String) (run_id : String) (at : Time) where
  contains-rows :
      (t : String)
      → contains t (probe_rows attempts present run_id)
        ≡ (contains t present && contains t (map (tag run_id) attempts))
  unfolding probe_rows
  contains-rows t = contains-filter _ t present

  contains-acked :
      (t : String) → contains t (acked_tags attempts run_id) ≡ tagged run_id succeeded attempts t
  unfolding acked_tags
  contains-acked t = contains-to_set t _

  contains-acked_before :
      (t : String)
      → contains t (acked_before_tags attempts run_id at)
        ≡ tagged run_id (λ a. a.ok && ltb a.end at) attempts t
  unfolding acked_before_tags
  contains-acked_before t = contains-to_set t _

  -- A tag is reported lost exactly when an attempt with it succeeded and it is not present. It is
  -- reported lost from before the failure exactly when such an attempt ended before the injection.
  -- It is reported as an unknown commit exactly when it is present, some attempt has it, and none
  -- with it succeeded.
  pub loss_iff :
      (t : String)
      → let l = loss attempts present run_id at in
        (contains t l.lost ≡ (tagged run_id succeeded attempts t && not (contains t present)))
        × (contains t l.lost_before
            ≡ (tagged run_id (λ a. a.ok && ltb a.end at) attempts t && not (contains t present)))
        × (contains t l.unknown_commits ≡ (
            contains t present
            && contains t (map (tag run_id) attempts)
            && not (tagged run_id succeeded attempts t)))
  unfolding loss
  loss_iff t =
      let rows = probe_rows attempts present run_id in
      (
        contains-sorted_difference t (acked_tags attempts run_id) rows
            ∙ rw (contains-acked t, contains-rows t)
                (missing _ _ _ (tagged_mono run_id t succeeded attempts)),
        contains-sorted_difference t (acked_before_tags attempts run_id at) rows
            ∙ rw (contains-acked_before t, contains-rows t)
                (missing _ _ _ (tagged_mono run_id t (λ a. a.ok && ltb a.end at) attempts)),
        contains-sorted_difference t rows (acked_tags attempts run_id)
            ∙ rw (contains-acked t, contains-rows t) (ground arith),
      )
