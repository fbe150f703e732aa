-- ===== src/Measure.antt =====
-- What is computed from the records of a run (ha-test/hatest/measure.py).
-- A Python set is a list without repetition; its order is not observed.
pub mod Extremes
pub mod Stops
pub mod Promotions
pub mod Leaders
pub mod Losses
mod Tests
use Prim.Native.Char.{code}
use spr1n6_osscontest_server.Common.{
  ℕ, zero, suc, ◌+◌, ◌-◌, ◌*◌, String, Bool, true, false, Option, none, some, List, [], ◌∷◌, ◌&&◌,
  not, ltb, leb, eqb, ◌==◌, if◌then◌else◌, filter, map, length, last, contains, is_empty, Dict,
  lookup,
}
use spr1n6_osscontest_server.Common.Int.{ℤ, pos, negsuc, sub_ℕ, max_ℤ, leb_ℤ}
use spr1n6_osscontest_server.Common.Sort.{sort_by, by_key}
use spr1n6_osscontest_server.Common.Sets.{add_to_set, to_set, difference}
use spr1n6_osscontest_server.Model.{
  Time, ProbeAttempt, RoleSample, Member, CpuSample, is_leader, tag,
}

pub record WriteStop : Type 0 where
  pub duration : Option ℤ
  pub last_ok_at : Option Time
  pub first_fail_at : Option Time
  pub resumed_at : Option Time
  pub failures : ℕ
  pub attempts : ℕ

-- `until is None or t < until`
abbrev pub not_past : Option Time → Time → Bool
not_past none t = true
not_past (some until) t = ltb t until

abbrev pub min_opt : List ℕ → Option ℕ
min_opt [] = none
min_opt (x ∷ xs) = elim (min_opt xs) [ none ↦ some x | some y ↦ if ltb y x then some y else some x ]

abbrev pub max_opt : List ℕ → Option ℕ
max_opt [] = none
max_opt (x ∷ xs) = elim (max_opt xs) [ none ↦ some x | some y ↦ if ltb x y then some y else some x ]

abbrev max_gap : List ℤ → Option ℤ
max_gap [] = none
max_gap (x ∷ xs) = elim (max_gap xs) [ none ↦ some x | some y ↦ some (max_ℤ x y) ]

-- `[later - earlier for earlier, later in zip(acks, acks[1:])]`
abbrev gaps : List Time → List ℤ
gaps [] = []
gaps (x ∷ []) = []
gaps (x ∷ y ∷ rest) = sub_ℕ y x ∷ gaps (y ∷ rest)

abbrev pub in_window : Time → Option Time → ProbeAttempt → Bool
in_window since until a = leb since a.start && not_past until a.start

abbrev pub succeeded : ProbeAttempt → Bool
succeeded a = a.ok

abbrev pub failed : ProbeAttempt → Bool
failed a = not a.ok

-- An optional element in front of a list.
abbrev pub prepend {ℓ} : {A : Type ℓ} → Option A → List A → List A
prepend none xs = xs
prepend (some x) xs = x ∷ xs

-- The branch of `write_stop` with no failure in the window.
quiet_stop : List ProbeAttempt → Time → Option Time → ℕ → WriteStop
quiet_stop successes since until attempts =
    let acked = filter (λ a. leb since a.end && not_past until a.end) successes in
    let before = filter (λ a. ltb a.end since) successes in
    let acks = prepend (last (map (λ a. a.end) before)) (map (λ a. a.end) acked) in
    record {
      duration = max_gap (gaps acks);
      last_ok_at = none;
      first_fail_at = none;
      resumed_at = last acks;
      failures = 0;
      attempts = attempts;
    }

abbrev pub or_time : Option Time → Time → Time
or_time none d = d
or_time (some t) d = t

abbrev pub elapsed_from : Time → Option Time → Option ℤ
elapsed_from origin none = none
elapsed_from origin (some t) = some (sub_ℕ t origin)

-- The branch of `write_stop` after a first failure that began at `fail_at`.
broken_stop : List ProbeAttempt → List ProbeAttempt → Time → Time → ℕ → WriteStop
broken_stop successes failures fail_at since attempts =
    let last_ok = max_opt (map (λ a. a.end) (filter (λ a. leb a.end fail_at) successes)) in
    let resumed = min_opt (map (λ a. a.end) (filter (λ a. leb fail_at a.start) successes)) in
    record {
      duration = elapsed_from (or_time last_ok since) resumed;
      last_ok_at = last_ok;
      first_fail_at = some fail_at;
      resumed_at = resumed;
      failures = length (filter (λ a. not_past resumed a.start) failures);
      attempts = attempts;
    }

stop_of : List ProbeAttempt → List ProbeAttempt → Time → Option Time → ℕ → WriteStop
stop_of successes [] since until attempts = quiet_stop successes since until attempts
stop_of successes (f ∷ fs) since until attempts =
    broken_stop successes (f ∷ fs) f.start since attempts

unfoldable pub write_stop : List ProbeAttempt → Time → Option Time → WriteStop
unfolding stop_of quiet_stop broken_stop
write_stop attempts since until =
    let window = filter (in_window since until) attempts in
    let successes = sort_by (by_key (λ a. a.end)) (filter succeeded attempts) in
    let failures = sort_by (by_key (λ a. a.start)) (filter failed window) in
    stop_of successes failures since until (length window)

-- Both comprehensions of `promotion` on one sample: who was seen as Leader, and when.
candidate : String → Time → RoleSample → Option (String × Time)
candidate old since s =
    if is_leader s.member && not (s.member.node == old)
    then elim s.member.observed_at [
      | none ↦ none
      | some at ↦ if leb since at then some (s.member.node, at) else none
    ]
    else none

seen_leaders : String → Time → List RoleSample → List (String × Time)
seen_leaders old since [] = []
seen_leaders old since (s ∷ samples) =
    prepend (candidate old since s) (seen_leaders old since samples)

-- `min(candidates, key=...)`: the first of the earliest.
earliest : List (String × Time) → Option (String × Time)
earliest [] = none
earliest (c ∷ cs) = elim (earliest cs) [
  | none ↦ some c
  | some d ↦ if ltb d.1 c.1 then some d else some c
]

unfoldable pub promotion : List RoleSample → String → Time → Option (String × Time)
unfolding candidate seen_leaders earliest
promotion samples old_leader since = earliest (seen_leaders old_leader since samples)

-- `leaders_by_tick[tick].add(node)` of a `defaultdict(set)`
add_leader : ℕ → String → List (ℕ × List String) → List (ℕ × List String)
add_leader tick node [] = (tick, node ∷ []) ∷ []
add_leader tick node ((t, nodes) ∷ table) =
    if eqb t tick
    then (t, add_to_set node nodes) ∷ table
    else (t, nodes) ∷ add_leader tick node table

collect : List RoleSample → List (ℕ × List String) → List (ℕ × List String)
unfolding add_leader
collect [] table = table
collect (s ∷ samples) table =
    collect samples (if is_leader s.member then add_leader s.tick s.member.node table else table)

largest : List (ℕ × List String) → ℕ
largest [] = 0
largest ((t, nodes) ∷ table) =
    if ltb (largest table) (length nodes) then length nodes else largest table

unfoldable pub max_simultaneous_leaders : List RoleSample → ℕ
unfolding collect largest
max_simultaneous_leaders samples = largest (collect samples [])

pub record Loss : Type 0 where
  pub acked : ℕ
  pub present : ℕ
  pub lost : List String
  pub lost_before : List String
  pub unknown_commits : List String

abbrev codes : String → List ℕ
codes String.[] = []
codes (String.◌∷◌ c s) = code c ∷ codes s

-- `tag.rsplit(":", 1)[-1]`: what follows the last colon, or the whole text.
after_colon : List ℕ → List ℕ → List ℕ
after_colon [] tail = tail
after_colon (c ∷ cs) tail = if eqb c b':' then after_colon cs cs else after_colon cs tail

abbrev is_digit : ℕ → Bool
is_digit c = leb b'0' c && leb c b'9'

-- `int(tail) if tail.isdigit() else -1`; the empty text is no number.
read_digits : List ℕ → ℕ → ℤ
read_digits [] n = pos n
read_digits (c ∷ cs) n = if is_digit c then read_digits cs (n * 10 + (c - b'0')) else negsuc 0

unfoldable pub seq_order : String → ℤ
unfolding after_colon read_digits
seq_order tag =
    let tail = after_colon (codes tag) (codes tag) in
    if is_empty tail then negsuc 0 else read_digits tail 0

abbrev pub by_seq : String → String → Bool
by_seq s t = leb_ℤ (seq_order s) (seq_order t)

-- `tags[a.seq]` is `a.tag(run_id)`: the tag depends on the sequence number alone.
unfoldable pub acked_tags : List ProbeAttempt → String → List String
acked_tags attempts run_id = to_set (map (tag run_id) (filter succeeded attempts))

unfoldable pub acked_before_tags : List ProbeAttempt → String → Time → List String
acked_before_tags attempts run_id injected_at =
    to_set (map (tag run_id) (filter (λ a. a.ok && ltb a.end injected_at) attempts))

unfoldable pub probe_rows : List ProbeAttempt → List String → String → List String
probe_rows attempts present_tags run_id =
    filter (λ t. contains t (map (tag run_id) attempts)) present_tags

unfoldable pub loss : List ProbeAttempt → List String → String → Time → Loss
loss attempts present_tags run_id injected_at =
    let acked = acked_tags attempts run_id in
    let acked_before = acked_before_tags attempts run_id injected_at in
    let rows = probe_rows attempts present_tags run_id in
    record {
      acked = length acked;
      present = length rows;
      lost = sort_by by_seq (difference acked rows);
      lost_before = sort_by by_seq (difference acked_before rows);
      unknown_commits = sort_by by_seq (difference rows acked);
    }

-- A percentage is kept as a fraction, `busy * 100 / total`.
pub record Percent : Type 0 where
  pub numerator : ℤ
  pub denominator : ℕ

abbrev hundredfold : ℤ → ℤ
hundredfold (pos n) = pos (n * 100)
hundredfold (negsuc n) = negsuc (n * 100 + 99)

unfoldable pub cpu_percent : CpuSample → CpuSample → Option Percent
cpu_percent earlier later =
    if leb later.total earlier.total
    then none
    else some (record {
      numerator = hundredfold (sub_ℕ later.busy earlier.busy);
      denominator = later.total - earlier.total;
    })

unfoldable pub cpu_window : Dict CpuSample → Dict CpuSample → Dict (Option Percent)
unfolding cpu_percent
cpu_window [] end = []
cpu_window ((node, earlier) ∷ start) end =
    let rest = cpu_window start end in
    elim (lookup node end) [ none ↦ rest | some later ↦ (node, cpu_percent earlier later) ∷ rest ]

unfoldable pub seconds_between : Option Time → Option Time → Option ℤ
seconds_between (some earlier) (some later) = some (sub_ℕ later earlier)
seconds_between _ _ = none
