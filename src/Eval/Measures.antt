-- ===== src/Eval/Measures.antt =====
-- The measures of a search (`rank_of`, `percentile`, `arm_metrics` and `sign_test` in
-- scripts/eval/rerank_ab.py, and `percentile` in scripts/eval/search_test.py). A ratio is a pair of
-- numbers; a latency is a number of ticks.
use spr1n6_osscontest_server.Common.{
  ℕ, zero, suc, ◌+◌, ◌-◌, ◌*◌, ◌^◌, min, Bool, true, false, Option, none, some, List, [], ◌∷◌, leb,
  eqb, if◌then◌else◌, length, filter, get_elem?, map, is_some,
}
use spr1n6_osscontest_server.Common.Int.{ℤ, pos, negsuc}
use spr1n6_osscontest_server.Common.Sort.{sort_by, by_key}

abbrev pub add_one : Option ℕ → Option ℕ
add_one none = none
add_one (some n) = some (suc n)

-- `chunk_ids.index(gold) + 1 if gold in chunk_ids else None`
unfoldable pub rank_of : ℕ → List ℕ → Option ℕ
rank_of gold [] = none
rank_of gold (c ∷ chunk_ids) =
    let rest = add_one (rank_of gold chunk_ids) in if eqb c gold then some 1 else rest

-- `index last` is `int(round(p * last))`, which is a product of floats.
unfoldable pub percentile : List ℕ → (ℕ → ℕ) → Option ℕ
percentile [] index = some 0
percentile (v ∷ values) index =
    let last = length values in
    get_elem? (sort_by (by_key (λ x. x)) (v ∷ values)) (min last (index last))

-- `r is not None and r <= k`
abbrev pub within : ℕ → Option ℕ → Bool
within k none = false
within k (some r) = leb r k

pub record ArmMetrics : Type 0 where
  pub n : ℕ
  pub recall : List (ℕ × ℕ)
  pub hits : ℕ
  pub latency_p50 : Option ℕ
  pub latency_p95 : Option ℕ

-- The count behind each recall, by its k, and two percentiles; the means are left out.
unfoldable pub arm_metrics : (ℕ → ℕ) → (ℕ → ℕ) → List (Option ℕ) → List ℕ → List ℕ → ArmMetrics
arm_metrics half most ranks latencies ks = record {
  n = length ranks;
  recall = map (λ k. (k, length (filter (within k) ranks))) ks;
  hits = length (filter is_some ranks);
  latency_p50 = percentile latencies half;
  latency_p95 = percentile latencies most;
}

-- `math.comb(n, i)`
unfoldable pub comb : ℕ → ℕ → ℕ
comb n zero = 1
comb zero (suc i) = 0
comb (suc n) (suc i) = comb n i + comb n (suc i)

-- `sum(math.comb(n, i) for i in range(0, x + 1))`
unfoldable pub tail_at_most : ℕ → ℕ → ℕ
unfolding comb
tail_at_most n zero = comb n 0
tail_at_most n (suc x) = tail_at_most n x + comb n (suc x)

pub record SignTest : Type 0 where
  pub wins : ℕ
  pub losses : ℕ
  pub ties : ℕ
  pub p_value : ℕ × ℕ

abbrev pub is_win : ℤ → Bool
is_win (pos zero) = false
is_win (pos (suc n)) = true
is_win (negsuc n) = false

abbrev pub is_loss : ℤ → Bool
is_loss (pos n) = false
is_loss (negsuc n) = true

-- The p value is `min(1, 2 * lower)`, a numerator over `2 ** n`.
unfoldable pub sign_test : List ℤ → SignTest
unfolding tail_at_most
sign_test diffs =
    let wins = length (filter is_win diffs) in
    let losses = length (filter is_loss diffs) in
    let n = wins + losses in
    if eqb n 0
    then record { wins = 0; losses = 0; ties = length diffs; p_value = (1, 1) }
    else record {
      wins = wins;
      losses = losses;
      ties = length diffs - n;
      p_value = (min (2 ^ n) (2 * tail_at_most n (min wins losses)), 2 ^ n);
    }
