-- ===== src/Scenarios/ReadDistribution.antt =====
-- H-2: what the test of the searches makes of its counts, its CPU samples and its upload
-- (`ReadDistributionScenario` and `LoadCount` in ha-test/hatest/scenarios.py). The display of a
-- percentage is a parameter, since it rounds a float.
use spr1n6_osscontest_server.Common.{
  ℕ, zero, ◌+◌, ◌*◌, String, Bool, true, false, Option, none, some, List, [], ◌∷◌, ◌&&◌, ltb, eqb,
  ◌<>◌, str, if◌then◌else◌, Dict, lookup, join, map,
}
use spr1n6_osscontest_server.Common.Int.{pos, negsuc}
use spr1n6_osscontest_server.AppClient.{UploadResult}
use spr1n6_osscontest_server.Config.{Config, node_names, replicas}
use spr1n6_osscontest_server.Measure.{Percent, cpu_window}
use spr1n6_osscontest_server.Model.{Time, CpuSample}
use spr1n6_osscontest_server.Report.{Outcome}
use spr1n6_osscontest_server.Scenarios.Replication.{criterion, get_known, or_dash}

-- In seconds.
abbrev pub search_seconds : ℕ
search_seconds = 20

-- In percent.
abbrev pub primary_cpu_limit : ℕ
primary_cpu_limit = 30

pub record LoadCount : Type 0 where
  pub ok_count : ℕ
  pub failed : ℕ

abbrev pub no_load : LoadCount
no_load = record { ok_count = 0; failed = 0 }

unfoldable pub add : LoadCount → Bool → LoadCount
add l ok = if ok then record l { ok_count = l.ok_count + 1 } else record l { failed = l.failed + 1 }

abbrev load_text : LoadCount → String
load_text l = str (l.ok_count + l.failed) <> "회(성공 " <> str l.ok_count <> ")"

-- `by_node.get(node, 0)`
abbrev pub queries_at : Dict ℕ → String → ℕ
queries_at by_node node = elim (lookup node by_node) [ none ↦ zero | some n ↦ n ]

abbrev pub sum_of : Dict ℕ → List String → ℕ
sum_of by_node [] = zero
sum_of by_node (node ∷ names) = queries_at by_node node + sum_of by_node names

abbrev pub is_below : ℕ → Option Percent → Bool
is_below limit none = false
is_below limit (some p) = elim p.numerator [
  | pos n ↦ ltb n (limit * p.denominator)
  | negsuc n ↦ true
]

-- `uploaded.document_id or '-'`
abbrev id_text : Option ℕ → String
id_text none = "-"
id_text (some n) = if eqb n 0 then "-" else str n

-- What a run of H-2 recorded.
pub record Searched : Type 0 where
  pub since : Time
  pub web : LoadCount
  pub mcp : LoadCount
  pub by_node : Dict ℕ
  pub cpu_start : Dict CpuSample
  pub cpu_end : Dict CpuSample
  pub uploaded : UploadResult
  pub rows_on_primary : ℕ

module _ (percent_text : Percent → String) (c : Config) where
  abbrev counts_text : Dict ℕ → String
  counts_text by_node =
      join ", " (map (λ n. n <> " " <> str (queries_at by_node n) <> "건") (node_names c))

  abbrev known_cpu : Dict (Option Percent) → List String → List String
  known_cpu cpu [] = []
  known_cpu cpu (node ∷ names) =
      let rest = known_cpu cpu names in
      elim (get_known node cpu) [
        | none ↦ rest
        | some p ↦ (node <> " " <> percent_text p <> "%") ∷ rest
      ]

  abbrev cpu_or_failed : Option Percent → String
  cpu_or_failed none = "측정 실패"
  cpu_or_failed (some p) = percent_text p <> "%"

  abbrev upload_text : Searched → String
  upload_text s = s.uploaded.detail <> ", " <> c.primary

  abbrev pub is_on_replicas : Searched → Bool
  is_on_replicas s =
      (ltb 0 s.web.ok_count && ltb 0 s.mcp.ok_count)
      && eqb (queries_at s.by_node c.primary) 0
      && ltb 0 (sum_of s.by_node (replicas c))

  unfoldable pub read_outcome : Searched → Outcome
  unfolding cpu_window
  read_outcome s =
      let cpu = cpu_window s.cpu_start s.cpu_end in
      let primary_q = str (queries_at s.by_node c.primary) in
      let replica_q = str (sum_of s.by_node (replicas c)) in
      record {
        injected_at = some s.since;
        injection = "검색 부하 " <> str search_seconds <> "초 (웹·MCP) + 문서 업로드 1건";
        measurements =
            ("검색 요청", "웹 " <> load_text s.web <> ", MCP " <> load_text s.mcp)
            ∷ ("검색 쿼리 처리", counts_text s.by_node)
            ∷ ("부하 중 CPU", or_dash (join ", " (known_cpu cpu (node_names c))))
            ∷ (
              "업로드",
              s.uploaded.detail
                  <> ", documentId "
                  <> id_text s.uploaded.document_id
                  <> ", "
                  <> c.primary
                  <> " 에서 "
                  <> str s.rows_on_primary
                  <> "건",
            )
            ∷ [];
        criteria =
            criterion ("검색 쿼리가 모두 " <> join "·" (replicas c) <> " 에서 처리됨 (Primary 0건)")
              (is_on_replicas s)
              ("Primary "
                <> primary_q
                <> "건, Replica "
                <> replica_q
                <> "건 (웹 성공 "
                <> str s.web.ok_count
                <> ", MCP 성공 "
                <> str s.mcp.ok_count
                <> ")")
            ∷ criterion "검색 부하 중 Primary CPU 가 오르지 않음 (30% 미만)"
                (is_below primary_cpu_limit (get_known c.primary cpu))
                (cpu_or_failed (get_known c.primary cpu))
            ∷ criterion "쓰기(문서 업로드)는 Primary 에서 처리됨" (s.uploaded.ok && eqb s.rows_on_primary 1)
                (upload_text s <> " 에 행 " <> str s.rows_on_primary <> "건")
            ∷ [];
        notes =
            "Replica 는 읽기 전용이라 쓰기를 받지 못한다. 업로드가 성공하고 그 행이 Primary 에 있으면 Primary 가 처리한 것이다."
            ∷ "시험용으로 올린 문서는 확인 뒤 지운다." ∷ [];
      }
