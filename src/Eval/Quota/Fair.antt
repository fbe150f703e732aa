-- ===== src/Eval/Quota/Fair.antt =====
-- How many chunks of a document are chosen (scripts/eval/build_qa_set.py).
use spr1n6_osscontest_server.Common.{
  ℕ, suc, ◌+◌, ◌-◌, ◌≡◌, refl, min, List, [], ◌∷◌, arith, eqb, if◌then◌else◌,
}
use spr1n6_osscontest_server.Eval.Quota.{Chunk, choose, count_of, set_count}

-- The number of the chunks of a document.
abbrev pub chunks_of : ℕ → List Chunk → ℕ
chunks_of doc [] = 0
chunks_of doc (c ∷ chunks) =
    let rest = chunks_of doc chunks in if eqb c.document_id doc then suc rest else rest

count_of-set_count :
    (doc other n : ℕ) (per_doc : List (ℕ × ℕ))
    → count_of (set_count doc n per_doc) other
      ≡ (if eqb doc other then n else count_of per_doc other)
count_of-set_count doc other n [] = refl
count_of-set_count doc other n ((d, m) ∷ per_doc) =
    ground (arith, count_of-set_count doc other n per_doc)

choose-chunks_of :
    (max_per_doc : ℕ) (per_doc : List (ℕ × ℕ)) (chunks : List Chunk) (doc : ℕ)
    → chunks_of doc (choose max_per_doc per_doc chunks)
      ≡ min (max_per_doc - count_of per_doc doc) (chunks_of doc chunks)
unfolding choose
choose-chunks_of m per_doc [] doc = ground arith
choose-chunks_of m per_doc (c ∷ chunks) doc = ground (
  arith,
  count_of-set_count c.document_id doc (count_of per_doc c.document_id + 1) per_doc,
  choose-chunks_of m per_doc chunks doc,
  choose-chunks_of m (set_count c.document_id (count_of per_doc c.document_id + 1) per_doc) chunks
      doc,
)

-- Of each document as many chunks are chosen as there are, up to the limit.
pub choose-count :
    (max_per_doc : ℕ) (chunks : List Chunk) (doc : ℕ)
    → chunks_of doc (choose max_per_doc [] chunks) ≡ min max_per_doc (chunks_of doc chunks)
choose-count m chunks doc = ground (arith, choose-chunks_of m [] chunks doc)
