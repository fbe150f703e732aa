-- ===== src/Eval/Quota.antt =====
-- The limit on the questions of one document (the loop over the chunks in `main` of
-- scripts/eval/build_qa_set.py). A document is its number; the counts are an association list.
pub mod Fair
use spr1n6_osscontest_server.Common.{
  ℕ, ◌+◌, ◌*◌, ◌/◌, min, String, Option, List, [], ◌∷◌, leb, eqb, if◌then◌else◌, length, take,
}

pub record Chunk : Type 0 where
  pub chunk_id : ℕ
  pub document_id : ℕ
  pub chunk_no : Option ℕ
  pub title : Option String
  pub content : String

-- `per_doc.get(doc, 0)`
abbrev pub count_of : List (ℕ × ℕ) → ℕ → ℕ
count_of [] doc = 0
count_of ((d, n) ∷ per_doc) doc = if eqb d doc then n else count_of per_doc doc

-- `per_doc[doc] = n`
abbrev pub set_count : ℕ → ℕ → List (ℕ × ℕ) → List (ℕ × ℕ)
set_count doc n [] = (doc, n) ∷ []
set_count doc n ((d, m) ∷ per_doc) =
    if eqb d doc then (d, n) ∷ per_doc else (d, m) ∷ set_count doc n per_doc

unfoldable pub choose : ℕ → List (ℕ × ℕ) → List Chunk → List Chunk
choose max_per_doc per_doc [] = []
choose max_per_doc per_doc (chunk ∷ chunks) =
    let doc = chunk.document_id in
    let n = count_of per_doc doc in
    let skipped = choose max_per_doc per_doc chunks in
    let chosen = chunk ∷ choose max_per_doc (set_count doc (n + 1) per_doc) chunks in
    if leb max_per_doc n then skipped else chosen

-- `pool[:min(len(pool), int(args.count * 1.8) + 5)]`, in tenths.
unfoldable pub attempts_of : ℕ → List Chunk → List Chunk
attempts_of count pool = take (min (length pool) (count * 18 / 10 + 5)) pool
