-- ===== src/Eval/Questions/Accepted.antt =====
-- What an accepted question has passed (scripts/eval/build_qa_set.py).
use spr1n6_osscontest_server.Common.{
  ℕ, ◌≤◌, ◌≡◌, refl, String, true, false, some, List, arith, ltb, ◌==◌, first, length, Bool-cases,
  ◌⊎◌, inl, inr,
}
use native.Mathlib.Nat.{le_trans}
use spr1n6_osscontest_server.Eval.Overlap.{normalize, max_shared_ngram}
use spr1n6_osscontest_server.Eval.Overlap.Longest.{Occurs, max_shared_ngram-IsLongest}
use spr1n6_osscontest_server.Eval.Quota.{Chunk}
use spr1n6_osscontest_server.Eval.Questions.{
  Result, ok, failed, Qa, Trace, build_one, questioned, checked, verified, question_of,
  summary_prompt, question_prompt, verify_prompt, starts_yes,
}

module _ (ask : String → ℕ → Result String) (upper : String → String) where
  Result-cases : (r : Result String) → ((e : String) × (r ≡ failed e)) ⊎ ((s : String) × (r ≡ ok s))
  Result-cases (ok s) = inr (s, refl)
  Result-cases (failed e) = inl (e, refl)

  -- The API said of the text that it answers the question.
  pub record IsVerified (chunk : Chunk) (text question : String) (qa : Qa) : Type 0 where
    pub verdict : String
    pub answered : ask (verify_prompt text question) 10 ≡ ok verdict
    pub yes : starts_yes (upper verdict) ≡ true
    pub same_chunk : qa.chunk_id ≡ chunk.chunk_id
    pub same_document : qa.document_id ≡ chunk.document_id
    pub same_question : qa.question ≡ question

  verified-IsVerified :
      (chunk : Chunk) (text question : String) (trace : Trace) {qa : Qa}
      → (verified ask upper chunk text question trace).0 ≡ some qa
      → IsVerified chunk text question qa
  unfolding verified
  verified-IsVerified chunk text question trace h =
      elim (Result-cases (ask (verify_prompt text question) 10)) [
        | inl (e, k) ↦ absurd (ground arith)
        | inr (verdict, k) ↦ elim (Bool-cases (starts_yes (upper verdict))) [
          | inl t ↦ record {
            verdict = verdict;
            answered = k;
            yes = t;
            same_chunk = ground arith;
            same_document = ground arith;
            same_question = ground arith;
          }
          | inr f ↦ absurd (ground arith)
        ]
      ]

  checked-parts :
      (max_overlap : ℕ) (chunk : Chunk) (text question : String) (trace : Trace) {qa : Qa}
      → (checked ask upper max_overlap chunk text question trace).0 ≡ some qa
      → ((question == "") ≡ false)
        × (max_shared_ngram question text ≤ max_overlap)
        × IsVerified chunk text question qa
  unfolding checked
  checked-parts max_overlap chunk text question trace h = elim (Bool-cases (question == "")) [
    | inl t ↦ absurd (ground arith)
    | inr f ↦ elim (Bool-cases (ltb max_overlap (max_shared_ngram question text))) [
      | inl t ↦ absurd (ground arith)
      | inr g ↦ (f, ground arith, verified-IsVerified chunk text question _ (rw (f, g) at h))
    ]
  ]

  -- The question is what the API made of its own summary of the text, it is not empty, nothing
  -- longer than the limit stands in both, and the API said that the text answers it.
  pub record IsAccepted (chunk : Chunk) (max_overlap : ℕ) (text : String) (qa : Qa) : Type 0 where
    pub summary : String
    pub answer : String
    pub summarised : ask (summary_prompt text) 300 ≡ ok summary
    pub asked_for : ask (question_prompt summary) 200 ≡ ok answer
    pub present : (question_of answer == "") ≡ false
    pub original :
        (w : List ℕ)
        → Occurs w (normalize (question_of answer))
        → Occurs w (normalize text)
        → length w ≤ max_overlap
    pub verdict : IsVerified chunk text (question_of answer) qa

  questioned-IsAccepted :
      (max_overlap : ℕ) (chunk : Chunk) (text summary : String) (trace : Trace) {qa : Qa}
      → ask (summary_prompt text) 300 ≡ ok summary
      → (questioned ask upper max_overlap chunk text summary trace).0 ≡ some qa
      → IsAccepted chunk max_overlap text qa
  unfolding questioned
  questioned-IsAccepted max_overlap chunk text summary trace s h =
      elim (Result-cases (ask (question_prompt summary) 200)) [
        | inl (e, k) ↦ absurd (ground arith)
        | inr (answer, k) ↦
            let (p, o, v) =
              checked-parts max_overlap chunk text (question_of answer) _
                (rw (k, questioned) at h) in
            let l = max_shared_ngram-IsLongest (question_of answer) text in
            record {
              summary = summary;
              answer = answer;
              summarised = s;
              asked_for = k;
              present = p;
              original = λ w a b. le_trans (l.bound w a b) o;
              verdict = v;
            }
      ]

  -- A question that `build_one` returns was made from the API's summary of the start of the chunk,
  -- is not empty, shares no text longer than the limit with it, and the API answered YES to
  -- whether that start answers the question; it carries the numbers of the chunk.
  pub build_one-IsAccepted :
      (chunk : Chunk) (max_overlap content_limit : ℕ) {qa : Qa}
      → (build_one ask upper chunk max_overlap content_limit).0 ≡ some qa
      → IsAccepted chunk max_overlap (first content_limit chunk.content) qa
  unfolding build_one
  build_one-IsAccepted chunk max_overlap content_limit h =
      elim (Result-cases (ask (summary_prompt (first content_limit chunk.content)) 300)) [
        | inl (e, k) ↦ absurd (ground arith)
        | inr (summary, k) ↦
            questioned-IsAccepted max_overlap chunk (first content_limit chunk.content) summary _ k
              (rw (k, build_one) at h)
      ]
