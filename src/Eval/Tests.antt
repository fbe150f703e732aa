-- ===== src/Eval/Tests.antt =====
-- Runs of the evaluation scripts (scripts/eval).
use spr1n6_osscontest_server.Common.{
  ℕ, zero, suc, ◌+◌, ◌≤◌, ◌<◌, ◌≡◌, refl, String, none, some, List, [], ◌∷◌, eqb, if◌then◌else◌,
  arith, first,
}
use spr1n6_osscontest_server.Common.Int.{pos, negsuc}
use spr1n6_osscontest_server.Config.Load.{strip}
use spr1n6_osscontest_server.Eval.Limiter.{acquire}
use spr1n6_osscontest_server.Eval.Limiter.Spacing.{Used, unused, acquired, Used-IsSpaced}
use spr1n6_osscontest_server.Eval.Overlap.{normalize, max_shared_ngram}
use spr1n6_osscontest_server.Eval.Overlap.Longest.{IsLongest, max_shared_ngram-IsLongest}
use spr1n6_osscontest_server.Eval.Measures.{rank_of, sign_test}
use spr1n6_osscontest_server.Eval.Quota.{Chunk, choose}
use spr1n6_osscontest_server.Eval.Quota.Fair.{chunks_of}
use spr1n6_osscontest_server.Eval.Questions.{
  Result, ok, ApiReply, content, http_error, unreachable, complete, build_one,
}
use spr1n6_osscontest_server.Eval.Questions.Accepted.{IsAccepted, build_one-IsAccepted}
use spr1n6_osscontest_server.Eval.Questions.Retries.{IsRetriable, complete-ok, delays}

-- Two calls in ten ticks: the third call waits.
used : Used 2 10 (record { limit = 2; window = 10; calls = 3 ∷ 10 ∷ [] }) (0 ∷ 3 ∷ 10 ∷ [])
unfolding acquire
used =
    acquired (acquired (acquired unused 0 0 tt (omega arith)) 3 3 (omega arith) (omega arith)) 4 10
      (omega arith) (omega arith)

Used-IsSpaced_example : 0 + 10 ≤ 10
Used-IsSpaced_example = Used-IsSpaced {limit = 2} {window = 10} (omega arith) used 0 0 10 refl refl

shared_runs : max_shared_ngram "who leads db-02?" "node db-02 leads" ≡ 5
unfolding max_shared_ngram
shared_runs = refl

max_shared_ngram-IsLongest_example :
    IsLongest
      (normalize "who leads db-02?")
      (normalize "node db-02 leads")
      (max_shared_ngram "who leads db-02?" "node db-02 leads")
max_shared_ngram-IsLongest_example =
    max_shared_ngram-IsLongest "who leads db-02?" "node db-02 leads"

abbrev chunk : ℕ → ℕ → Chunk
chunk id doc = record {
  chunk_id = id;
  document_id = doc;
  chunk_no = none;
  title = none;
  content = "the leader of the cluster holds a key";
}

abbrev chunks : List Chunk
chunks = chunk 1 7 ∷ chunk 2 7 ∷ chunk 3 8 ∷ chunk 4 7 ∷ []

two_of_document : chunks_of 7 (choose 2 [] chunks) ≡ 2
unfolding choose
two_of_document = refl

-- An API that answers each of the three prompts by its limit.
abbrev api : String → ℕ → Result String
api prompt max_tokens =
    if eqb max_tokens 300
    then ok "a cluster has a leader"
    else if eqb max_tokens 200
    then ok " \"who rules?\" "
    else ok "YES"

build_one_runs :
    (build_one api (λ s. s) (chunk 1 7) 12 4000).0
    ≡ some (record { chunk_id = 1; document_id = 7; question = "who rules?" })
unfolding build_one max_shared_ngram strip
build_one_runs = refl

build_one-IsAccepted_example :
    IsAccepted api
      (λ s. s)
      (chunk 1 7)
      12
      (first 4000 (chunk 1 7).content)
      (record { chunk_id = 1; document_id = 7; question = "who rules?" })
build_one-IsAccepted_example = build_one-IsAccepted api (λ s. s) (chunk 1 7) 12 4000 build_one_runs

-- Two failures, then an answer.
abbrev reply : ℕ → ApiReply
reply zero = http_error 429 "slow down"
reply (suc zero) = unreachable "reset"
reply (suc (suc n)) = content " hello "

reply-IsRetriable : (i : ℕ) → i < 2 → IsRetriable (reply i)
reply-IsRetriable zero h = refl
reply-IsRetriable (suc zero) h = tt
reply-IsRetriable (suc (suc i)) h = absurd (omega arith)

complete-ok_example :
    complete reply 4 ≡ record { result = ok (strip " hello "); slept = delays 2 2 }
complete-ok_example = complete-ok reply 2 4 " hello " (omega arith) reply-IsRetriable refl

rank_runs : rank_of 5 (9 ∷ 5 ∷ 5 ∷ []) ≡ some 2
unfolding rank_of
rank_runs = refl

sign_runs :
    sign_test (pos 2 ∷ pos 0 ∷ negsuc 0 ∷ pos 1 ∷ [])
    ≡ record { wins = 2; losses = 1; ties = 1; p_value = (8, 8) }
unfolding sign_test
sign_runs = refl
