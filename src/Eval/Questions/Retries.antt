-- ===== src/Eval/Questions/Retries.antt =====
-- How often a request to the API is tried (scripts/eval/build_qa_set.py).
use spr1n6_osscontest_server.Common.{
  ℕ, zero, suc, ◌+◌, ◌*◌, ◌<◌, ◌≡◌, refl, subst, String, true, false, arith, eqb, ap, List, [], ◌∷◌,
}
use spr1n6_osscontest_server.Config.Load.{strip}
use spr1n6_osscontest_server.Eval.Questions.{
  ApiReply, content, http_error, unreachable, ok, retriable, slept_before, attempts, complete,
}

-- The request may be tried again: too many calls, an error of the server, or no connection.
abbrev pub IsRetriable : ApiReply → Type 0
IsRetriable (content text) = ⊥
IsRetriable (http_error code detail) = retriable code ≡ true
IsRetriable (unreachable e) = Unit

-- The delays of `n` retries, each twice the one before.
abbrev pub delays : ℕ → ℕ → List ℕ
delays zero delay = []
delays (suc n) delay = delay ∷ delays n (delay * 2)

eqb-suc : (n : ℕ) → eqb (suc n) 0 ≡ false
eqb-suc n = ground arith

module _ (reply : ℕ → ApiReply) where
  -- A retriable answer that is not the last allowed one costs a delay.
  attempts-retry :
      (left attempt delay : ℕ) (r : ApiReply)
      → reply attempt ≡ r
      → IsRetriable r
      → attempts reply (suc (suc left)) attempt delay
        ≡ slept_before delay (attempts reply (suc left) (attempt + 1) (delay * 2))
  unfolding attempts
  attempts-retry left attempt delay (content text) e h = absurd h
  attempts-retry left attempt delay (http_error code detail) e h =
      rw (e, attempts, h, eqb-suc left) refl
  attempts-retry left attempt delay (unreachable m) e h = rw (e, attempts, eqb-suc left) refl

  attempts-ok :
      (k left attempt delay : ℕ) (text : String)
      → k < left
      → ((i : ℕ) → i < k → IsRetriable (reply (attempt + i)))
      → reply (attempt + k) ≡ content text
      → attempts reply left attempt delay
        ≡ record { result = ok (strip text); slept = delays k delay }
  unfolding attempts
  attempts-ok k zero attempt delay text h r e = absurd (omega arith)
  attempts-ok zero (suc left) attempt delay text h r e =
      let now : reply attempt ≡ content text =
        subst (λ n. reply n ≡ content text) (omega arith) e in
      rw (now, attempts) refl
  attempts-ok (suc k) (suc zero) attempt delay text h r e = absurd (omega arith)
  attempts-ok (suc k) (suc (suc left)) attempt delay text h r e =
      rw
        (attempts-retry left attempt delay (reply attempt) refl
          (subst (λ n. IsRetriable (reply n)) (omega arith) (r 0 (omega arith))))
        (ap (slept_before delay) (
          attempts-ok k (suc left) (attempt + 1) (delay * 2) text (omega arith)
            (λ i m. subst (λ n. IsRetriable (reply n)) (omega arith) (r (i + 1) (omega arith)))
            (subst (λ n. reply n ≡ content text) (omega arith) e)))

  -- If an attempt within the limit is answered and those before it may be retried, then `complete`
  -- returns this answer, after a delay for each of them that doubles from two seconds on.
  pub complete-ok :
      (k max_retries : ℕ) (text : String)
      → k < max_retries
      → ((i : ℕ) → i < k → IsRetriable (reply i))
      → reply k ≡ content text
      → complete reply max_retries ≡ record { result = ok (strip text); slept = delays k 2 }
  unfolding complete
  complete-ok k max_retries text h r e =
      attempts-ok k max_retries 0 2 text h
        (λ i m. subst (λ n. IsRetriable (reply n)) (omega arith) (r i m))
        (subst (λ n. reply n ≡ content text) (omega arith) e)
