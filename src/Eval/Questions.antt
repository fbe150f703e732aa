-- ===== src/Eval/Questions.antt =====
-- The making of one question (`OpenAIClient.complete` and `build_one` in
-- scripts/eval/build_qa_set.py). The answers of the API and the capital letters of a text are
-- parameters. Delays are in seconds.
pub mod Accepted
pub mod Retries
use Prim.Native.Char.{code}
use spr1n6_osscontest_server.Common.{
  ℕ, zero, suc, ◌+◌, ◌*◌, String, Bool, true, false, ◌||◌, not, Option, none, some, List, [], ◌∷◌,
  leb, ltb, eqb, ◌==◌, ◌<>◌, if◌then◌else◌, first, splitlines, str, head,
}
use spr1n6_osscontest_server.Config.Load.{strip, rstrip_by}
use spr1n6_osscontest_server.Eval.Overlap.{max_shared_ngram}
use spr1n6_osscontest_server.Eval.Quota.{Chunk}

unfoldable pub summary_prompt : String → String
summary_prompt content =
    "다음 회의록·문서 발췌를 2~3문장으로 요약해라.\n" <> "사실만 남기고, 무엇에 대한 내용인지 분명히 드러나게 써라.\n" <> "\n" <> "발췌:\n"
    <> content

unfoldable pub question_prompt : String → String
question_prompt summary =
    "아래 요약을 읽고, 그 내용을 근거로 답할 수 있는 질문 하나만 만들어라.\n" <> "\n" <> "규칙:\n"
    <> "- 질문 하나만 출력한다. 번호·설명·따옴표 없이 질문 문장만 쓴다.\n"
    <> "- 요약에 나온 고유명사·숫자·날짜를 그대로 베끼지 마라. 일반적인 표현으로 바꿔 물어라.\n"
    <> "- 요약을 안 읽은 사람도 무엇을 묻는지 알 수 있게, 문맥이 담긴 완전한 문장으로 써라.\n" <> "- \"이 문서에 따르면\" 같은 표현은 쓰지 마라.\n"
    <> "\n" <> "요약:\n" <> summary

unfoldable pub verify_prompt : String → String → String
verify_prompt content question =
    "아래 원문만 근거로 질문에 답할 수 있는지 판정해라.\n" <> "\n" <> "원문에 답이 명확히 있으면 YES, 없거나 추측이 필요하면 NO 를 출력해라.\n"
    <> "YES 나 NO 한 단어만 출력한다.\n" <> "\n" <> "원문:\n" <> content <> "\n" <> "\n" <> "질문:\n" <> question

-- What the API answers to an attempt: a text, an HTTP error with its body, or no connection.
pub data ApiReply : Type 0 where
  content : String → ApiReply
  http_error : ℕ → String → ApiReply
  unreachable : String → ApiReply

-- A value, or a RuntimeError.
pub data Result (A : Type 0) : Type 0 where
  ok : A → Result A
  failed : String → Result A

infixl 5 ◌>>=◌
abbrev pub ◌>>=◌ : {A B : Type 0} → Result A → (A → Result B) → Result B
ok a >>= f = f a
failed e >>= f = failed e

pub record Completed : Type 0 where
  pub result : Result String
  pub slept : List ℕ

abbrev pub retriable : ℕ → Bool
retriable code = eqb code 429 || leb 500 code

-- Sleeps, and goes on with the rest.
abbrev pub slept_before : ℕ → Completed → Completed
slept_before delay rest = record rest { slept = delay ∷ rest.slept }

-- `left` attempts remain, of which the next one is number `attempt`.
unfoldable pub attempts : (ℕ → ApiReply) → ℕ → ℕ → ℕ → Completed
attempts reply zero attempt delay = record { result = failed "도달 불가"; slept = [] }
attempts reply (suc left) attempt delay =
    let rest = attempts reply left (attempt + 1) (delay * 2) in
    elim (reply attempt) [
      | content text ↦ record { result = ok (strip text); slept = [] }
      | http_error code detail ↦
          if retriable code
          then if eqb left 0
            then record {
              result = failed ("OpenAI " <> str code <> " 재시도 소진: " <> first 300 detail);
              slept = [];
            }
            else slept_before delay rest
          else record {
            result = failed ("OpenAI " <> str code <> ": " <> first 300 detail);
            slept = [];
          }
      | unreachable e ↦
          if eqb left 0
          then record { result = failed ("OpenAI 연결 실패: " <> e); slept = [] }
          else slept_before delay rest
    ]

unfoldable pub complete : (ℕ → ApiReply) → ℕ → Completed
unfolding attempts
complete reply max_retries = attempts reply max_retries 0 2

pub record Qa : Type 0 where
  pub chunk_id : ℕ
  pub document_id : ℕ
  pub question : String

-- What is kept of an attempt for the audit, where it came so far.
pub record Trace : Type 0 where
  pub chunk : Chunk
  pub summary : Option String
  pub question : Option String
  pub max_overlap : Option ℕ
  pub verdict : Option String
  pub reason : Option String

-- `text.rstrip(quote)`
abbrev rstrip_quote : String → String
rstrip_quote s = rstrip_by (λ c. eqb (code c) 34) s

-- `text.lstrip('"')`
abbrev lstrip_quote : String → String
lstrip_quote String.[] = String.[]
lstrip_quote (String.◌∷◌ c s) =
    let rest = lstrip_quote s in if eqb (code c) 34 then rest else String.◌∷◌ c s

abbrev first_line : List String → String
first_line [] = ""
first_line (line ∷ _) = strip line

-- The question in what the API answered: unquoted, and the first line of it.
unfoldable pub question_of : String → String
question_of answer =
    let text = strip (rstrip_quote (lstrip_quote (strip answer))) in
    if text == "" then "" else first_line (splitlines text)

-- `text.startswith("YES")`
abbrev pub starts_yes : String → Bool
starts_yes text = first 3 text == "YES"

abbrev untraced : Chunk → Trace
untraced chunk = record {
  chunk = chunk;
  summary = none;
  question = none;
  max_overlap = none;
  verdict = none;
  reason = none;
}

abbrev dropped : Trace → String → Option Qa × Trace
dropped trace reason = (none, record trace { reason = some reason })

-- `ask prompt max_tokens` is what `client.complete` returns or raises.
module _ (ask : String → ℕ → Result String) (upper : String → String) where
  -- The third stage: whether the source answers the question.
  unfoldable pub verified : Chunk → String → String → Trace → Option Qa × Trace
  unfolding verify_prompt
  verified chunk text question trace = elim (ask (verify_prompt text question) 10) [
    | failed e ↦ dropped trace ("API 오류: " <> e)
    | ok verdict ↦
        let traced = record trace { verdict = some verdict } in
        if starts_yes (upper verdict)
        then (
          some (record {
            chunk_id = chunk.chunk_id;
            document_id = chunk.document_id;
            question = question;
          }),
          traced,
        )
        else dropped traced ("답변 가능성 검증 실패(응답: " <> first 40 verdict <> ")")
  ]

  -- The second stage: the question, which must not be copied from the source.
  unfoldable pub checked : ℕ → Chunk → String → String → Trace → Option Qa × Trace
  unfolding verified
  checked max_overlap chunk text question trace =
      let overlap = max_shared_ngram question text in
      let traced = record trace { max_overlap = some overlap } in
      if question == ""
      then dropped trace "질문이 비어 있음"
      else if ltb max_overlap overlap
      then dropped traced
          ("원문과 " <> str overlap <> "자 연속 일치(한도 " <> str max_overlap <> ") — 키워드로 공짜 정답")
      else verified chunk text question traced

  unfoldable pub questioned : ℕ → Chunk → String → String → Trace → Option Qa × Trace
  unfolding checked question_prompt question_of
  questioned max_overlap chunk text summary trace = elim (ask (question_prompt summary) 200) [
    | failed e ↦ dropped trace ("API 오류: " <> e)
    | ok answer ↦
        checked max_overlap chunk text (question_of answer)
          (record trace { question = some (question_of answer) })
  ]

  unfoldable pub build_one : Chunk → ℕ → ℕ → Option Qa × Trace
  unfolding questioned summary_prompt
  build_one chunk max_overlap content_limit =
      let text = first content_limit chunk.content in
      elim (ask (summary_prompt text) 300) [
        | failed e ↦ dropped (untraced chunk) ("API 오류: " <> e)
        | ok summary ↦
            questioned max_overlap chunk text summary
              (record (untraced chunk) { summary = some summary })
      ]
