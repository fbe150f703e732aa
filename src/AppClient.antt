-- ===== src/AppClient.antt =====
-- The client of the server that H-2 searches and writes with (ha-test/hatest/appclient.py). The
-- server is a parameter: it answers each request from the requests before it. `json.loads` is a
-- parameter too; of the numbers of JSON only the natural ones stand in a value.
pub mod Session
pub mod Protocol
mod Tests
use spr1n6_osscontest_server.Json.{
  Json, null, bool, num, text, arr, obj, Items, nil, cons, Fields, end, field, get_field, fields_of,
  is_truthy, int_of,
}
use spr1n6_osscontest_server.Common.{
  ℕ, zero, suc, ◌+◌, String, Bool, true, false, Option, none, some, List, [], ◌∷◌, ◌&&◌, leb, ltb,
  eqb, ◌==◌, ◌<>◌, if◌then◌else◌, str,
}

-- A message of the MCP protocol, with its id where it has one.
pub data Message : Type 0 where
  initialize : ℕ → Message
  initialized : Message
  call : ℕ → String → Message

-- A request. A message carries the session and the version that the
-- client holds; a version that is no text is sent as it is.
pub data Request : Type 0 where
  health : Request
  search : String → Request
  documents : String → String → String → Request
  delete_document : ℕ → Request
  mcp : Message → Option (String × Json) → Request

pub record Response : Type 0 where
  pub status : ℕ
  pub header : String → Option String
  pub payload : String

-- An answer of any status, or no connection.
pub data Answer : Type 0 where
  answered : Response → Answer
  no_answer : String → Answer

pub record Client : Type 0 where
  pub session : Option String
  pub version : Json
  pub last_id : ℕ
  pub requests : List Request

pub data Fault : Type 0 where
  app_error : String → Fault
  attribute_error : Fault

pub data Result (A : Type 0) : Type 0 where
  ok : A → Result A
  raised : Fault → Result A

abbrev pub Method : Type 0 → Type 0
Method A = Client → Result A × Client

abbrev pub pure : {A : Type 0} → A → Method A
pure a c = (ok a, c)

abbrev pub raise : {A : Type 0} → Fault → Method A
raise e c = (raised e, c)

abbrev pub and_then : {A B : Type 0} → Result A × Client → (A → Method B) → Result B × Client
and_then (ok a, c) f = f a c
and_then (raised e, c) f = (raised e, c)

infixl 5 ◌>>=◌ ◌>>◌
abbrev pub ◌>>=◌ : {A B : Type 0} → Method A → (A → Method B) → Method B
(m >>= f) c = and_then (m c) f

abbrev pub ◌>>◌ : {A B : Type 0} → Method A → Method B → Method B
m >> k = m >>= λ _. k

abbrev pub protocol_version : String
protocol_version = "2025-06-18"

-- `AppClient(config)`
abbrev pub new_client : Client
new_client = record { session = none; version = text protocol_version; last_id = 1; requests = [] }

pub record CallResult : Type 0 where
  pub ok : Bool
  pub detail : String

pub record UploadResult : Type 0 where
  pub ok : Bool
  pub detail : String
  pub document_id : Option ℕ

-- The server answers a request, the latest of the list.
module _ (server : List Request → Answer) where
  abbrev pub answer_to : Answer → Method Response
  answer_to (answered r) = pure r
  answer_to (no_answer e) = raise (app_error e)

  unfoldable pub request : Request → Method Response
  request r c = answer_to (server (r ∷ c.requests)) (record c { requests = r ∷ c.requests })

  abbrev pub is_success : Result Response → Bool
  is_success (ok r) = eqb r.status 200
  is_success (raised e) = false

  unfoldable pub reachable : Client → Bool × Client
  unfolding request
  reachable c = let (r, c') = request health c in (is_success r, c')

  abbrev http_text : Response → String
  http_text r = "HTTP " <> str r.status

  abbrev fault_text : Fault → String
  fault_text (app_error e) = e
  fault_text attribute_error = ""

  -- `except AppError`; other faults do not come from `_request`.
  abbrev called : (Response → Bool) → Result Response → CallResult
  called good (ok r) = record { ok = good r; detail = http_text r }
  called good (raised e) = record { ok = false; detail = fault_text e }

  unfoldable pub web_search : String → Client → CallResult × Client
  unfolding request
  web_search query c =
      let (r, c') = request (search query) c in (called (λ a. eqb a.status 200) r, c')

  unfoldable pub delete : ℕ → Client → CallResult × Client
  unfolding request
  delete document_id c =
      let (r, c') = request (delete_document document_id) c in
      (called (λ a. leb 200 a.status && ltb a.status 300) r, c')

  module _ (loads : String → Option Json) (int_text : String → Option ℕ) where
    abbrev or_none : {A B : Type 0} → Option A → (A → Option B) → Option B
    or_none none f = none
    or_none (some a) f = f a

    -- `loads(text)["documentId"]`; a value that is no dict raises.
    abbrev document_field : Json → Option Json
    document_field value = or_none (fields_of value) (get_field "documentId")

    abbrev with_document : Response → Option ℕ → UploadResult
    with_document r none = record {
      ok = false;
      detail = http_text r <> ", documentId 없음";
      document_id = none;
    }
    with_document r (some n) = record { ok = true; detail = http_text r; document_id = some n }

    abbrev uploaded : Result Response → UploadResult
    uploaded (raised e) = record { ok = false; detail = fault_text e; document_id = none }
    uploaded (ok r) =
        if eqb r.status 202
        then with_document r (or_none (or_none (loads r.payload) document_field) (int_of int_text))
        else record { ok = false; detail = http_text r; document_id = none }

    unfoldable pub upload : String → String → String → Client → UploadResult × Client
    unfolding request
    upload filename content title c =
        let (r, c') = request (documents filename content title) c in (uploaded r, c')
