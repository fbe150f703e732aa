-- ===== src/AppClient/Session.antt =====
-- The MCP session of the client (`mcp_search` and what it calls in ha-test/hatest/appclient.py).
use spr1n6_osscontest_server.Json.{
  Json, null, bool, num, text, arr, obj, Fields, end, get_field, fields_of, is_truthy,
}
use spr1n6_osscontest_server.Common.{
  ℕ, ◌+◌, String, Bool, true, false, Option, none, some, List, [], ◌∷◌, ◌||◌, eqb, ◌==◌, ◌<>◌,
  if◌then◌else◌, str, map, filter, splitlines, skip, startswith, has_part,
}
use spr1n6_osscontest_server.Config.Load.{strip}
use spr1n6_osscontest_server.AppClient.{
  Message, initialize, initialized, call, Request, mcp, Response, Answer, Client, app_error,
  attribute_error, Result, ok, raised, Method, pure, raise, ◌>>=◌, ◌>>◌, protocol_version, request,
  CallResult,
}

-- `value.get`, which only a dict has.
abbrev dict : Json → Result Fields
dict (obj fields) = ok fields
dict null = raised attribute_error
dict (bool b) = raised attribute_error
dict (num n) = raised attribute_error
dict (text s) = raised attribute_error
dict (arr items) = raised attribute_error

-- `response.get("result") or {}`, as a dict
abbrev pub result_of : Option Json → Result Fields
result_of none = ok end
result_of (some v) = if is_truthy v then dict v else ok end

abbrev pub is_true : Option Json → Bool
is_true none = false
is_true (some v) = is_truthy v

-- `value or MCP_PROTOCOL_VERSION`
abbrev pub version_of : Option Json → Json
version_of none = text protocol_version
version_of (some v) = if is_truthy v then v else text protocol_version

-- The headers of a session, where there is one.
abbrev pub session_headers : Client → Option (String × Json)
session_headers c = elim c.session [
  | none ↦ none
  | some s ↦ if s == "" then none else some (s, c.version)
]

abbrev pub lift : {A : Type 0} → Result A → Method A
lift r c = (r, c)

abbrev pub take_id : Method ℕ
take_id c = (ok (c.last_id + 1), record c { last_id = c.last_id + 1 })

abbrev pub hold_session : Option String → Method (Unit {0})
hold_session s c = (ok tt, record c { session = s })

abbrev pub set_version : Json → Method (Unit {0})
set_version v c = (ok tt, record c { version = v })

module _ (loads : String → Option Json) where
  abbrev has_id : ℕ → Option Json → Bool
  has_id n none = false
  has_id n (some null) = false
  has_id n (some (bool b)) = eqb (if b then 1 else 0) n
  has_id n (some (num m)) = eqb m n
  has_id n (some (text s)) = false
  has_id n (some (arr items)) = false
  has_id n (some (obj fields)) = false

  abbrev or_else_find : ℕ → Option Fields → Result Fields → Result Fields
  or_else_find n none rest = rest
  or_else_find n (some fields) rest = if has_id n (get_field "id" fields) then ok fields else rest

  abbrev parsed : Option Json → Option Fields
  parsed none = none
  parsed (some v) = fields_of v

  unfoldable pub find_in : ℕ → List String → Result Fields
  find_in n [] = raised (app_error "MCP 응답에서 요청 id 에 맞는 결과를 찾지 못했다")
  find_in n (candidate ∷ candidates) =
      or_else_find n (parsed (loads candidate)) (find_in n candidates)

  abbrev candidates : String → Bool → List String
  candidates payload true =
      map (λ line. strip (skip 5 line)) (filter (startswith "data:") (splitlines payload))
  candidates payload false = payload ∷ []

  unfoldable pub find_response : String → ℕ → Bool → Result Fields
  unfolding find_in
  find_response payload n event_stream = find_in n (candidates payload event_stream)

  abbrev header_or : Option String → String
  header_or none = ""
  header_or (some s) = s

  abbrev pub response_in : Response → ℕ → Result Fields
  unfolding find_response
  response_in r n =
      find_response r.payload n (has_part "text/event-stream" (header_or (r.header "Content-Type")))

module _ (server : List Request → Answer) (loads : String → Option Json) where
  -- `_mcp_post` up to the answer
  unfoldable pub post : Message → Method Response
  unfolding request
  post m c = request server (mcp m (session_headers c)) c

  -- `_mcp_post` of a message with the id `n`, and the session of the answer.
  unfoldable pub ask : Message → ℕ → Method (Fields × Option String)
  unfolding post response_in
  ask m n = post m >>= (λ r.
      if eqb r.status 200
      then lift (response_in loads r n) >>= (λ fields. pure (fields, r.header "Mcp-Session-Id"))
      else raise (app_error ("MCP HTTP " <> str r.status)))

  -- `_mcp_post` of a notification
  unfoldable pub notify : Message → Method (Unit {0})
  unfolding post
  notify m = post m >>= (λ r.
      if eqb r.status 200 || eqb r.status 202
      then pure tt
      else raise (app_error ("MCP 알림 HTTP " <> str r.status)))

  abbrev no_session : Method (Unit {0})
  no_session = raise (app_error "MCP initialize 응답에 Mcp-Session-Id 가 없다")

  -- What follows the answer to initialize.
  unfoldable pub greet : Fields → Option String → Method (Unit {0})
  unfolding notify
  greet fields none = no_session
  greet fields (some s) =
      if s == ""
      then no_session
      else hold_session (some s)
        >> lift (result_of (get_field "result" fields))
        >>= (λ result. set_version (version_of (get_field "protocolVersion" result)))
        >> notify initialized

  unfoldable pub open_session : Method (Unit {0})
  unfolding ask greet
  open_session = take_id >>= (λ n. ask (initialize n) n) >>= (λ answer. greet answer.0 answer.1)

  -- `if self._mcp_session is None: self._open_mcp_session()`
  unfoldable pub ensure_for : Option String → Method (Unit {0})
  unfolding open_session
  ensure_for none = open_session
  ensure_for (some s) = pure tt

  unfoldable pub ensure : Method (Unit {0})
  unfolding ensure_for
  ensure c = ensure_for c.session c

  unfoldable pub mcp_call : String → Method (Fields × Option String)
  unfolding ask ensure
  mcp_call query = ensure >> take_id >>= (λ n. ask (call n query) n)

  module _ (shown : Option Json → String) where
    -- `f"JSON-RPC 오류 {response['error'].get('code')}"`
    abbrev error_detail : Fields → CallResult
    error_detail e = record { ok = false; detail = "JSON-RPC 오류 " <> shown (get_field "code" e) }

    abbrev tool_detail : Fields → CallResult
    tool_detail result =
        if is_true (get_field "isError" result)
        then record { ok = false; detail = "도구가 오류로 응답" }
        else record { ok = true; detail = "ok" }

    abbrev map_result : {A B : Type 0} → (A → B) → Result A → Result B
    map_result f (ok a) = ok (f a)
    map_result f (raised e) = raised e

    abbrev judged_search : Option Json → Fields → Result CallResult
    judged_search (some e) response = map_result error_detail (dict e)
    judged_search none response = map_result tool_detail (result_of (get_field "result" response))

    -- `except AppError`: the session may have run out, and the next call opens a new one.
    abbrev pub handled : Result (Fields × Option String) × Client → Result CallResult × Client
    handled (ok answer, c) = (judged_search (get_field "error" answer.0) answer.0, c)
    handled (raised (app_error e), c) =
        (ok (record { ok = false; detail = e }), record c { session = none })
    handled (raised attribute_error, c) = (raised attribute_error, c)

    unfoldable pub mcp_search : String → Method CallResult
    unfolding mcp_call
    mcp_search query c = handled (mcp_call query c)

    -- The calls of a load, which ends where one raises.
    abbrev pub after_search : Result CallResult × Client → (Client → Client) → Client
    after_search (ok r, c) next = next c
    after_search (raised e, c) next = c

    unfoldable pub searches : List String → Client → Client
    searches [] c = c
    searches (query ∷ queries) c = after_search (mcp_search query c) (searches queries)
