-- ===== src/AppClient/Protocol.antt =====
-- The order in which the client speaks the MCP protocol (ha-test/hatest/appclient.py): a session is
-- asked for, then announced, and only then used.
pub mod Follows
use spr1n6_osscontest_server.Json.{
  Json, null, bool, num, text, arr, obj, Items, nil, cons, Fields, end, field, get_field, fields_of,
  is_truthy, int_of,
}
use spr1n6_osscontest_server.Common.{
  ℕ, ◌+◌, ◌≤◌, ◌<◌, ◌≡◌, refl, sym, ap, ◌∙◌, subst, String, Bool, true, false, Option, none, some,
  List, [], ◌∷◌, arith, eqb, ◌==◌, ◌||◌, eq_iff, if◌then◌else◌, Bool-cases, Option-cases, inl, inr,
}
use spr1n6_osscontest_server.AppClient.{
  Message, initialize, initialized, call, Request, health, search, documents, delete_document, mcp,
  Response, Answer, answered, no_answer, Client, Fault, app_error, attribute_error, Result, ok,
  raised, Method, pure, ◌>>=◌, ◌>>◌, and_then, request, CallResult, new_client,
}
use spr1n6_osscontest_server.AppClient.Session.{
  session_headers, ensure, ensure_for, take_id, post, ask, notify, greet, open_session, mcp_call,
  mcp_search, searches, handled, after_search, response_in, hold_session, set_version, result_of,
  version_of, lift,
}

-- What the protocol has come to: no session, one that is not announced, or one to use.
pub data Phase : Type 0 where
  closed : Phase
  greeted : Phase
  usable : String → Phase

abbrev announce : Phase → Option (String × Json) → Option Phase
announce greeted (some (s, v)) = some (usable s)
announce greeted none = none
announce closed h = none
announce (usable s) h = none

abbrev use_session : Phase → Option (String × Json) → Option Phase
use_session (usable s) (some (t, v)) = if s == t then some (usable s) else none
use_session (usable s) none = none
use_session closed h = none
use_session greeted h = none

-- The protocol: a new session may be asked for at any time, with no session in the headers; it is
-- announced at once; and a call names the session that was announced last.
abbrev pub step : Phase → Request → Option Phase
step p (mcp (initialize n) none) = some greeted
step p (mcp (initialize n) (some h)) = none
step p (mcp initialized h) = announce p h
step p (mcp (call n query) h) = use_session p h
step p health = some p
step p (search query) = some p
step p (documents a b c) = some p
step p (delete_document n) = some p

abbrev step_from : Option Phase → Request → Option Phase
step_from none r = none
step_from (some p) r = step p r

-- The phase after some requests, the latest first.
abbrev pub phase_of : List Request → Option Phase
phase_of [] = some closed
phase_of (r ∷ requests) = step_from (phase_of requests) r

-- The ids of the requests are below `n`, and each is below that of the next one.
abbrev pub Numbered : ℕ → List Request → Type 0
Numbered n [] = Unit
Numbered n (mcp (initialize k) h ∷ requests) = (k < n) × Numbered k requests
Numbered n (mcp (call k query) h ∷ requests) = (k < n) × Numbered k requests
Numbered n (mcp initialized h ∷ requests) = Numbered n requests
Numbered n (health ∷ requests) = Numbered n requests
Numbered n (search query ∷ requests) = Numbered n requests
Numbered n (documents a b c ∷ requests) = Numbered n requests
Numbered n (delete_document k ∷ requests) = Numbered n requests

-- The requests follow the protocol, and no id is used twice.
pub record Spoken (c : Client) : Type 0 where
  pub phase : Phase
  pub traced : phase_of c.requests ≡ some phase
  pub numbered : Numbered (c.last_id + 1) c.requests

-- The client holds the session that was announced last.
pub record IsReady (c : Client) : Type 0 where
  pub name : String
  pub holds : c.session ≡ some name
  pub present : (name == "") ≡ false
  pub traced : phase_of c.requests ≡ some (usable name)
  pub numbered : Numbered (c.last_id + 1) c.requests

-- Between two searches a client that holds a session can use it.
pub record Speaks (c : Client) : Type 0 where
  spoken : Spoken c
  ready : (s : String) → c.session ≡ some s → IsReady c
