-- ===== src/AppClient/Tests.antt =====
-- Searches over a server that answers (ha-test/hatest/appclient.py).
use spr1n6_osscontest_server.Json.{Json, num, text, obj, end, field}
use spr1n6_osscontest_server.Common.{
  ℕ, ◌≡◌, refl, String, Option, none, some, List, [], ◌∷◌, ◌==◌, if◌then◌else◌, str,
}
use spr1n6_osscontest_server.AppClient.{
  initialize, initialized, call, Request, mcp, Answer, answered, no_answer, new_client,
}
use spr1n6_osscontest_server.AppClient.Session.{mcp_search, searches}
use spr1n6_osscontest_server.AppClient.Protocol.{Spoken}
use spr1n6_osscontest_server.AppClient.Protocol.Follows.{new_client-Spoken}

abbrev headers : String → Option String
headers name = if name == "Mcp-Session-Id" then some "s1" else none

abbrev reply : ℕ → String → Answer
reply status payload = answered (record { status = status; header = headers; payload = payload })

-- Its answer to a message with an id is the id.
abbrev server : List Request → Answer
server (mcp (initialize n) h ∷ rest) = reply 200 (str n)
server (mcp (call n query) h ∷ rest) = reply 200 (str n)
server (mcp initialized h ∷ rest) = reply 202 ""
server requests = no_answer "refused"

abbrev message : ℕ → Json
message n = obj (field "id" (num n) end)

abbrev loads : String → Option Json
loads payload =
    if payload == "2"
    then some (message 2)
    else if payload == "3"
    then some (message 3)
    else if payload == "4"
    then some (message 4)
    else none

abbrev shown : Option Json → String
shown value = "None"

searches_run :
    (searches server loads shown ("a" ∷ "b" ∷ []) new_client).requests
    ≡ mcp (call 4 "b") (some ("s1", text "2025-06-18"))
      ∷ mcp (call 3 "a") (some ("s1", text "2025-06-18"))
      ∷ mcp initialized (some ("s1", text "2025-06-18"))
      ∷ mcp (initialize 2) none
      ∷ []
unfolding searches mcp_search str
searches_run = refl

new_client-Spoken_example : Spoken (searches server loads shown ("a" ∷ "b" ∷ []) new_client)
new_client-Spoken_example = new_client-Spoken server loads shown ("a" ∷ "b" ∷ [])
