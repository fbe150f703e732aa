-- ===== src/Grafana.antt =====
-- The marks of a test on the dashboard (`GrafanaMarks` in ha-test/hatest/grafana.py). The server is a
-- parameter: for each request, after those before it, it gives the text of an error that `mark` catches,
-- or none. A URL that `Request` refuses, and a reply that is no HTTP, are left out: both raise through
-- `mark`.
pub mod Once
mod Tests
use spr1n6_osscontest_server.Common.{
  ℕ, String, Bool, true, false, Option, none, some, List, [], ◌∷◌, ◌++◌, not, ◌==◌, ◌<>◌,
  if◌then◌else◌, first,
}
use spr1n6_osscontest_server.Config.{Config}
use spr1n6_osscontest_server.Config.Load.{strip}
use spr1n6_osscontest_server.Model.{Time}

-- The request for a mark.
pub record Post : Type 0 where
  pub url : String
  pub user : String
  pub password : String
  pub dashboard_uid : String
  pub time : Time
  pub tags : List String
  pub label : String

-- What the console shows: a mark that was made, or that marks are left out, with the reason.
pub data Notice : Type 0 where
  made : String → Notice
  left_out : String → Notice

-- The fields of GrafanaMarks, and what was sent and shown so far.
pub record Marks : Type 0 where
  pub tc : String
  pub disabled_reason : Option String
  pub warned : Bool
  pub posts : List Post
  pub shown : List Notice

unfoldable pub new_marks : Config → String → Marks
new_marks c tc = record {
  tc = tc;
  disabled_reason = if c.grafana_url == "" then some "GRAFANA_URL 이 비어 있다" else none;
  warned = false;
  posts = [];
  shown = [];
}

-- The marks of another test, which sends and shows nothing yet.
unfoldable pub for_tc : Config → Marks → String → Marks
unfolding new_marks
for_tc c m tc = record (new_marks c tc) { disabled_reason = m.disabled_reason; warned = m.warned }

abbrev pub is_disabled : Option String → Bool
is_disabled none = false
is_disabled (some reason) = not (reason == "")

abbrev pub reason_text : Option String → String
reason_text none = "None"
reason_text (some reason) = reason

abbrev pub warn_once : Marks → Marks
warn_once m = if m.warned then m else record m {
  warned = true;
  shown = m.shown ++ (left_out (reason_text m.disabled_reason) ∷ []);
}

abbrev pub post_of : Config → String → Time → String → Post
post_of c tc at text = record {
  url = c.grafana_url <> "/api/annotations";
  user = c.grafana_user;
  password = c.grafana_password;
  dashboard_uid = c.grafana_dashboard_uid;
  time = at;
  tags = if tc == "" then "ha-test" ∷ [] else "ha-test" ∷ tc ∷ [];
  label = strip (tc <> " " <> text);
}

abbrev pub unreached : Config → String → String
unreached c error = c.grafana_url <> " 에 찍지 못했다(" <> first 60 error <> ")"

abbrev pub after_post : Config → Post → Option String → Marks → Marks
after_post c p none m = record m {
  posts = m.posts ++ (p ∷ []);
  shown = m.shown ++ (made p.label ∷ []);
}
after_post c p (some error) m =
    warn_once (record m { posts = m.posts ++ (p ∷ []); disabled_reason = some (unreached c error) })

module _ (server : List Post → Post → Option String) (c : Config) where
  unfoldable pub mark : Marks → Time → String → Marks
  mark m at text =
      let p = post_of c m.tc at text in
      if is_disabled m.disabled_reason then warn_once m else after_post c p (server m.posts p) m

  -- Marks one after the other.
  abbrev pub mark_all : Marks → List (Time × String) → Marks
  mark_all m [] = m
  mark_all m ((at, text) ∷ rest) = mark_all (mark m at text) rest
