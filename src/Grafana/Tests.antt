-- ===== src/Grafana/Tests.antt =====
-- Marks of a test on the dashboard (ha-test/hatest/grafana.py).
use spr1n6_osscontest_server.Common.{
  ◌≡◌, refl, String, true, Option, none, some, List, [], ◌∷◌, ◌==◌, if◌then◌else◌,
}
use spr1n6_osscontest_server.Config.Load.{strip}
use spr1n6_osscontest_server.Config.Sample.{sample}
use spr1n6_osscontest_server.Model.{Time}
use spr1n6_osscontest_server.Grafana.{
  Post, made, left_out, new_marks, for_tc, mark, mark_all, post_of,
}
use spr1n6_osscontest_server.Grafana.Once.{marks-once}

-- The server refuses the second mark.
abbrev refusing : List Post → Post → Option String
refusing sent p = if p.label == "H-3 new Leader" then some "HTTP Error 401" else none

abbrev three_marks : List (Time × String)
three_marks = (1000, "failure") ∷ (9000, "new Leader") ∷ (12_000, "writes again") ∷ []

marks-once_example :
    ((mark_all refusing sample (new_marks sample "H-3") three_marks).posts
      ≡ post_of sample "H-3" 1000 "failure" ∷ post_of sample "H-3" 9000 "new Leader" ∷ [])
    × ((mark_all refusing sample (new_marks sample "H-3") three_marks).shown
        ≡ made "H-3 failure" ∷ left_out "http://localhost:3030 에 찍지 못했다(HTTP Error 401)" ∷ [])
unfolding strip
marks-once_example = marks-once refusing sample "H-3" three_marks refl

-- The marks that `for_tc` makes for the next test warn again, as the flags of the first marks stay.
two_tests :
    (mark_all refusing sample (for_tc sample (new_marks sample "") "H-3") three_marks).warned ≡ true
unfolding for_tc new_marks mark strip
two_tests = refl
