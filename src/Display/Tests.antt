-- ===== src/Display/Tests.antt =====
-- A table with wide characters (ha-test/hatest/console.py).
use Prim.Native.Char.{Char, code}
use spr1n6_osscontest_server.Common.{◌≡◌, refl, String, Bool, List, [], ◌∷◌, leb, join}
use spr1n6_osscontest_server.Display.{display_width, pad, table}
use spr1n6_osscontest_server.Display.Widths.{IsTable, table-aligned}

-- The Hangul syllables are wide.
abbrev wide : Char → Bool
wide c = leb 44032 (code c)

abbrev rows : List (List String)
rows = ("db-01" ∷ "Leader" ∷ []) ∷ ("db-02" ∷ "응답 없음" ∷ []) ∷ []

shown : table wide ("노드" ∷ "역할" ∷ []) rows ≡ "노드   역할\ndb-01  Leader\ndb-02  응답 없음"
unfolding table display_width pad join
shown = refl

table-aligned_example :
    IsTable wide (("노드" ∷ "역할" ∷ []) ∷ rows) (table wide ("노드" ∷ "역할" ∷ []) rows)
table-aligned_example = table-aligned wide refl ("노드" ∷ "역할" ∷ []) rows (refl, (refl, tt))
