-- ===== src/Display.antt =====
-- Tables on the terminal (`display_width`, `pad` and `table` in ha-test/hatest/console.py, and
-- `render` in ha-test/hatest/status.py). `wide` says whether Unicode counts a character as wide, and
-- `fmt_time` displays a time; both stand for Python's library.
pub mod Widths
mod Tests
use Prim.Native.Char.{Char, code}
use spr1n6_osscontest_server.Common.{
  ℕ, zero, suc, ◌+◌, ◌-◌, max, String, Bool, true, false, Option, none, some, List, [], ◌∷◌, ◌++◌,
  ◌||◌, ◌&&◌, not, ◌==◌, eqb, leb, ◌<>◌, if◌then◌else◌, join, map, str, lookup, or_else, contains,
  ◌>>=◌,
}
use spr1n6_osscontest_server.Clock.{fmt_bytes}
use spr1n6_osscontest_server.Config.{Config, Node, proxy_nodes}
use spr1n6_osscontest_server.Config.Load.{is_blank, rstrip_by}
use spr1n6_osscontest_server.Model.{
  Time, Member, NodeFacts, Snapshot, is_leader, display_role, display_state, lag_bytes,
  os_vip_holders, truthy,
}

-- `" " * n`
abbrev pub spaces : ℕ → String
spaces zero = ""
spaces (suc n) = " " <> spaces n

module _ (wide : Char → Bool) where
  unfoldable pub display_width : String → ℕ
  display_width String.[] = 0
  display_width (String.◌∷◌ c s) = (if wide c then 2 else 1) + display_width s

  unfoldable pub pad : String → ℕ → String
  pad text width = text <> spaces (width - display_width text)

  -- `zip` stops at the shorter list.
  abbrev pub widen : List ℕ → List String → List ℕ
  widen [] cells = []
  widen (w ∷ widths) [] = []
  widen (w ∷ widths) (cell ∷ cells) = max w (display_width cell) ∷ widen widths cells

  abbrev pub widths_of : List ℕ → List (List String) → List ℕ
  widths_of widths [] = widths
  widths_of widths (row ∷ rows) = widths_of (widen widths row) rows

  abbrev pub pad_cells : List String → List ℕ → List String
  pad_cells [] widths = []
  pad_cells (cell ∷ cells) [] = []
  pad_cells (cell ∷ cells) (w ∷ widths) = pad cell w ∷ pad_cells cells widths

  abbrev pub line_of : List ℕ → List String → String
  line_of widths cells = rstrip_by is_blank (join "  " (pad_cells cells widths))

  unfoldable pub table : List String → List (List String) → String
  unfolding join
  table headers rows =
      let widths = widths_of (map display_width headers) rows in
      join "\n" (map (line_of widths) (headers ∷ rows))

  module _ (fmt_time : Time → String) where
    abbrev vip_mark : NodeFacts → String
    vip_mark f = if truthy f.holds_vip then "보유" else if f.reachable then "-" else "?"

    abbrev timeline_text : Option ℕ → String
    timeline_text none = "-"
    timeline_text (some n) = str n

    abbrev row_of : Snapshot → Config → Node → Member → NodeFacts → List String
    row_of s c n m f =
        n.name
        ∷ n.member
        ∷ display_role m
        ∷ display_state m
        ∷ timeline_text m.timeline
        ∷ (if is_leader m || not m.reachable then "-" else fmt_bytes (lag_bytes s.members n.name))
        ∷ vip_mark f
        ∷ (if contains n.name (proxy_nodes c) then or_else f.openproxy_service "-" else "-")
        ∷ or_else f.watchdog "-"
        ∷ []

    -- The rows of the nodes; none is the KeyError of a node that the snapshot lacks.
    abbrev rows_of : Snapshot → Config → List Node → Option (List (List String))
    rows_of s c [] = some []
    rows_of s c (n ∷ nodes) = do
      m ← lookup n.name s.members
      f ← lookup n.name s.facts
      rest ← rows_of s c nodes
      some (row_of s c n m f ∷ rest)

    abbrev columns : List String
    columns = "노드" ∷ "Patroni" ∷ "역할" ∷ "상태" ∷ "TL" ∷ "Lag" ∷ "VIP" ∷ "OpenProxy" ∷ "watchdog" ∷ []

    abbrev vip_line : Snapshot → Config → String
    vip_line s c =
        let held = join "," (os_vip_holders s) in
        "VIP "
        <> c.vip
        <> ":"
        <> str c.vip_port
        <> " → 서버 기준 "
        <> (if held == "" then "없음" else held)
        <> (if s.aws_vip_checked
            then " · AWS 기준 " <> or_else s.aws_vip_owner (or_else s.aws_vip_error "없음")
            else "")

    -- `status.render`
    unfoldable pub render : Snapshot → Config → Option String
    render s c = do
      rows ← rows_of s c c.nodes
      some (table columns rows <> "\n" <> vip_line s c <> "\n조회 시각 " <> fmt_time s.taken_at)
