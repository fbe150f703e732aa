-- ===== src/Commands/Tests.antt =====
-- Runs of the scripts that run on the nodes (ha-test/hatest/commands.py).
use spr1n6_osscontest_server.Common.{◌≡◌, refl, some, none, List, [], ◌∷◌}
use spr1n6_osscontest_server.Common.Split.{replace}
use spr1n6_osscontest_server.Commands.{replace_all, fill, quote}
use spr1n6_osscontest_server.Commands.Actions.{stop_service_script}
use spr1n6_osscontest_server.Commands.Filled.{Piece, lit, slot, render}
use spr1n6_osscontest_server.Commands.Filled.Whole.{fill-render}

-- The script that stops a service, as its parts.
abbrev stop_service_pieces : List Piece
stop_service_pieces =
    lit "\nset -e\necho \"ts=$(date +%s.%N)\"\nsudo systemctl stop " ∷ slot "UNIT" ∷ lit "\n" ∷ []

fill-render_example :
    fill (render stop_service_pieces) (("UNIT", "openproxy") ∷ [])
    ≡ some "set -e\necho \"ts=$(date +%s.%N)\"\nsudo systemctl stop openproxy\n"
fill-render_example =
    fill-render stop_service_pieces (("UNIT", "openproxy") ∷ []) (refl, ((refl, refl), (refl, tt)))
      (((refl, refl), refl), tt) (tt, (refl, (tt, tt)))

stop_service_of_openproxy :
    stop_service_script "openproxy" ≡ fill (render stop_service_pieces) (("UNIT", "openproxy") ∷ [])
unfolding stop_service_script fill
stop_service_of_openproxy = refl

left_over : fill "a {{B}} {{C}}" (("B", "1") ∷ []) ≡ none
unfolding fill replace_all replace
left_over = refl

quoted_text : quote "it's" ≡ "'it'\"'\"'s'"
unfolding quote replace
quoted_text = refl

safe_text : quote "i-0abc:1" ≡ "i-0abc:1"
unfolding quote replace
safe_text = refl
