-- ===== src/Simulated/Timeline.antt =====
-- Bringing the simulated cluster to the time of its clock (`SimScript.apply` in
-- ha-test/hatest/simulated.py).
use spr1n6_osscontest_server.Common.{
  ◌≡◌, refl, ap, false, List, [], ◌∷◌, if◌then◌else◌, Dict, All, map,
}
use spr1n6_osscontest_server.Config.{Config}
use spr1n6_osscontest_server.Model.{Time}
use spr1n6_osscontest_server.Simulated.{
  NodeState, Event, Cluster, is_due, tick_off, apply_events, advance,
}

-- No event of the list is due.
abbrev pub IsSettled : Time → List Event → Type 0
IsSettled now events = All (λ e. is_due now e ≡ false) events

-- An event after: it is the same, and done if it was or if its time has come.
abbrev pub settled_event : Time → Event → Event
settled_event now e = if is_due now e then tick_off e else e

apply_events-events :
    (c : Config) (now : Time) (events : List Event) (nodes : Dict NodeState)
    → (apply_events c now events nodes).0 ≡ map (settled_event now) events
unfolding apply_events
apply_events-events c now [] nodes = refl
apply_events-events c now (e ∷ events) nodes =
    ap (λ rest. settled_event now e ∷ rest) (apply_events-events c now events _)

-- Bringing the cluster to a time keeps every scheduled event in its place, and marks it as done
-- exactly if it was done before or its time has come.
pub advance-events : (c : Cluster) → (advance c).events ≡ map (settled_event c.now) c.events
unfolding advance
advance-events c = apply_events-events c.config c.now c.events c.nodes
