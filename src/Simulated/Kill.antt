-- ===== src/Simulated/Kill.antt =====
-- The failure of the primary in the simulated cluster (`SimScript.on_kill` in
-- ha-test/hatest/simulated.py): the killed node does not lead again by itself, and the candidate
-- leads from the time of the promotion on.
use spr1n6_osscontest_server.Common.{
  ℕ, ◌+◌, ◌/◌, ◌≡◌, refl, ap, ◌∙◌, String, Bool, true, false, some, List, [], ◌∷◌, ◌++◌, All, arith,
  ◌==◌, ◌<>◌, str, leb, if◌then◌else◌, Dict, lookup, modify, lookup-modify, eq_iff, eq_refl,
}
use mathlib.Core.List.{append_assoc}
use spr1n6_osscontest_server.Config.{Config}
use spr1n6_osscontest_server.Model.{Time, is_leader}
use spr1n6_osscontest_server.Simulated.{
  NodeState, Change, reboot_start, reboot_end, promote, Event, Cluster, kill, advance, apply_events,
  change, with_role,
}
use spr1n6_osscontest_server.Simulated.Script.{on_kill, candidate_of, killed}
use spr1n6_osscontest_server.Simulated.Operations.{member_from}

-- The cluster at a later time.
abbrev pub later : Time → Cluster → Cluster
later t c = advance (record c { now = t })

abbrev pending : Time → Change → Event
pending at ch = record { at = at; change = ch; done = false }

abbrev kill_events : Cluster → String → Time → NodeState → String → List Event
kill_events c node at n candidate =
    pending (at + c.settings.reboot_after) (reboot_start node)
    ∷ pending (at + c.settings.reboot_after + c.settings.reboot_duration) (reboot_end node at)
    ∷ pending (at + c.settings.promote_after) (promote candidate (n.timeline + 1))
    ∷ []

-- What a kill leaves behind.
abbrev after_kill : Cluster → String → Time → NodeState → String → Cluster
after_kill c node at n candidate = record c {
  injected = some (record { at = at; node = node; kind = kill });
  nodes = modify node killed c.nodes;
  events = c.events ++ kill_events c node at n candidate;
}

-- Events that were carried out are passed over.
apply_events-done :
    (cfg : Config) (now : Time) (events more : List Event) (nodes : Dict NodeState)
    → All (λ e. e.done ≡ true) events
    → (apply_events cfg now (events ++ more) nodes).1 ≡ (apply_events cfg now more nodes).1
unfolding apply_events
apply_events-done cfg now [] more nodes h = refl
apply_events-done cfg now (e ∷ events) more nodes h =
    rw h.0 (apply_events-done cfg now events more nodes h.1)

-- A change that is carried out where its time has come, at one node.
abbrev if_due : Bool → (NodeState → NodeState) → NodeState → NodeState
if_due due f n = if due then f n else n

abbrev reboots : Time → NodeState → NodeState
reboots at n = record n {
  reachable = true;
  boot_id = "boot-" <> str (at / 1000);
  patroni_service = "inactive";
  watchdog = "inactive";
}

abbrev vanishes : NodeState → NodeState
vanishes n = record n { reachable = false }

abbrev wins : ℕ → NodeState → NodeState
wins timeline n =
    let p = with_role "primary" "running" (some timeline) n in record p { wal = p.wal + 1000 }

lookup-hit :
    (k : String) (f : NodeState → NodeState) (n : NodeState) (nodes : Dict NodeState)
    → lookup k nodes ≡ some n
    → lookup k (modify k f nodes) ≡ some (f n)
lookup-hit k f n nodes h = ground (arith, lookup-modify k k f nodes, eq_refl k, h)

lookup-miss :
    (j k : String) (f : NodeState → NodeState) (nodes : Dict NodeState)
    → (j == k) ≡ false
    → lookup k (modify j f nodes) ≡ lookup k nodes
lookup-miss j k f nodes h = ground (arith, lookup-modify j k f nodes, h)

due-hit :
    (b : Bool) (k : String) (f : NodeState → NodeState) (n : NodeState) (nodes : Dict NodeState)
    → lookup k nodes ≡ some n
    → lookup k (if b then modify k f nodes else nodes) ≡ some (if_due b f n)
due-hit true k f n nodes h = lookup-hit k f n nodes h
due-hit false k f n nodes h = h

due-miss :
    (b : Bool) (j k : String) (f : NodeState → NodeState) (nodes : Dict NodeState)
    → (j == k) ≡ false
    → lookup k (if b then modify j f nodes else nodes) ≡ lookup k nodes
due-miss true j k f nodes h = lookup-miss j k f nodes h
due-miss false j k f nodes h = refl

-- The promotion, where its time has come.
abbrev promoted : Bool → String → ℕ → Dict NodeState → Dict NodeState
promoted b k timeline nodes =
    if b
    then modify k (λ n. record n { wal = n.wal + 1000 })
        (modify k (with_role "primary" "running" (some timeline)) nodes)
    else nodes

promoted-hit :
    (b : Bool) (k : String) (timeline : ℕ) (n : NodeState) (nodes : Dict NodeState)
    → lookup k nodes ≡ some n
    → lookup k (promoted b k timeline nodes) ≡ some (if_due b (wins timeline) n)
promoted-hit true k timeline n nodes h =
    lookup-hit k _ _ _ (lookup-hit k (with_role "primary" "running" (some timeline)) n nodes h)
promoted-hit false k timeline n nodes h = h

promoted-miss :
    (b : Bool) (j k : String) (timeline : ℕ) (nodes : Dict NodeState)
    → (j == k) ≡ false
    → lookup k (promoted b j timeline nodes) ≡ lookup k nodes
promoted-miss true j k timeline nodes h =
    lookup-miss j k _ _ h ∙ lookup-miss j k (with_role "primary" "running" (some timeline)) nodes h
promoted-miss false j k timeline nodes h = refl

on_kill-after :
    (c : Cluster) (node : String) (at : Time) (n : NodeState) (candidate : String)
    → candidate_of c node ≡ some candidate
    → lookup node c.nodes ≡ some n
    → (on_kill node at c).1 ≡ after_kill c node at n candidate
unfolding on_kill
on_kill-after c node at n candidate k l =
    let start = pending (at + c.settings.reboot_after) (reboot_start node) in
    let end =
      pending (at + c.settings.reboot_after + c.settings.reboot_duration) (reboot_end node at) in
    let win = pending (at + c.settings.promote_after) (promote candidate (n.timeline + 1)) in
    rw (k, l)
      (ap (λ events. record (after_kill c node at n candidate) { events = events })
        (append_assoc (c.events ++ (start ∷ [])) (end ∷ []) (win ∷ [])
          ∙ append_assoc c.events (start ∷ []) (end ∷ win ∷ [])))

-- The node that was killed, at the time `t`.
abbrev dead_at : Cluster → Time → Time → NodeState → NodeState
dead_at c at t n =
    if_due (leb (at + c.settings.reboot_after + c.settings.reboot_duration) t) (reboots at)
      (if_due (leb (at + c.settings.reboot_after) t) vanishes (killed n))

abbrev winner_at : Cluster → Time → Time → ℕ → NodeState → NodeState
winner_at c at t timeline m = if_due (leb (at + c.settings.promote_after) t) (wins timeline) m

module _ (c : Cluster) (node candidate : String) (at t : Time) (n m : NodeState)
    (fresh : All (λ e. e.done ≡ true) c.events) (chosen : candidate_of c node ≡ some candidate)
    (apart : (node == candidate) ≡ false) (killed_node : lookup node c.nodes ≡ some n)
    (next_node : lookup candidate c.nodes ≡ some m) where
  abbrev crashed : Dict NodeState
  crashed = modify node killed c.nodes

  abbrev vanished : Dict NodeState
  vanished = if leb (at + c.settings.reboot_after) t then modify node vanishes crashed else crashed

  abbrev back_up : Dict NodeState
  back_up =
      if leb (at + c.settings.reboot_after + c.settings.reboot_duration) t
      then modify node (reboots at) vanished
      else vanished

  -- Only the events of the kill count.
  later_nodes :
      (later t (after_kill c node at n candidate)).nodes
      ≡ (apply_events c.config t (kill_events c node at n candidate) crashed).1
  unfolding advance
  later_nodes =
      apply_events-done c.config t c.events (kill_events c node at n candidate) crashed fresh

  dead : lookup node (later t (after_kill c node at n candidate)).nodes ≡ some (dead_at c at t n)
  unfolding apply_events change
  dead =
      ap (lookup node) later_nodes
      ∙ promoted-miss (leb (at + c.settings.promote_after) t) candidate node (n.timeline + 1)
          back_up (ground (arith, apart, eq_iff node candidate, eq_iff candidate node))
      ∙ due-hit (leb (at + c.settings.reboot_after + c.settings.reboot_duration) t) node
          (reboots at) (if_due (leb (at + c.settings.reboot_after) t) vanishes (killed n)) vanished
          (due-hit (leb (at + c.settings.reboot_after) t) node vanishes (killed n) crashed
            (lookup-hit node killed n c.nodes killed_node))

  winner :
      lookup candidate (later t (after_kill c node at n candidate)).nodes
      ≡ some (winner_at c at t (n.timeline + 1) m)
  unfolding apply_events change
  winner =
      ap (lookup candidate) later_nodes
      ∙ promoted-hit (leb (at + c.settings.promote_after) t) candidate (n.timeline + 1) m back_up (
          due-miss (leb (at + c.settings.reboot_after + c.settings.reboot_duration) t) node
            candidate (reboots at) vanished apart
          ∙ due-miss (leb (at + c.settings.reboot_after) t) node candidate vanishes crashed apart
          ∙ lookup-miss node candidate killed c.nodes apart
          ∙ next_node)

dead-silent :
    (c : Cluster) (node : String) (at t : Time) (n : NodeState)
    → is_leader (member_from node t (dead_at c at t n)) ≡ false
unfolding is_leader
dead-silent c node at t n = ground arith

winner-leads :
    (b : Bool) (candidate : String) (t : Time) (timeline : ℕ) (m : NodeState)
    → m.reachable ≡ true
    → m.patroni_reachable ≡ true
    → m.role ≡ "replica"
    → is_leader (member_from candidate t (if_due b (wins timeline) m)) ≡ b
unfolding is_leader
winner-leads true candidate t timeline m p q r = rw (p, q) refl
winner-leads false candidate t timeline m p q r = rw (p, q, r) refl

-- What the members show at the time `t` after a kill at the time `at`.
pub record Taken (c : Cluster) (node candidate : String) (at t : Time) (d : Cluster) : Type 0 where
  pub old : NodeState
  pub new : NodeState
  pub old_is : lookup node d.nodes ≡ some old
  pub new_is : lookup candidate d.nodes ≡ some new
  pub silent : is_leader (member_from node t old) ≡ false
  pub leads : is_leader (member_from candidate t new) ≡ leb (at + c.settings.promote_after) t

-- Let every change that was scheduled be carried out when a node is killed, and let the candidate of
-- the script be another node, a replica that is reachable with its Patroni. Then, whatever time passes
-- after the kill without another call, up to the look at the cluster, the killed
-- node does not show as the Leader, before, during or after its reboot, and the candidate shows as
-- the Leader exactly from `promote_after` on.
pub on_kill-promotes :
    (c : Cluster) (node candidate : String) (at t : Time) (n m : NodeState)
    → All (λ e. e.done ≡ true) c.events
    → candidate_of c node ≡ some candidate
    → (node == candidate) ≡ false
    → lookup node c.nodes ≡ some n
    → lookup candidate c.nodes ≡ some m
    → m.reachable ≡ true
    → m.patroni_reachable ≡ true
    → m.role ≡ "replica"
    → Taken c node candidate at t (later t (on_kill node at c).1)
on_kill-promotes c node candidate at t n m e k a l h p q r =
    rw (on_kill-after c node at n candidate k l) (record {
      old = dead_at c at t n;
      new = winner_at c at t (n.timeline + 1) m;
      old_is = dead c node candidate at t n m e k a l h;
      new_is = winner c node candidate at t n m e k a l h;
      silent = dead-silent c node at t n;
      leads =
          winner-leads (leb (at + c.settings.promote_after) t) candidate t (n.timeline + 1) m p q r;
    })
