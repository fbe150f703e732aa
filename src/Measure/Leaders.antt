-- ===== src/Measure/Leaders.antt =====
-- At most one Leader at a time: `max_simultaneous_leaders` (ha-test/hatest/measure.py).
use native.Mathlib.Nat.{le_trans}
use spr1n6_osscontest_server.Common.{
  ℕ, ◌≤◌, ◌≡◌, refl, sym, ◌∙◌, inl, inr, String, true, List, [], ◌∷◌, arith, ◌==◌, eqb, All, In,
  Bool-cases, if◌then◌else◌, ◌↔◌, ◌||◌, contains, length, eq_iff, subst, All-mono, All-self,
  IsDistinct,
}
use spr1n6_osscontest_server.Common.Sets.{add_to_set, contains-add_to_set}
use spr1n6_osscontest_server.Model.{RoleSample, is_leader}
use spr1n6_osscontest_server.Measure.{max_simultaneous_leaders, add_leader, collect, largest}

abbrev Table : Type 0
Table = List (ℕ × List String)

-- The nodes that are collected for a tick.
abbrev nodes_at : ℕ → Table → List String
nodes_at t [] = []
nodes_at t ((u, nodes) ∷ table) = if eqb u t then nodes else nodes_at t table

contains_two :
    (a b : String) (xs : List String)
    → length xs ≤ 1
    → contains a xs ≡ true
    → contains b xs ≡ true
    → a ≡ b
contains_two a b [] h p q = cc
contains_two a b (x ∷ []) h p q = ground (arith, eq_iff x a, eq_iff x b)
contains_two a b (x ∷ y ∷ r) h p q = absurd (omega arith)

contains-add_leader :
    (n : String) (t tick : ℕ) (node : String) (table : Table)
    → contains n (nodes_at t (add_leader tick node table)) ≡ (
        if eqb tick t
        then (node == n || contains n (nodes_at t table))
        else contains n (nodes_at t table))
unfolding add_leader
contains-add_leader n t tick node [] = ground arith
contains-add_leader n t tick node ((u, nodes) ∷ table) =
    ground (arith, contains-add_leader n t tick node table, contains-add_to_set n node nodes)

collect-keeps :
    (n : String) (t : ℕ) (samples : List RoleSample) (table : Table)
    → contains n (nodes_at t table) ≡ true
    → contains n (nodes_at t (collect samples table)) ≡ true
unfolding collect
collect-keeps n t [] table h = h
collect-keeps n t (s ∷ samples) table h =
    collect-keeps n t samples
      (if is_leader s.member then add_leader s.tick s.member.node table else table)
      (ground (arith, contains-add_leader n t s.tick s.member.node table))

add_leader-finds :
    (s : RoleSample) (table : Table)
    → is_leader s.member ≡ true
    → contains s.member.node (
        nodes_at s.tick
          (if is_leader s.member then add_leader s.tick s.member.node table else table))
      ≡ true
add_leader-finds s table l = rw l (
    ground (
      arith,
      contains-add_leader s.member.node s.tick s.tick s.member.node table,
      eq_iff s.member.node s.member.node,
    ))

collect-finds :
    (a : RoleSample) (samples : List RoleSample) (table : Table)
    → In a samples
    → is_leader a.member ≡ true
    → contains a.member.node (nodes_at a.tick (collect samples table)) ≡ true
unfolding collect
collect-finds a [] table m l = absurd m
collect-finds a (s ∷ samples) table (inl e) l =
    subst
      (λ (b : RoleSample).
        contains b.member.node (nodes_at b.tick (collect (s ∷ samples) table)) ≡ true)
      (sym e)
      (collect-keeps s.member.node s.tick samples _
        (add_leader-finds s table (subst (λ (b : RoleSample). is_leader b.member ≡ true) e l)))
collect-finds a (s ∷ samples) table (inr m) l = collect-finds a samples _ m l

nodes_at-le_largest : (t : ℕ) (table : Table) → length (nodes_at t table) ≤ largest table
unfolding largest
nodes_at-le_largest t [] = omega arith
nodes_at-le_largest t ((u, nodes) ∷ table) = ground (arith, nodes_at-le_largest t table)

-- The other way: what is collected comes from samples, without repetition.
module _ (P : ℕ → String → Type 0) where
  abbrev Entry : ℕ × List String → Type 0
  Entry (t, nodes) = All (P t) nodes × IsDistinct nodes

  add_to_set-Entry :
      (t : ℕ) (node : String) (nodes : List String)
      → P t node
      → Entry (t, nodes)
      → Entry (t, add_to_set node nodes)
  add_to_set-Entry t node nodes p h = elim (Bool-cases (contains node nodes)) [
    | inl old ↦ rw old h
    | inr new ↦ rw new ((p, h.0), (new, h.1))
  ]

  add_leader-Entry :
      (tick : ℕ) (node : String) (table : Table)
      → P tick node
      → All Entry table
      → All Entry (add_leader tick node table)
  unfolding add_leader
  add_leader-Entry tick node [] p h = (((p, tt), (refl, tt)), tt)
  add_leader-Entry tick node ((t, nodes) ∷ table) p h = elim (Bool-cases (eqb t tick)) [
    | inl e ↦
        let same : tick ≡ t = ground arith in
        rw e (add_to_set-Entry t node nodes (subst (λ u. P u node) same p) h.0, h.1)
    | inr e ↦ rw e (h.0, add_leader-Entry tick node table p h.1)
  ]

  collect-Entry :
      (samples : List RoleSample) (table : Table)
      → All (λ s. is_leader s.member ≡ true → P s.tick s.member.node) samples
      → All Entry table
      → All Entry (collect samples table)
  unfolding collect
  collect-Entry [] table h k = k
  collect-Entry (s ∷ samples) table h k = elim (Bool-cases (is_leader s.member)) [
    | inl l ↦ rw l (
        collect-Entry samples (add_leader s.tick s.member.node table) h.1
          (add_leader-Entry s.tick s.member.node table (h.0 l) k))
    | inr l ↦ rw l (collect-Entry samples table h.1 k)
  ]

  largest-le_one :
      ((t : ℕ) (a b : String) → P t a → P t b → a ≡ b)
      → (table : Table) → All Entry table
      → largest table ≤ 1
  unfolding largest
  largest-le_one one [] h = omega arith
  largest-le_one one ((t, []) ∷ table) h = ground (arith, largest-le_one one table h.1)
  largest-le_one one ((t, a ∷ []) ∷ table) h = ground (arith, largest-le_one one table h.1)
  largest-le_one one ((t, a ∷ b ∷ rest) ∷ table) h =
      absurd (ground (arith, one t a b h.0.0.0 h.0.0.1.0, eq_iff b a, h.0.1.0))

-- Samples of the same tick that show a Leader name the same node.
abbrev pub OneLeader : List RoleSample → Type 0
OneLeader samples =
    (a b : RoleSample)
    → In a samples
    → In b samples
    → is_leader a.member ≡ true
    → is_leader b.member ≡ true
    → a.tick ≡ b.tick
    → a.member.node ≡ b.member.node

-- Some sample of the tick `t` shows `node` as a Leader.
abbrev Shown : List RoleSample → ℕ → String → Type 0
Shown samples t node =
    (s : RoleSample) × In s samples
    × (is_leader s.member ≡ true)
    × (s.tick ≡ t)
    × (s.member.node ≡ node)

-- The number of simultaneous Leaders is at most one exactly when any two samples of the same tick
-- that both show a Leader name the same node.
pub max_simultaneous_leaders_one :
    (samples : List RoleSample) → (max_simultaneous_leaders samples ≤ 1) ↔ OneLeader samples
unfolding max_simultaneous_leaders
max_simultaneous_leaders_one samples = (forward, backward)
  where
    forward : largest (collect samples []) ≤ 1 → OneLeader samples
    forward h a b ma mb la lb e =
        contains_two a.member.node b.member.node (nodes_at b.tick (collect samples []))
          (le_trans (nodes_at-le_largest b.tick (collect samples [])) h)
          (rw (← e) (collect-finds a samples [] ma la)) (collect-finds b samples [] mb lb)

    backward : OneLeader samples → largest (collect samples []) ≤ 1
    backward one =
        largest-le_one (Shown samples)
          (λ t x y (a, ma, la, ta, na) (b, mb, lb, tb, nb).
            sym na ∙ one a b ma mb la lb (ta ∙ sym tb) ∙ nb)
          (collect samples [])
          (collect-Entry (Shown samples) samples []
            (All-mono samples (λ s m l. (s, m, l, refl, refl)) (All-self samples)) tt)
