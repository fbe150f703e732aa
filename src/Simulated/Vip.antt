-- ===== src/Simulated/Vip.antt =====
-- The VIP of the simulated cluster is on exactly one node (ha-test/hatest/simulated.py).
pub mod Keeps
pub mod Logged
pub mod Reachable
use spr1n6_osscontest_server.Common.{
  ℕ, ◌≡◌, ◌≢◌, refl, ap, sym, ◌∙◌, ◌⊎◌, inl, inr, String, Bool, true, false, Option, none, some,
  List, [], ◌∷◌, arith, ◌==◌, not, if◌then◌else◌, Dict, lookup, modify, map_some, lookup-modify,
  All, eq_iff, eq_refl,
}
use spr1n6_osscontest_server.Config.{Config, proxy_nodes}
use spr1n6_osscontest_server.Model.{Time}
use spr1n6_osscontest_server.Simulated.{
  NodeState, Change, reboot_start, reboot_end, promote, rejoin, move_vip, stopped, restore_vip,
  streaming, Event, change, hold_vip, with_role, return_vip, apply_events, is_due, tick_off,
}

-- Whether a node holds the VIP, where the node is known.
abbrev pub vip_of : Option NodeState → Option Bool
vip_of none = none
vip_of (some n) = some n.holds_vip

abbrev pub vip_at : String → Dict NodeState → Option Bool
vip_at name nodes = vip_of (lookup name nodes)

-- One of the two proxies holds the VIP, the other one does not, and no other node does.
pub record OneHolder (c : Config) (nodes : Dict NodeState) : Type 0 where
  pub held :
      ((vip_at c.vip_owner nodes ≡ some true) × (vip_at c.standby_proxy nodes ≡ some false))
      ⊎ ((vip_at c.vip_owner nodes ≡ some false) × (vip_at c.standby_proxy nodes ≡ some true))
  pub others :
      (name : String)
      → (c.vip_owner == name) ≡ false
      → (c.standby_proxy == name) ≡ false
      → vip_at name nodes ≢ some true

-- A move of the VIP is between the two proxies.
abbrev pub IsFair : Config → Change → Type 0
IsFair c (move_vip node other) =
    ((node ≡ c.vip_owner) × (other ≡ c.standby_proxy))
    ⊎ ((node ≡ c.standby_proxy) × (other ≡ c.vip_owner))
IsFair c _ = Unit

-- An assignment that leaves `holds_vip` alone.
vip_at-modify :
    (k j : String) (f : NodeState → NodeState) (nodes : Dict NodeState)
    → ((n : NodeState) → (f n).holds_vip ≡ n.holds_vip)
    → vip_at j (modify k f nodes) ≡ vip_at j nodes
vip_at-modify k j f [] h = refl
vip_at-modify k j f ((i, n) ∷ nodes) h =
    ground (arith, eq_iff i k, eq_iff i j, vip_at-modify k j f nodes h, h n)

abbrev given : Option Bool → Bool → Option Bool
given none b = none
given (some _) b = some b

abbrev given_if : Bool → Bool → Option Bool → Option Bool
given_if here b v = if here then given v b else v

vip_at-hold :
    (k j : String) (b : Bool) (nodes : Dict NodeState)
    → vip_at j (modify k (hold_vip b) nodes) ≡ given_if (k == j) b (vip_at j nodes)
vip_at-hold k j b [] = ground arith
vip_at-hold k j b ((i, n) ∷ nodes) =
    ground (arith, eq_iff i k, eq_iff i j, eq_iff k j, vip_at-hold k j b nodes)

OneHolder-same :
    (c : Config) (nodes new : Dict NodeState)
    → ((j : String) → vip_at j new ≡ vip_at j nodes)
    → OneHolder c nodes
    → OneHolder c new
OneHolder-same c nodes new same h = record {
  held = rw (same c.vip_owner, same c.standby_proxy) h.held;
  others = λ name p q e. h.others name p q (sym (same name) ∙ e);
}

pub modify-OneHolder :
    (c : Config) (k : String) (f : NodeState → NodeState) (nodes : Dict NodeState)
    → ((n : NodeState) → (f n).holds_vip ≡ n.holds_vip)
    → OneHolder c nodes
    → OneHolder c (modify k f nodes)
modify-OneHolder c k f nodes h =
    OneHolder-same c nodes (modify k f nodes) (λ j. vip_at-modify k j f nodes h)

pub with_role-vip :
    (role state : String) (timeline : Option ℕ) (n : NodeState)
    → (with_role role state timeline n).holds_vip ≡ n.holds_vip
with_role-vip role state none n = refl
with_role-vip role state (some t) n = refl

module _ (c : Config) (distinct : (c.vip_owner == c.standby_proxy) ≡ false) where
  -- After each of the two proxies was told whether it holds the VIP.
  told : (a b : String) (x y : Bool) (nodes : Dict NodeState) → Dict NodeState
  told a b x y nodes = modify b (hold_vip y) (modify a (hold_vip x) nodes)

  told-at :
      (a b : String) (x y : Bool) (nodes : Dict NodeState) (j : String)
      → vip_at j (told a b x y nodes) ≡ given_if (b == j) y (given_if (a == j) x (vip_at j nodes))
  unfolding told
  told-at a b x y nodes j =
      vip_at-hold b j y (modify a (hold_vip x) nodes)
      ∙ ap (given_if (b == j) y) (vip_at-hold a j x nodes)

  told-first :
      (a b : String) (x y v : Bool) (nodes : Dict NodeState)
      → (b == a) ≡ false
      → vip_at a nodes ≡ some v
      → vip_at a (told a b x y nodes) ≡ some x
  told-first a b x y v nodes d h = ground (arith, told-at a b x y nodes a, eq_refl a, d, h)

  told-second :
      (a b : String) (x y v : Bool) (nodes : Dict NodeState)
      → (b == a) ≡ false
      → vip_at b nodes ≡ some v
      → vip_at b (told a b x y nodes) ≡ some y
  told-second a b x y v nodes d h =
      ground (arith, told-at a b x y nodes b, eq_refl b, eq_iff a b, eq_iff b a, d, h)

  flip : (c.standby_proxy == c.vip_owner) ≡ false
  flip =
      ground
        (arith, eq_iff c.standby_proxy c.vip_owner, eq_iff c.vip_owner c.standby_proxy, distinct)

  -- Both proxies are known.
  known :
      (nodes : Dict NodeState)
      → OneHolder c nodes
      → ((v : Bool) × (vip_at c.vip_owner nodes ≡ some v))
        × ((w : Bool) × (vip_at c.standby_proxy nodes ≡ some w))
  known nodes h = elim h.held [
    | inl (p, q) ↦ ((true, p), (false, q))
    | inr (p, q) ↦ ((false, p), (true, q))
  ]

  holding :
      (x : Bool) (nodes : Dict NodeState)
      → vip_at c.vip_owner nodes ≡ some x
      → vip_at c.standby_proxy nodes ≡ some (not x)
      → ((name : String)
          → (c.vip_owner == name) ≡ false
          → (c.standby_proxy == name) ≡ false
          → vip_at name nodes ≢ some true)
      → OneHolder c nodes
  holding true nodes p q k = record { held = inl (p, q); others = k }
  holding false nodes p q k = record { held = inr (p, q); others = k }

  told-OneHolder :
      (x : Bool) (nodes : Dict NodeState)
      → OneHolder c nodes
      → OneHolder c (told c.vip_owner c.standby_proxy x (not x) nodes)
  told-OneHolder x nodes h =
      let ((v, p), (w, q)) = known nodes h in
      holding x (told c.vip_owner c.standby_proxy x (not x) nodes)
        (told-first c.vip_owner c.standby_proxy x (not x) v nodes flip p)
        (told-second c.vip_owner c.standby_proxy x (not x) w nodes flip q)
        (λ name p q e.
          h.others name p q
            (ground (arith, told-at c.vip_owner c.standby_proxy x (not x) nodes name)))

  told_back-OneHolder :
      (nodes : Dict NodeState)
      → OneHolder c nodes
      → OneHolder c (told c.standby_proxy c.vip_owner false true nodes)
  told_back-OneHolder nodes h =
      let ((v, p), (w, q)) = known nodes h in
      holding true (told c.standby_proxy c.vip_owner false true nodes)
        (told-second c.standby_proxy c.vip_owner false true v nodes distinct p)
        (told-first c.standby_proxy c.vip_owner false true w nodes distinct q)
        (λ name p q e.
          h.others name p q
            (ground (arith, told-at c.standby_proxy c.vip_owner false true nodes name)))

  -- Every scheduled change leaves the VIP on exactly one proxy, where its moves are between the two.
  pub change-OneHolder :
      (ch : Change) (nodes : Dict NodeState)
      → IsFair c ch
      → OneHolder c nodes
      → OneHolder c (change c ch nodes)
  unfolding change told
  change-OneHolder (reboot_start n) nodes f h = modify-OneHolder c n _ nodes (λ _. refl) h
  change-OneHolder (reboot_end n at) nodes f h = modify-OneHolder c n _ nodes (λ _. refl) h
  change-OneHolder (promote n t) nodes f h =
      modify-OneHolder c n _ _ (λ _. refl)
        (modify-OneHolder c n _ nodes (with_role-vip "primary" "running" (some t)) h)
  change-OneHolder (rejoin n t) nodes f h =
      modify-OneHolder c n _ _ (with_role-vip "replica" "streaming" (some t))
        (modify-OneHolder c n _ nodes (λ _. refl) h)
  change-OneHolder (stopped n) nodes f h = modify-OneHolder c n _ nodes (λ _. refl) h
  change-OneHolder (streaming n) nodes f h =
      modify-OneHolder c n _ nodes (with_role-vip "replica" "streaming" none) h
  change-OneHolder (move_vip a b) nodes (inl (p, q)) h = rw (p, q) (told-OneHolder false nodes h)
  change-OneHolder (move_vip a b) nodes (inr (p, q)) h = rw (p, q) (told_back-OneHolder nodes h)
  change-OneHolder restore_vip nodes f h =
      rw (eq_refl c.vip_owner, flip) (told-OneHolder true nodes h)

  pub apply_events-OneHolder :
      (now : Time) (events : List Event) (nodes : Dict NodeState)
      → All (λ e. IsFair c e.change) events
      → OneHolder c nodes
      → OneHolder c (apply_events c now events nodes).1
  unfolding apply_events
  apply_events-OneHolder now [] nodes f h = h
  apply_events-OneHolder now (e ∷ events) nodes f h =
      apply_events-OneHolder now events _ f.1 (first (is_due now e))
    where
      first : (due : Bool) → OneHolder c (if due then change c e.change nodes else nodes)
      first true = change-OneHolder e.change nodes f.0 h
      first false = h

  pub apply_events-IsFair :
      (now : Time) (events : List Event) (nodes : Dict NodeState)
      → All (λ e. IsFair c e.change) events
      → All (λ e. IsFair c e.change) (apply_events c now events nodes).0
  unfolding apply_events
  apply_events-IsFair now [] nodes f = tt
  apply_events-IsFair now (e ∷ events) nodes f =
      (first (is_due now e), apply_events-IsFair now events _ f.1)
    where
      first : (due : Bool) → IsFair c (if due then tick_off e else e).change
      first true = f.0
      first false = f.0
