-- ===== src/Baseline/Items.antt =====
-- What the items of a checklist say, each as a test of the snapshot (ha-test/hatest/baseline.py).
use spr1n6_osscontest_server.Common.{
  ◌≡◌, refl, ◌↔◌, inl, inr, String, Bool, true, false, Option, none, some, List, [], ◌∷◌, arith,
  ◌&&◌, Bool-cases, Option-cases, all, Dict, lookup, some_eq, or_else, is_empty, ◌==◌, eq_iff,
  >>=-eq-some, &&-eq-true, &&_intro,
}
use spr1n6_osscontest_server.Config.{Config, node_names, replicas, proxy_nodes}
use spr1n6_osscontest_server.Model.{Snapshot, NodeFacts, leaders}
use spr1n6_osscontest_server.Baseline.{
  Checklist, CheckItem, passed, evaluate, list_eq, unreachable, replica_states, proxy_states,
  service_states, replica_ok, vip_ok, service_ok, ssh_item, leader_item, replica_item, vip_item,
  proxy_item, watchdog_item, service_item,
}

abbrev pub on_some {ℓ} : {V : Type ℓ} → (V → Bool) → Option V → Bool
on_some test none = false
on_some test (some v) = test v

-- Every name is known, and passes the test.
abbrev pub known_all {ℓ} : {V : Type ℓ} → (String → V → Bool) → Dict V → List String → Bool
known_all test d names = all (λ n. on_some (test n) (lookup n d)) names

unreachable-known :
    (s : Snapshot) (names r : List String)
    → unreachable s names ≡ some r
    → is_empty r ≡ known_all (λ _ (f : NodeFacts). f.reachable) s.facts names
unfolding unreachable
unreachable-known s [] r h = ground arith
unreachable-known s (n ∷ names) r h = elim (Option-cases (unreachable s names)) [
  | inl e ↦ ground arith
  | inr (rest, e) ↦ ground (arith, unreachable-known s names rest e)
]

replica_states-known :
    (s : Snapshot) (names : List String) (r : List String × Bool)
    → replica_states s names ≡ some r
    → r.1 ≡ known_all (replica_ok s) s.members names
unfolding replica_states
replica_states-known s [] r h = ground arith
replica_states-known s (n ∷ names) r h = elim (Option-cases (replica_states s names)) [
  | inl e ↦ ground arith
  | inr (rest, e) ↦ ground (arith, replica_states-known s names rest e)
]

proxy_states-known :
    (s : Snapshot) (names : List String) (r : List String × Bool)
    → proxy_states s names ≡ some r
    → r.1 ≡ known_all (λ _ (f : NodeFacts). some_eq f.openproxy_service "active") s.facts names
unfolding proxy_states
proxy_states-known s [] r h = ground arith
proxy_states-known s (n ∷ names) r h = elim (Option-cases (proxy_states s names)) [
  | inl e ↦ ground arith
  | inr (rest, e) ↦ ground (arith, proxy_states-known s names rest e)
]

service_states-known :
    (s : Snapshot) (names : List String) (r : List String × Bool)
    → service_states s names ≡ some r
    → r.1 ≡ known_all (λ _. service_ok) s.facts names
unfolding service_states
service_states-known s [] r h = ground arith
service_states-known s (n ∷ names) r h = elim (Option-cases (service_states s names)) [
  | inl e ↦ ground arith
  | inr (rest, e) ↦ ground (arith, service_states-known s names rest e)
]

pub list_eq_iff : (xs ys : List String) → (list_eq xs ys ≡ true) ↔ (xs ≡ ys)
list_eq_iff [] [] = ((λ _. refl), (λ _. refl))
list_eq_iff [] (y ∷ ys) = ((λ h. cc), (λ h. cc))
list_eq_iff (x ∷ xs) [] = ((λ h. cc), (λ h. cc))
list_eq_iff (x ∷ xs) (y ∷ ys) =
    let rest = list_eq_iff xs ys in
    (
      (λ h.
          let both = &&-eq-true (x == y) (list_eq xs ys) h in
          cc ((eq_iff x y).0 both.0, rest.0 both.1)),
      (λ h. &&_intro _ _ ((eq_iff x y).1 (cc)) (rest.1 (cc))),
    )

module _ (s : Snapshot) (c : Config) (i : CheckItem) where
  abbrev connected_all : Bool
  connected_all = known_all (λ _ (f : NodeFacts). f.reachable) s.facts (node_names c)

  abbrev replicas_all : Bool
  replicas_all = known_all (replica_ok s) s.members (replicas c)

  abbrev proxies_all : Bool
  proxies_all =
      known_all (λ _ (f : NodeFacts). some_eq f.openproxy_service "active") s.facts (proxy_nodes c)

  abbrev services_all : Bool
  services_all = known_all (λ _. service_ok) s.facts (node_names c)

  abbrev watchdog_on : Bool
  watchdog_on = on_some (λ (f : NodeFacts). some_eq f.watchdog "active") (lookup c.primary s.facts)

  ok-ssh_item : ssh_item s c ≡ some i → i.ok ≡ connected_all
  unfolding ssh_item
  ok-ssh_item h =
      let (r, e, k) = >>=-eq-some (unreachable s (node_names c)) _ h in
      ground (arith, unreachable-known s (node_names c) r e, k)

  ok-replica_item : replica_item s c ≡ some i → i.ok ≡ replicas_all
  unfolding replica_item
  ok-replica_item h =
      let (r, e, k) = >>=-eq-some (replica_states s (replicas c)) _ h in
      ground (arith, replica_states-known s (replicas c) r e, k)

  ok-proxy_item : proxy_item s c ≡ some i → i.ok ≡ proxies_all
  unfolding proxy_item
  ok-proxy_item h =
      let (r, e, k) = >>=-eq-some (proxy_states s (proxy_nodes c)) _ h in
      ground (arith, proxy_states-known s (proxy_nodes c) r e, k)

  ok-service_item : service_item s c ≡ some i → i.ok ≡ services_all
  unfolding service_item
  ok-service_item h =
      let (r, e, k) = >>=-eq-some (service_states s (node_names c)) _ h in
      ground (arith, service_states-known s (node_names c) r e, k)

active_watchdog : (w : Option String) → (or_else w "-" == "active") ≡ some_eq w "active"
active_watchdog none = refl
active_watchdog (some x) = elim (Bool-cases (x == "")) [
  | inl e ↦ rw e (rw ((eq_iff x "").0 e))
  | inr f ↦ rw f
]

ok-watchdog_item :
    (s : Snapshot) (c : Config) (i : CheckItem)
    → watchdog_item s c ≡ some i
    → i.ok ≡ on_some (λ (f : NodeFacts). some_eq f.watchdog "active") (lookup c.primary s.facts)
unfolding watchdog_item
ok-watchdog_item s c i h = elim (Option-cases (lookup c.primary s.facts)) [
  | inl e ↦ ground arith
  | inr (f, e) ↦ ground (arith, active_watchdog f.watchdog)
]

-- The conjunction of all that is checked.
abbrev pub verdict : Snapshot → Config → Bool
verdict s c =
    known_all (λ _ (f : NodeFacts). f.reachable) s.facts (node_names c)
    && (list_eq (leaders s) (c.primary ∷ [])
        && (known_all (replica_ok s) s.members (replicas c)
            && (vip_ok s c
                && (known_all (λ _ (f : NodeFacts). some_eq f.openproxy_service "active") s.facts
                      (proxy_nodes c)
                    && (on_some (λ (f : NodeFacts). some_eq f.watchdog "active")
                          (lookup c.primary s.facts)
                        && (known_all (λ _. service_ok) s.facts (node_names c) && true))))))

-- The five items that read a dictionary decide whether there is a checklist.
evaluate_cases :
    (s : Snapshot) (c : Config) (l : Checklist) (P : Type 0)
    → evaluate s c ≡ some l
    → ((ssh replica proxy watchdog service : CheckItem)
        → ssh_item s c ≡ some ssh
        → replica_item s c ≡ some replica
        → proxy_item s c ≡ some proxy
        → watchdog_item s c ≡ some watchdog
        → service_item s c ≡ some service
        → l.items ≡ ssh ∷ leader_item s c ∷ replica ∷ vip_item s c ∷ proxy ∷ watchdog ∷ service ∷ []
        → P)
    → P
unfolding evaluate
evaluate_cases s c l P h k = elim (Option-cases (ssh_item s c)) [
  | inl e ↦ cc
  | inr (ssh, e1) ↦ elim (Option-cases (replica_item s c)) [
    | inl e ↦ absurd (ground arith)
    | inr (replica, e2) ↦ elim (Option-cases (proxy_item s c)) [
      | inl e ↦ absurd (ground arith)
      | inr (proxy, e3) ↦ elim (Option-cases (watchdog_item s c)) [
        | inl e ↦ absurd (ground arith)
        | inr (watchdog, e4) ↦ elim (Option-cases (service_item s c)) [
          | inl e ↦ absurd (ground arith)
          | inr (service, e5) ↦ k ssh replica proxy watchdog service e1 e2 e3 e4 e5 (ground arith)
        ]
      ]
    ]
  ]
]

pub passed-evaluate :
    (s : Snapshot) (c : Config) (l : Checklist) → evaluate s c ≡ some l → passed l ≡ verdict s c
unfolding leader_item vip_item
passed-evaluate s c l h =
    evaluate_cases s c l _ h λ ssh replica proxy watchdog service e1 e2 e3 e4 e5 items. rw (
      items,
      ok-ssh_item s c ssh e1,
      ok-replica_item s c replica e2,
      ok-proxy_item s c proxy e3,
      ok-watchdog_item s c watchdog e4,
      ok-service_item s c service e5,
    )
