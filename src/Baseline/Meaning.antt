-- ===== src/Baseline/Meaning.antt =====
-- What a checklist that passes says of the snapshot (ha-test/hatest/baseline.py).
use spr1n6_osscontest_server.Common.{
  ◌≡◌, refl, sym, ◌∙◌, ◌↔◌, inl, inr, String, Bool, true, some, List, [], ◌∷◌, arith, All,
  Bool-cases, all→All, All→all, lookup, some_eq, some_eq_iff, &&-eq-true, &&_intro, is_some,
}
use spr1n6_osscontest_server.Config.{Config, node_names, replicas, proxy_nodes}
use spr1n6_osscontest_server.Model.{Snapshot, NodeFacts, leaders, os_vip_holders}
use spr1n6_osscontest_server.Baseline.{
  Checklist, passed, evaluate, list_eq, unreachable, replica_states, proxy_states, service_states,
  replica_ok, vip_ok, service_ok, ssh_item, replica_item, proxy_item, watchdog_item, service_item,
}
use spr1n6_osscontest_server.Baseline.Items.{
  on_some, known_all, verdict, passed-evaluate, list_eq_iff,
}

-- The baseline state, as the snapshot shows it.
pub record IsBaseline (s : Snapshot) (c : Config) : Type 0 where
  pub connected :
      All (λ n. on_some (λ (f : NodeFacts). f.reachable) (lookup n s.facts) ≡ true) (node_names c)
  pub leads : leaders s ≡ c.primary ∷ []
  pub streaming : All (λ n. on_some (replica_ok s n) (lookup n s.members) ≡ true) (replicas c)
  pub vip : os_vip_holders s ≡ c.vip_owner ∷ []
  pub aws : s.aws_vip_checked ≡ true → s.aws_vip_owner ≡ some c.vip_owner
  pub proxies :
      All
        (λ n.
          on_some (λ (f : NodeFacts). some_eq f.openproxy_service "active") (lookup n s.facts)
          ≡ true)
        (proxy_nodes c)
  pub watchdog :
      on_some (λ (f : NodeFacts). some_eq f.watchdog "active") (lookup c.primary s.facts) ≡ true
  pub services : All (λ n. on_some service_ok (lookup n s.facts) ≡ true) (node_names c)

vip_ok-parts :
    (s : Snapshot) (c : Config)
    → vip_ok s c ≡ true
    → (os_vip_holders s ≡ c.vip_owner ∷ [])
      × (s.aws_vip_checked ≡ true → s.aws_vip_owner ≡ some c.vip_owner)
vip_ok-parts s c h =
    let both = &&-eq-true (list_eq (os_vip_holders s) (c.vip_owner ∷ [])) _ h in
    (
      (list_eq_iff (os_vip_holders s) (c.vip_owner ∷ [])).0 both.0,
      λ checked. (some_eq_iff s.aws_vip_owner c.vip_owner).0 (rw checked at both.1),
    )

vip_ok_intro :
    (s : Snapshot) (c : Config)
    → os_vip_holders s ≡ c.vip_owner ∷ []
    → (s.aws_vip_checked ≡ true → s.aws_vip_owner ≡ some c.vip_owner)
    → vip_ok s c ≡ true
vip_ok_intro s c h k =
    &&_intro _ _ ((list_eq_iff (os_vip_holders s) (c.vip_owner ∷ [])).1 h)
      (elim (Bool-cases s.aws_vip_checked) [
        | inl e ↦ rw e ((some_eq_iff s.aws_vip_owner c.vip_owner).1 (k e))
        | inr e ↦ rw e
      ])

abbrev proxy_on : Snapshot → String → Bool
proxy_on s n = on_some (λ (f : NodeFacts). some_eq f.openproxy_service "active") (lookup n s.facts)

verdict-IsBaseline : (s : Snapshot) (c : Config) → verdict s c ≡ true → IsBaseline s c
verdict-IsBaseline s c h =
    let a = &&-eq-true (known_all (λ _ (f : NodeFacts). f.reachable) s.facts (node_names c)) _ h in
    let b = &&-eq-true (list_eq (leaders s) (c.primary ∷ [])) _ a.1 in
    let d = &&-eq-true (known_all (replica_ok s) s.members (replicas c)) _ b.1 in
    let e = &&-eq-true (vip_ok s c) _ d.1 in
    let f =
      &&-eq-true
        (known_all (λ _ (f : NodeFacts). some_eq f.openproxy_service "active") s.facts
          (proxy_nodes c))
        _ e.1 in
    let g =
      &&-eq-true
        (on_some (λ (f : NodeFacts). some_eq f.watchdog "active") (lookup c.primary s.facts)) _
        f.1 in
    let i = &&-eq-true (known_all (λ _. service_ok) s.facts (node_names c)) _ g.1 in
    let vip = vip_ok-parts s c e.0 in
    record {
      connected = all→All _ (node_names c) a.0;
      leads = (list_eq_iff (leaders s) (c.primary ∷ [])).0 b.0;
      streaming = all→All _ (replicas c) d.0;
      vip = vip.0;
      aws = vip.1;
      proxies = all→All (proxy_on s) (proxy_nodes c) f.0;
      watchdog = g.0;
      services = all→All _ (node_names c) i.0;
    }

IsBaseline-verdict : (s : Snapshot) (c : Config) → IsBaseline s c → verdict s c ≡ true
IsBaseline-verdict s c b = &&_intro _ _ (All→all _ (node_names c) b.connected) (
    &&_intro _ _ ((list_eq_iff (leaders s) (c.primary ∷ [])).1 b.leads) (
      &&_intro _ _ (All→all _ (replicas c) b.streaming) (
        &&_intro _ _ (vip_ok_intro s c b.vip b.aws) (
          &&_intro _ _ (All→all (proxy_on s) (proxy_nodes c) b.proxies)
            (&&_intro _ _ b.watchdog (&&_intro _ _ (All→all _ (node_names c) b.services) refl))))))

-- A checklist that `evaluate` returns passes exactly when the snapshot shows the baseline state:
-- every node is reachable by SSH, the configured primary is the only Leader, every other node is a
-- streaming Replica whose lag is known and under the limit, the VIP is on its owner alone (and AWS
-- agrees, where it was asked), both proxies are active, the primary's watchdog is active, and
-- Patroni is active and enabled on every node.
pub evaluate_iff :
    (s : Snapshot) (c : Config) (l : Checklist)
    → evaluate s c ≡ some l
    → (passed l ≡ true) ↔ IsBaseline s c
evaluate_iff s c l h = (
  (λ p. verdict-IsBaseline s c (sym (passed-evaluate s c l h) ∙ p)),
  (λ b. passed-evaluate s c l h ∙ IsBaseline-verdict s c b),
)

-- Every node that the configuration names is in both dictionaries of the snapshot.
pub record Covers (s : Snapshot) (c : Config) : Type 0 where
  pub known_facts : All (λ n. is_some (lookup n s.facts) ≡ true) (node_names c)
  pub known_members : All (λ n. is_some (lookup n s.members) ≡ true) (replicas c)
  pub known_proxies : All (λ n. is_some (lookup n s.facts) ≡ true) (proxy_nodes c)
  pub known_primary : is_some (lookup c.primary s.facts) ≡ true

module _ (s : Snapshot) where
  unreachable_total :
      (names : List String)
      → All (λ n. is_some (lookup n s.facts) ≡ true) names
      → is_some (unreachable s names) ≡ true
  unfolding unreachable
  unreachable_total [] h = refl
  unreachable_total (n ∷ names) h = ground (arith, unreachable_total names h.1)

  replica_states_total :
      (names : List String)
      → All (λ n. is_some (lookup n s.members) ≡ true) names
      → is_some (replica_states s names) ≡ true
  unfolding replica_states
  replica_states_total [] h = refl
  replica_states_total (n ∷ names) h = ground (arith, replica_states_total names h.1)

  proxy_states_total :
      (names : List String)
      → All (λ n. is_some (lookup n s.facts) ≡ true) names
      → is_some (proxy_states s names) ≡ true
  unfolding proxy_states
  proxy_states_total [] h = refl
  proxy_states_total (n ∷ names) h = ground (arith, proxy_states_total names h.1)

  service_states_total :
      (names : List String)
      → All (λ n. is_some (lookup n s.facts) ≡ true) names
      → is_some (service_states s names) ≡ true
  unfolding service_states
  service_states_total [] h = refl
  service_states_total (n ∷ names) h = ground (arith, service_states_total names h.1)

-- If the snapshot covers every node that the configuration names, then `evaluate` raises no
-- KeyError.
pub evaluate_total : (s : Snapshot) (c : Config) → Covers s c → is_some (evaluate s c) ≡ true
unfolding evaluate ssh_item replica_item proxy_item watchdog_item service_item
evaluate_total s c k = ground (
  arith,
  unreachable_total s (node_names c) k.known_facts,
  replica_states_total s (replicas c) k.known_members,
  proxy_states_total s (proxy_nodes c) k.known_proxies,
  service_states_total s (node_names c) k.known_facts,
  k.known_primary,
)
