-- ===== src/Config/Validity/Meaning.antt =====
-- What a configuration that passes the checks has (`_validate` in ha-test/hatest/config.py).
use spr1n6_osscontest_server.Common.{
  ◌≡◌, refl, inl, inr, eqb_iff, ◌↔◌, String, Bool, true, false, Option, none, some, List, [], ◌∷◌,
  not, arith, eqb, ◌==◌, ◌<>◌, join, contains, length, All, if◌then◌else◌, Bool-cases,
}
use spr1n6_osscontest_server.Config.{Config, Node, node_names}
use spr1n6_osscontest_server.Config.Validity.{
  is_plain, script_values, node_values, roles, unknown_role, unsafe_value, relations, first_of,
  validate,
}
use spr1n6_osscontest_server.Config.Validity.Plain.{IsPlain, is_plain-IsPlain, IsPlain-is_plain}

-- The settings that a script takes without quotes.
abbrev pub settings_of : Config → List String
settings_of c =
    c.vip ∷ c.write_pool ∷ c.database ∷ c.probe_table ∷ c.db_user ∷ c.db_os_user ∷ c.patroni_config
    ∷ c.pg_socket_dir ∷ c.remote_dir ∷ []

-- What the tests rely on.
pub record IsValid (c : Config) : Type 0 where
  pub three : length (node_names c) ≡ 3
  pub primary_known : contains c.primary (node_names c) ≡ true
  pub owner_known : contains c.vip_owner (node_names c) ≡ true
  pub standby_known : contains c.standby_proxy (node_names c) ≡ true
  pub observer_known : contains c.observer (node_names c) ≡ true
  pub stop_known : contains c.h6_stop_node (node_names c) ≡ true
  pub two_proxies : (c.vip_owner == c.standby_proxy) ≡ false
  pub observer_survives : (c.observer == c.primary) ≡ false
  pub stops_replica : (c.h6_stop_node == c.primary) ≡ false
  pub plain : All IsPlain (settings_of c)
  pub plain_nodes : All (λ n. IsPlain n.name × IsPlain n.ip × IsPlain n.member) c.nodes

nodes-IsPlain :
    (nodes : List Node)
    → All (λ v. is_plain v ≡ true) (node_values nodes)
    → All (λ n. IsPlain n.name × IsPlain n.ip × IsPlain n.member) nodes
nodes-IsPlain [] h = tt
nodes-IsPlain (n ∷ nodes) h = (
  (is_plain-IsPlain n.name h.0, is_plain-IsPlain n.ip h.1.0, is_plain-IsPlain n.member h.1.1.0),
  nodes-IsPlain nodes h.1.1.1,
)

IsPlain-nodes :
    (nodes : List Node)
    → All (λ n. IsPlain n.name × IsPlain n.ip × IsPlain n.member) nodes
    → All (λ v. is_plain v ≡ true) (node_values nodes)
IsPlain-nodes [] h = tt
IsPlain-nodes (n ∷ nodes) h = (
  IsPlain-is_plain n.name h.0.0,
  (IsPlain-is_plain n.ip h.0.1, (IsPlain-is_plain n.member h.0.2, IsPlain-nodes nodes h.1)),
)

unsafe_value-none :
    (values : List String) → unsafe_value values ≡ none → All (λ v. is_plain v ≡ true) values
unsafe_value-none [] h = tt
unsafe_value-none (v ∷ values) h = elim (Bool-cases (is_plain v)) [
  | inl y ↦ (y, unsafe_value-none values (rw y at h))
  | inr n ↦ absurd (some_none _ (rw n at h))
]
  where
    some_none : (e : String) → some e ≡ none → ⊥
    some_none e h = cc

none-unsafe_value :
    (values : List String) → All (λ v. is_plain v ≡ true) values → unsafe_value values ≡ none
none-unsafe_value [] h = refl
none-unsafe_value (v ∷ values) h = rw (h.0, none-unsafe_value values h.1)

unknown_role-none :
    (names : List String) (roles : List (String × String))
    → unknown_role names roles ≡ none
    → All (λ r. contains r.1 names ≡ true) roles
unknown_role-none names [] h = tt
unknown_role-none names ((key, value) ∷ rest) h = elim (Bool-cases (contains value names)) [
  | inl y ↦ (y, unknown_role-none names rest (rw y at h))
  | inr n ↦ absurd (some_none _ (rw n at h))
]
  where
    some_none : (e : String) → some e ≡ none → ⊥
    some_none e h = cc

none-unknown_role :
    (names : List String) (roles : List (String × String))
    → All (λ r. contains r.1 names ≡ true) roles
    → unknown_role names roles ≡ none
none-unknown_role names [] h = refl
none-unknown_role names ((key, value) ∷ rest) h = rw (h.0, none-unknown_role names rest h.1)

abbrev stages : Bool → String → Option String → Option String → Option String → Option String
stages three message o p q = if not three then some message else first_of o (first_of p q)

stages-none :
    (three : Bool) (message : String) (o p q : Option String)
    → stages three message o p q ≡ none
    → (three ≡ true) × (o ≡ none) × (p ≡ none) × (q ≡ none)
stages-none false m o p q h = cc
stages-none true m none none q h = (refl, refl, refl, h)
stages-none true m none (some e) q h = cc
stages-none true m (some e) p q h = cc

relations-none :
    (c : Config)
    → (relations c ≡ none) ↔ (
        ((c.vip_owner == c.standby_proxy) ≡ false)
        × ((c.observer == c.primary) ≡ false)
        × ((c.h6_stop_node == c.primary) ≡ false))
relations-none c =
    ((λ h. (ground arith, ground arith, ground arith)), (λ h. rw (h.0, h.1, h.2) refl))

of_nodes :
    (c : Config)
    → All (λ v. is_plain v ≡ true) (script_values c)
    → All (λ v. is_plain v ≡ true) (node_values c.nodes)
of_nodes c (a, (b, (d, (e, (f, (g, (h, (i, (j, rest))))))))) = rest

settings-IsPlain :
    (c : Config) → All (λ v. is_plain v ≡ true) (script_values c) → All IsPlain (settings_of c)
settings-IsPlain c (a, (b, (d, (e, (f, (g, (h, (i, (j, rest))))))))) = (
  is_plain-IsPlain c.vip a,
  (
    is_plain-IsPlain c.write_pool b,
    (
      is_plain-IsPlain c.database d,
      (
        is_plain-IsPlain c.probe_table e,
        (
          is_plain-IsPlain c.db_user f,
          (
            is_plain-IsPlain c.db_os_user g,
            (
              is_plain-IsPlain c.patroni_config h,
              (is_plain-IsPlain c.pg_socket_dir i, (is_plain-IsPlain c.remote_dir j, tt)),
            ),
          ),
        ),
      ),
    ),
  ),
)

values-is_plain : (c : Config) → IsValid c → All (λ v. is_plain v ≡ true) (script_values c)
values-is_plain c v =
    let (a, (b, (d, (e, (f, (g, (h, (i, (j, _))))))))) = v.plain in
    (
      IsPlain-is_plain c.vip a,
      (
        IsPlain-is_plain c.write_pool b,
        (
          IsPlain-is_plain c.database d,
          (
            IsPlain-is_plain c.probe_table e,
            (
              IsPlain-is_plain c.db_user f,
              (
                IsPlain-is_plain c.db_os_user g,
                (
                  IsPlain-is_plain c.patroni_config h,
                  (
                    IsPlain-is_plain c.pg_socket_dir i,
                    (IsPlain-is_plain c.remote_dir j, IsPlain-nodes c.nodes v.plain_nodes),
                  ),
                ),
              ),
            ),
          ),
        ),
      ),
    )

validate-IsValid : (c : Config) → validate c ≡ none → IsValid c
unfolding validate
validate-IsValid c h =
    let (three, known, related, plain) =
      stages-none (eqb (length (node_names c)) 3) ("노드는 3대여야 한다: " <> join " " (node_names c))
        (unknown_role (node_names c) (roles c)) (relations c) (unsafe_value (script_values c)) h in
    let all_known = unknown_role-none (node_names c) (roles c) known in
    let differ = (relations-none c).0 related in
    record {
      three = (eqb_iff (length (node_names c)) 3).0 three;
      primary_known = all_known.0;
      owner_known = all_known.1.0;
      standby_known = all_known.1.1.0;
      observer_known = all_known.1.1.1.0;
      stop_known = all_known.1.1.1.1.0;
      two_proxies = differ.0;
      observer_survives = differ.1;
      stops_replica = differ.2;
      plain = settings-IsPlain c (unsafe_value-none (script_values c) plain);
      plain_nodes = nodes-IsPlain c.nodes (of_nodes c (unsafe_value-none (script_values c) plain));
    }

IsValid-validate : (c : Config) → IsValid c → validate c ≡ none
unfolding validate
IsValid-validate c v =
    let three : eqb (length (node_names c)) 3 ≡ true =
      (eqb_iff (length (node_names c)) 3).1 v.three in
    let known = none-unknown_role (node_names c) (roles c) (
      v.primary_known,
      (v.owner_known, (v.standby_known, (v.observer_known, (v.stop_known, tt)))),
    ) in
    let related = (relations-none c).1 (v.two_proxies, v.observer_survives, v.stops_replica) in
    rw (three, known, related, none-unsafe_value (script_values c) (values-is_plain c v)) refl

-- The check passes exactly when there are three nodes, every role is one of them, the two proxies
-- differ, the observer and the node that H-6 stops are not the primary, and no setting and no name, IP
-- or member of a node that goes into a script unquoted is empty or has a blank, a quote, a line feed or
-- another one of the listed characters. A tab, `[` and `]`, which a shell reads as its own too, pass.
pub validate-none_iff : (c : Config) → (validate c ≡ none) ↔ IsValid c
validate-none_iff c = (validate-IsValid c, IsValid-validate c)
