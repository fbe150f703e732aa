-- ===== src/Baseline.antt =====
-- The check of the baseline state (ha-test/hatest/baseline.py). `evaluate` reads dictionaries by
-- node name; none is the KeyError of a name that a snapshot lacks.
pub mod Items
pub mod Meaning
pub mod Sample
mod Tests
use spr1n6_osscontest_server.Common.{
  ℕ, ◌*◌, ◌<>◌, String, Bool, true, false, Option, none, some, List, [], ◌∷◌, ◌++◌, ◌&&◌, not, ltb,
  ◌==◌, if◌then◌else◌, filter, all, is_empty, map, join, lookup, some_eq, or_else, contains, ◌>>=◌,
}
use spr1n6_osscontest_server.Clock.{fmt_bytes}
use spr1n6_osscontest_server.Config.{Config, node_names, replicas, proxy_nodes}
use spr1n6_osscontest_server.Model.{
  Snapshot, Member, NodeFacts, leaders, os_vip_holders, lag_bytes, is_replica, display_state,
}

abbrev pub lag_limit_bytes : ℕ
lag_limit_bytes = 1024 * 1024

pub record CheckItem : Type 0 where
  pub label : String
  pub expected : String
  pub actual : String
  pub ok : Bool

pub record Checklist : Type 0 where
  pub items : List CheckItem

abbrev pub passed : Checklist → Bool
passed c = all (λ i. i.ok) c.items

abbrev pub failures : Checklist → List CheckItem
failures c = filter (λ i. not i.ok) c.items

abbrev summary_labels : List String
summary_labels = "Leader" ∷ "Replica" ∷ "VIP" ∷ "watchdog" ∷ []

unfoldable pub summary : Checklist → String
unfolding join
summary c =
    if passed c
    then "OK  "
      <> join " · " (
          map (λ i. i.label <> " " <> i.actual)
            (filter (λ i. contains i.label summary_labels) c.items))
    else "다름  "
      <> join " · "
          (map (λ i. i.label <> ": 기대 " <> i.expected <> ", 실제 " <> i.actual) (failures c))

-- Equality of lists of texts.
abbrev pub list_eq : List String → List String → Bool
list_eq [] [] = true
list_eq [] (_ ∷ _) = false
list_eq (_ ∷ _) [] = false
list_eq (x ∷ xs) (y ∷ ys) = x == y && list_eq xs ys

abbrev or_text : String → String → String
or_text s d = if s == "" then d else s

check_item : String → String → String → Bool → CheckItem
check_item label expected actual ok = record {
  label = label;
  expected = expected;
  actual = actual;
  ok = ok;
}

unreachable : Snapshot → List String → Option (List String)
unreachable s [] = some []
unreachable s (name ∷ names) = do
  facts ← lookup name s.facts
  rest ← unreachable s names
  some (if facts.reachable then rest else name ∷ rest)

pub ssh_item : Snapshot → Config → Option CheckItem
unfolding unreachable check_item
ssh_item s c = do
  missing ← unreachable s (node_names c)
  some (
      check_item "SSH" "3대 접속" (if is_empty missing then "3대 접속" else "접속 안 됨 " <> join "," missing)
        (is_empty missing))

pub leader_item : Snapshot → Config → CheckItem
unfolding check_item
leader_item s c =
    check_item "Leader" c.primary (or_text (join "," (leaders s)) "없음")
      (list_eq (leaders s) (c.primary ∷ []))

abbrev small_lag : Option ℕ → Bool
small_lag none = false
small_lag (some lag) = ltb lag lag_limit_bytes

abbrev pub replica_ok : Snapshot → String → Member → Bool
replica_ok s name m =
    is_replica m && some_eq m.state "streaming" && small_lag (lag_bytes s.members name)

replica_states : Snapshot → List String → Option (List String × Bool)
replica_states s [] = some ([], true)
replica_states s (name ∷ names) = do
  m ← lookup name s.members
  rest ← replica_states s names
  some (
    (name <> " " <> display_state m <> " Lag " <> fmt_bytes (lag_bytes s.members name)) ∷ rest.0,
    replica_ok s name m && rest.1,
  )

pub replica_item : Snapshot → Config → Option CheckItem
unfolding replica_states check_item
replica_item s c = do
  states ← replica_states s (replicas c)
  some (check_item "Replica" "2대 streaming, Lag 1MB 미만" (join ", " states.0) states.1)

abbrev pub vip_ok : Snapshot → Config → Bool
vip_ok s c =
    list_eq (os_vip_holders s) (c.vip_owner ∷ [])
    && (if s.aws_vip_checked then some_eq s.aws_vip_owner c.vip_owner else true)

pub vip_item : Snapshot → Config → CheckItem
unfolding check_item
vip_item s c =
    let held = or_text (join "," (os_vip_holders s)) "없음" in
    check_item "VIP" (c.vip_owner <> " (서버 eth0·AWS ENI)")
      (if s.aws_vip_checked
        then held <> " (AWS " <> or_else s.aws_vip_owner (or_else s.aws_vip_error "없음") <> ")"
        else held)
      (vip_ok s c)

proxy_states : Snapshot → List String → Option (List String × Bool)
proxy_states s [] = some ([], true)
proxy_states s (name ∷ names) = do
  facts ← lookup name s.facts
  rest ← proxy_states s names
  some (
    (name <> " " <> or_else facts.openproxy_service "-") ∷ rest.0,
    some_eq facts.openproxy_service "active" && rest.1,
  )

pub proxy_item : Snapshot → Config → Option CheckItem
unfolding proxy_states check_item
proxy_item s c = do
  states ← proxy_states s (proxy_nodes c)
  some (check_item "OpenProxy" "2대 active" (join ", " states.0) states.1)

pub watchdog_item : Snapshot → Config → Option CheckItem
unfolding check_item
watchdog_item s c = do
  facts ← lookup c.primary s.facts
  let watchdog = or_else facts.watchdog "-"
  some (
      check_item "watchdog" (c.primary <> " active") (c.primary <> " " <> watchdog)
        (watchdog == "active"))

abbrev pub service_ok : NodeFacts → Bool
service_ok f = some_eq f.patroni_service "active" && some_eq f.patroni_enabled "enabled"

-- The nodes whose service differs are listed.
service_states : Snapshot → List String → Option (List String × Bool)
service_states s [] = some ([], true)
service_states s (name ∷ names) = do
  facts ← lookup name s.facts
  rest ← service_states s names
  some (
      if service_ok facts then rest else (
        (name
              <> " "
              <> or_else facts.patroni_service "-"
              <> "·"
              <> or_else facts.patroni_enabled "-")
            ∷ rest.0,
        false,
      ))

pub service_item : Snapshot → Config → Option CheckItem
unfolding service_states check_item
service_item s c = do
  states ← service_states s (node_names c)
  some (
      check_item "Patroni 서비스" "3대 active·enabled"
        (or_text (join ", " states.0) "3대 active·enabled") states.1)

unfoldable pub evaluate : Snapshot → Config → Option Checklist
unfolding ssh_item leader_item replica_item vip_item proxy_item watchdog_item service_item
evaluate s c = do
  ssh ← ssh_item s c
  replica ← replica_item s c
  proxy ← proxy_item s c
  watchdog ← watchdog_item s c
  service ← service_item s c
  some (record {
    items = ssh ∷ leader_item s c ∷ replica ∷ vip_item s c ∷ proxy ∷ watchdog ∷ service ∷ [];
  })
