-- ===== src/Config.antt =====
-- The description of the cluster under test (ha-test/hatest/config.py).
pub mod Validity
pub mod Load
pub mod Sources
pub mod Sample
mod Tests
use spr1n6_osscontest_server.Common.{
  ℕ, String, Bool, true, false, Option, none, some, List, [], ◌∷◌, not, ◌==◌, filter, map,
  if◌then◌else◌,
}

pub record Node : Type 0 where
  pub name : String
  pub ssh : String
  pub ip : String
  pub member : String

pub record Config : Type 0 where
  pub nodes : List Node
  pub primary : String
  pub vip_owner : String
  pub standby_proxy : String
  pub observer : String
  pub h6_stop_node : String
  pub vip : String
  pub vip_port : ℕ
  pub write_pool : String
  pub database : String
  pub probe_table : String
  pub db_os_user : String
  pub patroni_port : ℕ
  pub patroni_config : String
  pub pg_socket_dir : String
  pub remote_dir : String
  pub aws_vip_check : Bool
  pub app_url : String
  pub app_user_id : String
  pub search_queries : List String
  pub db_user : String
  pub db_password : Option String
  pub grafana_url : String
  pub grafana_dashboard_uid : String
  pub grafana_user : String
  pub grafana_password : String

abbrev pub node_names : Config → List String
node_names c = map (λ n. n.name) c.nodes

abbrev pub replicas : Config → List String
replicas c = filter (λ name. not (name == c.primary)) (node_names c)

abbrev pub proxy_nodes : Config → List String
proxy_nodes c = c.vip_owner ∷ c.standby_proxy ∷ []

find_node : String → List Node → Option Node
find_node name [] = none
find_node name (n ∷ nodes) = if n.name == name then some n else find_node name nodes

-- `config.node(name)`; none is its KeyError.
unfoldable pub node : Config → String → Option Node
unfolding find_node
node c name = find_node name c.nodes
