-- ===== src/Config/Sample.antt =====
-- The configuration of ha-test/cluster.conf, for tests (ha-test/hatest/config.py).
use spr1n6_osscontest_server.Common.{String, true, none, [], ◌∷◌}
use spr1n6_osscontest_server.Config.{Config, Node}

abbrev node_of : String → String → String → String → Node
node_of name ssh ip member = record { name = name; ssh = ssh; ip = ip; member = member }

abbrev pub sample : Config
sample = record {
  nodes =
      node_of "db-01" "ha-db-01" "10.40.1.11" "postgresql1"
      ∷ node_of "db-02" "ha-db-02" "10.40.1.12" "postgresql2"
      ∷ node_of "db-03" "ha-db-03" "10.40.1.13" "postgresql3"
      ∷ [];
  primary = "db-01";
  vip_owner = "db-02";
  standby_proxy = "db-03";
  observer = "db-03";
  h6_stop_node = "db-03";
  vip = "10.40.1.100";
  vip_port = 6432;
  write_pool = "aidocs_session";
  database = "aidocs";
  probe_table = "ha_test.probe";
  db_os_user = "opensql";
  patroni_port = 8008;
  patroni_config = "/home/opensql/etc/patroni/patroni.yml";
  pg_socket_dir = "/home/opensql/tmp";
  remote_dir = "/home/opensql/ha-test";
  aws_vip_check = true;
  app_url = "http://localhost:8080";
  app_user_id = "1";
  search_queries = "a" ∷ [];
  db_user = "aidocs";
  db_password = none;
  grafana_url = "http://localhost:3030";
  grafana_dashboard_uid = "opensql-ha-nodes";
  grafana_user = "admin";
  grafana_password = "admin";
}
