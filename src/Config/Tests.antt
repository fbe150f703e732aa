-- ===== src/Config/Tests.antt =====
-- The configuration of ha-test/cluster.conf passes the checks (ha-test/hatest/config.py).
use spr1n6_osscontest_server.Common.{
  ℕ, ◌≡◌, refl, ◌↔◌, String, Option, none, some, List, [], ◌∷◌, ◌==◌, if◌then◌else◌, length,
}
use spr1n6_osscontest_server.Config.{Config}
use spr1n6_osscontest_server.Config.Sample.{sample}
use spr1n6_osscontest_server.Config.Validity.{validate, is_plain}
use spr1n6_osscontest_server.Config.Validity.Meaning.{IsValid, validate-none_iff}
use spr1n6_osscontest_server.Config.Load.{
  Sources, Loaded, loaded, config_error, read_key_values, get, load_config, strip, unquote,
}
use spr1n6_osscontest_server.Config.Sources.{IsFrom, get-IsFrom, load_config-IsValid}

sample-valid : validate sample ≡ none
unfolding validate is_plain
sample-valid = refl

validate-none_iff_example : (validate sample ≡ none) ↔ IsValid sample
validate-none_iff_example = validate-none_iff sample

-- The lines of cluster.conf that are no comments.
abbrev conf_lines : List String
conf_lines =
    "NODES=db-01 db-02 db-03" ∷ "DB01_SSH=ha-db-01" ∷ "DB01_IP=10.40.1.11"
    ∷ "DB01_MEMBER=postgresql1" ∷ "DB02_SSH=ha-db-02" ∷ "DB02_IP=10.40.1.12"
    ∷ "DB02_MEMBER=postgresql2" ∷ "DB03_SSH=ha-db-03" ∷ "DB03_IP=10.40.1.13"
    ∷ "DB03_MEMBER=postgresql3" ∷ "PRIMARY=db-01" ∷ "VIP_OWNER=db-02" ∷ "STANDBY_PROXY=db-03"
    ∷ "OBSERVER=db-03" ∷ "H6_STOP_NODE=db-03" ∷ "VIP=10.40.1.100" ∷ "VIP_PORT=6432"
    ∷ "WRITE_POOL=aidocs_session" ∷ "DATABASE=aidocs" ∷ "DB_USER=aidocs"
    ∷ "PROBE_TABLE=ha_test.probe" ∷ "DB_OS_USER=opensql" ∷ "PATRONI_PORT=8008"
    ∷ "PATRONI_CONFIG=/home/opensql/etc/patroni/patroni.yml" ∷ "PG_SOCKET_DIR=/home/opensql/tmp"
    ∷ "REMOTE_DIR=/home/opensql/ha-test" ∷ "AWS_VIP_CHECK=1" ∷ "GRAFANA_URL=http://localhost:3030"
    ∷ "GRAFANA_DASHBOARD_UID=opensql-ha-nodes" ∷ "GRAFANA_USER=admin"
    ∷ "APP_URL=http://localhost:8080" ∷ "APP_USER_ID=1"
    ∷ "SEARCH_QUERIES=국회 예산안 처리 기한|기후변화와 코로나19 위기|정기국회 일정" ∷ []

abbrev upper : String → String
upper s =
    if s == "db-01"
    then "DB-01"
    else if s == "db-02"
    then "DB-02"
    else if s == "db-03"
    then "DB-03"
    else s

abbrev lower : String → String
lower s = s

abbrev int : String → Option ℕ
int s = if s == "6432" then some 6432 else if s == "8008" then some 8008 else none

abbrev sources : Sources
unfolding read_key_values
sources = record {
  environ = ("HA_OBSERVER", "db-02") ∷ [];
  dotenv = [];
  conf = read_key_values conf_lines;
}

abbrev config_of : Loaded Config → Config
config_of (loaded c) = c
config_of (config_error e) = sample

abbrev ours : Config
unfolding load_config sources
ours = config_of (load_config upper lower int sources)

loads : load_config upper lower int sources ≡ loaded ours
unfolding load_config sources ours validate is_plain get strip unquote read_key_values
loads = refl

load_config-IsValid_example : IsValid ours
load_config-IsValid_example = load_config-IsValid upper lower int sources ours loads

observes : (ours.observer ≡ "db-02") × (ours.vip_port ≡ 6432) × (length ours.search_queries ≡ 3)
unfolding load_config sources ours validate is_plain get strip unquote read_key_values
observes = (refl, refl, refl)

get-IsFrom_example : IsFrom sources "OBSERVER" "db-02"
unfolding sources get read_key_values strip unquote
get-IsFrom_example = get-IsFrom sources "OBSERVER" "db-02" refl
