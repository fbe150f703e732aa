-- ===== src/Config/Validity.antt =====
-- The checks that a configuration passes before a test (`_validate` in ha-test/hatest/config.py).
pub mod Plain
pub mod Meaning
use Prim.Native.Char.{Char, code}
use spr1n6_osscontest_server.Common.{
  ℕ, ◌≡◌, ◌≢◌, ap, ◌∙◌, eq_iff, refl, inl, inr, eqb_iff, ◌↔◌, String, Bool, true, false, Option,
  none, some, List, [], ◌∷◌, ◌&&◌, ◌||◌, not, arith, sym, &&-eq-true, &&_intro, eqb, ◌==◌, ◌<>◌,
  join, contains, length, All, if◌then◌else◌, Bool-cases,
}
use spr1n6_osscontest_server.Config.{Config, Node, node_names}

-- `ch in value`
abbrev has_char : Char → String → Bool
has_char ch String.[] = false
has_char ch (String.◌∷◌ c rest) = eqb (code c) (code ch) || has_char ch rest

-- `any(ch in value for ch in chars)`
abbrev any_char : String → String → Bool
any_char value String.[] = false
any_char value (String.◌∷◌ ch rest) = has_char ch value || any_char value rest

-- The characters that the check refuses.
abbrev pub special : String
special = " '\"\\$`;|&<>(){}*?!#~\n"

unfoldable pub is_plain : String → Bool
is_plain value = not (value == "") && not (any_char value special)

-- The values that `commands.fill` writes into the scripts without quotes.
abbrev node_values : List Node → List String
node_values [] = []
node_values (n ∷ nodes) = n.name ∷ n.ip ∷ n.member ∷ node_values nodes

abbrev pub script_values : Config → List String
script_values c =
    c.vip
    ∷ c.write_pool
    ∷ c.database
    ∷ c.probe_table
    ∷ c.db_user
    ∷ c.db_os_user
    ∷ c.patroni_config
    ∷ c.pg_socket_dir
    ∷ c.remote_dir
    ∷ node_values c.nodes

abbrev roles : Config → List (String × String)
roles c =
    ("PRIMARY", c.primary)
    ∷ ("VIP_OWNER", c.vip_owner)
    ∷ ("STANDBY_PROXY", c.standby_proxy)
    ∷ ("OBSERVER", c.observer)
    ∷ ("H6_STOP_NODE", c.h6_stop_node)
    ∷ []

-- The first role whose node is unknown.
abbrev unknown_role : List String → List (String × String) → Option String
unknown_role names [] = none
unknown_role names ((key, value) ∷ rest) =
    if contains value names
    then unknown_role names rest
    else some (key <> "=" <> value <> " 가 NODES 에 없다")

abbrev unsafe_value : List String → Option String
unsafe_value [] = none
unsafe_value (v ∷ values) =
    if is_plain v then unsafe_value values else some ("셸에 그대로 들어가는 값에 공백·따옴표·특수 문자를 쓰지 않는다: " <> v)

abbrev relations : Config → Option String
relations c =
    if c.vip_owner == c.standby_proxy
    then some "VIP_OWNER 와 STANDBY_PROXY 가 같다"
    else if c.observer == c.primary
    then some "OBSERVER 는 PRIMARY 와 달라야 한다"
    else if c.h6_stop_node == c.primary
    then some "H6_STOP_NODE 는 Replica 여야 한다"
    else none

abbrev first_of : Option String → Option String → Option String
first_of none o = o
first_of (some e) o = some e

-- The message of the ConfigError, or none where the configuration passes.
unfoldable pub validate : Config → Option String
validate c =
    if not (eqb (length (node_names c)) 3)
    then some ("노드는 3대여야 한다: " <> join " " (node_names c))
    else first_of (unknown_role (node_names c) (roles c))
        (first_of (relations c) (unsafe_value (script_values c)))
