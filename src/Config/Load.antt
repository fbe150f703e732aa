-- ===== src/Config/Load.antt =====
-- Reading the configuration (`read_key_values` and `load_config` in ha-test/hatest/config.py). A
-- file is the list of its lines.
use Prim.Native.Char.{Char, code}
use spr1n6_osscontest_server.Common.{
  ℕ, String, Bool, false, Option, none, some, List, [], ◌∷◌, ◌&&◌, ◌||◌, not, eqb, leb, ◌==◌, ◌<>◌,
  if◌then◌else◌, Dict, lookup, insert, or_else, contains, map, filter,
}
use spr1n6_osscontest_server.Config.{Config, Node}
use spr1n6_osscontest_server.Config.Validity.{validate}

-- `ch.isspace()`
abbrev pub is_blank : Char → Bool
is_blank c =
    let n = code c in
    (leb 9 n && leb n 13)
    || (leb 28 n && leb n 32)
    || eqb n 133
    || eqb n 160
    || eqb n 5760
    || (leb 8192 n && leb n 8202)
    || eqb n 8232
    || eqb n 8233
    || eqb n 8239
    || eqb n 8287
    || eqb n 12_288

abbrev one : Char → String
one c = String.◌∷◌ c String.[]

abbrev lstrip : String → String
lstrip String.[] = String.[]
lstrip (String.◌∷◌ c s) = let rest = lstrip s in if is_blank c then rest else String.◌∷◌ c s

-- Drops the characters that satisfy `p` at the end.
abbrev pub rstrip_by : (Char → Bool) → String → String
rstrip_by p String.[] = String.[]
rstrip_by p (String.◌∷◌ c s) =
    let rest = rstrip_by p s in if rest == "" && p c then String.[] else String.◌∷◌ c rest

-- `text.strip()`
unfoldable pub strip : String → String
strip s = rstrip_by is_blank (lstrip s)

-- `text.rstrip("/")`
abbrev rstrip_slash : String → String
rstrip_slash s = rstrip_by (λ c. eqb (code c) 47) s

abbrev starts_comment : String → Bool
starts_comment String.[] = false
starts_comment (String.◌∷◌ c s) = eqb (code c) 35

abbrev before_after : Char → Option (String × String) → Option (String × String)
before_after c none = none
before_after c (some p) = some (String.◌∷◌ c p.0, p.1)

-- `text.split("=", 1)` where there is one.
abbrev pub split_once : String → Option (String × String)
split_once String.[] = none
split_once (String.◌∷◌ c s) =
    let rest = split_once s in if eqb (code c) 61 then some (String.[], s) else before_after c rest

-- The text without its last character, and that character.
abbrev unsnoc : Char → String → String × Char
unsnoc c String.[] = (String.[], c)
unsnoc c (String.◌∷◌ d s) = let rest = unsnoc d s in (String.◌∷◌ c rest.0, rest.1)

abbrev is_quote : Char → Bool
is_quote c = eqb (code c) 34 || eqb (code c) 39

-- Drops a pair of equal quotes around a text of two characters or more.
unfoldable pub unquote : String → String
unquote String.[] = String.[]
unquote (String.◌∷◌ c String.[]) = one c
unquote (String.◌∷◌ c (String.◌∷◌ d s)) =
    let inside = unsnoc d s in
    if is_quote c && eqb (code c) (code inside.1) then inside.0 else String.◌∷◌ c (String.◌∷◌ d s)

abbrev set_pair : Option (String × String) → Dict String → Dict String
unfolding strip unquote
set_pair none values = values
set_pair (some p) values = insert (strip p.0) (unquote (strip p.1)) values

abbrev read_line : String → Dict String → Dict String
unfolding strip set_pair
read_line raw values =
    let line = strip raw in
    if line == "" || starts_comment line then values else set_pair (split_once line) values

unfoldable pub read_into : List String → Dict String → Dict String
unfolding read_line
read_into [] values = values
read_into (raw ∷ lines) values = read_into lines (read_line raw values)

unfoldable pub read_key_values : List String → Dict String
unfolding read_into
read_key_values lines = read_into lines []

-- Where the settings come from: the environment, the .env file and cluster.conf.
pub record Sources : Type 0 where
  pub environ : Dict String
  pub dotenv : Dict String
  pub conf : Dict String

-- A configuration, or the message of a ConfigError.
pub data Loaded (A : Type 0) : Type 0 where
  loaded : A → Loaded A
  config_error : String → Loaded A

infixl 5 ◌>>=◌
abbrev pub ◌>>=◌ : {A B : Type 0} → Loaded A → (A → Loaded B) → Loaded B
loaded a >>= f = f a
config_error e >>= f = config_error e

abbrev pub or_error : String → Option String → Loaded String
or_error key none = config_error ("cluster.conf 에 " <> key <> " 가 없다")
or_error key (some v) = loaded v

abbrev pub first_some : Option String → Option String → Option String
first_some none o = o
first_some (some v) o = some v

-- `get`: the environment and .env with the prefix HA_, then cluster.conf.
unfoldable pub get : Sources → String → Loaded String
get s key = or_error key (
    first_some (lookup ("HA_" <> key) s.environ)
      (first_some (lookup ("HA_" <> key) s.dotenv) (lookup key s.conf)))

abbrev or_not_int : String → String → Option ℕ → Loaded ℕ
or_not_int key value none = config_error (key <> " 는 정수여야 한다: " <> value)
or_not_int key value (some n) = loaded n

-- `value or other`, for a text that may be missing.
abbrev or_value : Option String → Option String → Option String
or_value none o = o
or_value (some v) o = if v == "" then o else some v

-- A missing or empty password is None.
abbrev or_none : Option String → Option String
or_none none = none
or_none (some v) = if v == "" then none else some v

-- `text.split()`: the words between blanks. The first argument is the word so far.
abbrev finish_word : String → List String → List String
finish_word word words = if word == "" then words else word ∷ words

abbrev words_from : String → String → List String
words_from word String.[] = finish_word word []
words_from word (String.◌∷◌ c s) =
    let longer = words_from (word <> one c) s in
    let fresh = words_from "" s in if is_blank c then finish_word word fresh else longer

-- `text.split("|")`
abbrev fields_from : String → String → List String
fields_from field String.[] = field ∷ []
fields_from field (String.◌∷◌ c s) =
    let longer = fields_from (field <> one c) s in
    let fresh = fields_from "" s in if eqb (code c) 124 then field ∷ fresh else longer

module _ (upper lower : String → String) (int : String → Option ℕ) where
  abbrev drop_dashes : String → String
  drop_dashes String.[] = String.[]
  drop_dashes (String.◌∷◌ c s) =
      let rest = drop_dashes s in if eqb (code c) 45 then rest else String.◌∷◌ c rest

  abbrev get_int : Sources → String → Loaded ℕ
  get_int s key = get s key >>= (λ value. or_not_int key value (int value))

  -- The settings of the nodes, by the prefix that a name gives.
  abbrev load_nodes : Sources → List String → Loaded (List Node)
  load_nodes s [] = loaded []
  load_nodes s (name ∷ names) =
      let prefix = drop_dashes (upper name) in
      get s (prefix <> "_SSH") >>= (λ ssh. get s (prefix <> "_IP") >>= (λ ip.
        get s (prefix <> "_MEMBER") >>= (λ member. load_nodes s names >>= (λ nodes.
          loaded (record { name = name; ssh = ssh; ip = ip; member = member } ∷ nodes)))))

  -- The account of the database: the keys of the app in .env come before cluster.conf.
  abbrev or_get : Sources → String → Option String → Loaded String
  or_get s key none = get s key
  or_get s key (some v) = if v == "" then get s key else loaded v

  abbrev load_user : Sources → Loaded String
  load_user s = or_get s "DB_USER" (
      or_value (lookup "HA_DB_USER" s.environ)
        (or_value (lookup "HA_DB_USER" s.dotenv) (lookup "DB_USERNAME" s.dotenv)))

  abbrev load_password : Sources → Option String
  load_password s = or_none (
      or_value (lookup "HA_DB_PASSWORD" s.environ)
        (or_value (lookup "HA_DB_PASSWORD" s.dotenv) (lookup "DB_PASSWORD" s.dotenv)))

  abbrev load_grafana_password : Sources → String
  load_grafana_password s =
      or_else
        (or_value (lookup "HA_GRAFANA_PASSWORD" s.environ)
          (lookup "GRAFANA_ADMIN_PASSWORD" s.dotenv))
        "admin"

  abbrev yes_words : List String
  yes_words = "1" ∷ "true" ∷ "yes" ∷ []

  abbrev queries_of : String → List String
  queries_of text = map strip (filter (λ q. not (strip q == "")) (fields_from "" text))

  abbrev pub load_unchecked : Sources → Loaded Config
  load_unchecked s = get s "NODES" >>= (λ names. load_nodes s (words_from "" names) >>= (λ nodes.
      load_user s >>= (λ db_user. get s "PRIMARY" >>= (λ primary.
        get s "VIP_OWNER" >>= (λ vip_owner. get s "STANDBY_PROXY" >>= (λ standby_proxy.
          get s "OBSERVER" >>= (λ observer. get s "H6_STOP_NODE" >>= (λ h6_stop_node.
            get s "VIP" >>= (λ vip. get_int s "VIP_PORT" >>= (λ vip_port.
              get s "WRITE_POOL" >>= (λ write_pool. get s "DATABASE" >>= (λ database.
                get s "PROBE_TABLE" >>= (λ probe_table. get s "DB_OS_USER" >>= (λ db_os_user.
                  get_int s "PATRONI_PORT" >>= (λ patroni_port.
                    get s "PATRONI_CONFIG" >>= (λ patroni_config.
                      get s "PG_SOCKET_DIR" >>= (λ pg_socket_dir.
                        get s "REMOTE_DIR" >>= (λ remote_dir.
                          get s "AWS_VIP_CHECK" >>= (λ aws_vip_check.
                            get s "APP_URL" >>= (λ app_url. get s "APP_USER_ID" >>= (λ app_user_id.
                              get s "SEARCH_QUERIES" >>= (λ queries.
                                get s "GRAFANA_URL" >>= (λ grafana_url.
                                  get s "GRAFANA_DASHBOARD_UID" >>= (λ uid.
                                    get s "GRAFANA_USER" >>= (λ grafana_user. loaded (record {
                                      nodes = nodes;
                                      primary = primary;
                                      vip_owner = vip_owner;
                                      standby_proxy = standby_proxy;
                                      observer = observer;
                                      h6_stop_node = h6_stop_node;
                                      vip = vip;
                                      vip_port = vip_port;
                                      write_pool = write_pool;
                                      database = database;
                                      probe_table = probe_table;
                                      db_os_user = db_os_user;
                                      patroni_port = patroni_port;
                                      patroni_config = patroni_config;
                                      pg_socket_dir = pg_socket_dir;
                                      remote_dir = remote_dir;
                                      aws_vip_check = contains (lower aws_vip_check) yes_words;
                                      app_url = rstrip_slash app_url;
                                      app_user_id = app_user_id;
                                      search_queries = queries_of queries;
                                      db_user = db_user;
                                      db_password = load_password s;
                                      grafana_url = rstrip_slash grafana_url;
                                      grafana_dashboard_uid = uid;
                                      grafana_user = grafana_user;
                                      grafana_password = load_grafana_password s;
                                    }))))))))))))))))))))))))))

  abbrev pub checked : Config → Option String → Loaded Config
  checked c none = loaded c
  checked c (some e) = config_error e

  -- `load_config`, from the sources that were read. `upper` and `lower` change the case of letters and
  -- `int` reads a number, as Python does.
  unfoldable pub load_config : Sources → Loaded Config
  load_config s = load_unchecked s >>= (λ c. checked c (validate c))
