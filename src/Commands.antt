-- ===== src/Commands.antt =====
-- The scripts that run on the nodes (ha-test/hatest/commands.py): a template with places in double
-- braces, and what is put there. The children hold the scripts.
pub mod Filled
pub mod Actions
pub mod Queries
pub mod Recorder
mod Tests
use Prim.Native.Char.{Char, code}
use spr1n6_osscontest_server.Common.{
  ℕ, String, Bool, true, false, Option, none, some, List, [], ◌∷◌, ◌&&◌, ◌||◌, leb, eqb, ◌==◌, ◌<>◌,
  if◌then◌else◌, map, join, has_part,
}
use spr1n6_osscontest_server.Common.Split.{replace}
use spr1n6_osscontest_server.Config.{Config}
use spr1n6_osscontest_server.Config.Load.{rstrip_by}

-- The place of a value in a template.
abbrev pub place : String → String
place key = "{{" <> key <> "}}"

unfoldable pub replace_all : String → List (String × String) → String
unfolding replace
replace_all script [] = script
replace_all script ((key, value) ∷ values) = replace_all (replace (place key) value script) values

abbrev is_newline : Char → Bool
is_newline c = eqb (code c) 10

-- `text.rstrip("\n")`
abbrev pub rstrip_newlines : String → String
rstrip_newlines s = rstrip_by is_newline s

abbrev pub lstrip_newlines : String → String
lstrip_newlines String.[] = String.[]
lstrip_newlines (String.◌∷◌ c s) =
    let rest = lstrip_newlines s in if is_newline c then rest else String.◌∷◌ c s

-- A place that is left over raises ValueError, which is none.
abbrev pub finished : String → Option String
finished script =
    if has_part "{{" script then none else some (rstrip_newlines (lstrip_newlines script) <> "\n")

unfoldable pub fill : String → List (String × String) → Option String
unfolding replace_all
fill template values = finished (replace_all template values)

abbrev pub if_filled : Option String → (String → String) → Option String
if_filled none f = none
if_filled (some script) f = some (f script)

-- A character that needs no quotes in a shell: `[A-Za-z0-9_@%+=:,./-]`.
abbrev is_safe : Char → Bool
is_safe c =
    let n = code c in
    (leb 48 n && leb n 58)
    || (leb 64 n && leb n 90)
    || (leb 97 n && leb n 122)
    || (leb 43 n && leb n 47)
    || eqb n 37
    || eqb n 61
    || eqb n 95

abbrev all_safe : String → Bool
all_safe String.[] = true
all_safe (String.◌∷◌ c s) = is_safe c && all_safe s

-- `shlex.quote(text)`
unfoldable pub quote : String → String
unfolding replace
quote s = if s == "" then "''" else if all_safe s then s else "'" <> replace "'" "'\"'\"'" s <> "'"

abbrev pub patroni_drop_in_dir : String
patroni_drop_in_dir = "/run/systemd/system/patroni.service.d"

abbrev pub patroni_drop_in : String
patroni_drop_in = "/run/systemd/system/patroni.service.d/zz-ha-test.conf"

abbrev pub recorder_eof : String
recorder_eof = "HA_TEST_RECORDER_EOF"

abbrev pub imds_base : String
imds_base = "http://169.254.169.254/latest/meta-data/network/interfaces/macs"

abbrev pub imds_token : String
imds_token =
    "curl -s -m 2 -X PUT http://169.254.169.254/latest/api/token -H 'X-aws-ec2-metadata-token-ttl-seconds: 300'"

unfoldable pub psql : Config → String
psql c =
    "psql -X -q -A -t -F \"$(printf '\\t')\" -h " <> c.pg_socket_dir <> " -U postgres -d "
    <> c.database <> " -v ON_ERROR_STOP=1"

-- `" ".join(f"{node.name}={node.ip}" for node in config.nodes)`
unfoldable pub targets : Config → String
unfolding join
targets c = join " " (map (λ n. n.name <> "=" <> n.ip) c.nodes)
