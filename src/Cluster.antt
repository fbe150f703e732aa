-- ===== src/Cluster.antt =====
-- What the tool asks the AWS metadata of the proxies (`aws_vip_owner` and `boot_id` in
-- ha-test/hatest/cluster.py), the result of a remote command (ha-test/hatest/remote.py) and the
-- reader of its output (ha-test/hatest/parse.py). The remote command is a parameter.
pub mod Owner
pub mod Session
pub mod Methods
pub mod Recorder
pub mod Viewers
pub mod Ssh
mod Tests
use Prim.Native.Char.{Char, code}
use spr1n6_osscontest_server.Common.{
  ℕ, zero, suc, String, Bool, true, false, Option, none, some, List, [], ◌∷◌, ◌&&◌, not, eqb, ◌==◌,
  ◌<>◌, if◌then◌else◌, first, splitlines, Dict, lookup, insert, some_eq, str, join,
}
use spr1n6_osscontest_server.Common.Int.{ℤ, pos, negsuc}
use spr1n6_osscontest_server.Config.{Config, proxy_nodes}
use spr1n6_osscontest_server.Config.Load.{strip, split_once}

pub record RemoteResult : Type 0 where
  pub node : String
  pub returncode : ℤ
  pub stdout : String
  pub stderr : String

abbrev pub is_ok : RemoteResult → Bool
is_ok r = elim r.returncode [ pos n ↦ eqb n 0 | negsuc n ↦ false ]

abbrev pub str_int : ℤ → String
str_int (pos n) = str n
str_int (negsuc n) = "-" <> str (suc n)

-- `text.replace("\n", " ")`
abbrev spaced : String → String
spaced String.[] = String.[]
spaced (String.◌∷◌ c s) =
    let rest = spaced s in if eqb (code c) 10 then " " <> rest else String.◌∷◌ c rest

unfoldable pub brief : RemoteResult → String
brief r =
    let message = spaced (strip (if r.stderr == "" then r.stdout else r.stderr)) in
    "rc=" <> str_int r.returncode <> " " <> first 200 message

abbrev set_value : Option (String × String) → Dict String → Dict String
set_value none values = values
set_value (some p) values = insert (strip p.0) (strip p.1) values

abbrev read_values : List String → Dict String → Dict String
read_values [] values = values
read_values (line ∷ lines) values = read_values lines (set_value (split_once line) values)

unfoldable pub parse_key_values : String → Dict String
parse_key_values text = read_values (splitlines text) []

-- `parse_key_values(result.stdout).get("aws_vip") if result.ok else None`
unfoldable pub aws_value : RemoteResult → Option String
aws_value r = if is_ok r then lookup "aws_vip" (parse_key_values r.stdout) else none

-- The value in an f-string.
abbrev shown : Option String → String
shown none = "None"
shown (some v) = v

abbrev pub failure : String → RemoteResult → String
failure node r =
    node <> " 메타데이터 확인 실패(" <> (if is_ok r then shown (aws_value r) else brief r) <> ")"

-- `{node: future.result() for node, future in futures.items()}`
abbrev pub results_of :
    (String → RemoteResult) → List String → Dict RemoteResult → Dict RemoteResult
results_of run [] results = results
results_of run (node ∷ nodes) results = results_of run nodes (insert node (run node) results)

abbrev pub holders_of : Dict RemoteResult → List String
holders_of [] = []
holders_of ((node, r) ∷ results) =
    let rest = holders_of results in if some_eq (aws_value r) "1" then node ∷ rest else rest

abbrev pub errors_of : Dict RemoteResult → List String
errors_of [] = []
errors_of ((node, r) ∷ results) =
    let rest = errors_of results in
    if some_eq (aws_value r) "1"
    then rest
    else if some_eq (aws_value r) "0"
    then rest
    else failure node r ∷ rest

abbrev pub judge : List String → List String → Option String × Option String
judge holders (e ∷ errors) = (none, some (join " / " (e ∷ errors)))
judge (node ∷ []) [] = (some node, none)
judge [] [] = (none, some "VIP 가 어느 ENI 에도 붙어 있지 않다")
judge (a ∷ b ∷ holders) [] = (none, some ("VIP 가 두 ENI 에 동시에 보인다: " <> join "," (a ∷ b ∷ holders)))

-- `run` gives the result of the metadata command on a node.
unfoldable pub aws_vip_owner : (String → RemoteResult) → Config → Option String × Option String
aws_vip_owner run c =
    let results = results_of run (proxy_nodes c) [] in
    judge (holders_of results) (errors_of results)

-- `run` gives the result of the command on a node.
unfoldable pub boot_id : (String → RemoteResult) → String → Option String
boot_id run node =
    let r = run node in
    if is_ok r then if strip r.stdout == "" then none else some (strip r.stdout) else none
