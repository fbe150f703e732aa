-- ===== src/Cluster/Session.antt =====
-- The remote commands of a cluster one after the other (`Cluster` in ha-test/hatest/cluster.py and
-- `Remote.run` in ha-test/hatest/remote.py). The nodes are a parameter: they answer each command from
-- the commands before it.
use spr1n6_osscontest_server.Common.{
  ℕ, String, Bool, true, false, Option, none, some, List, [], ◌∷◌, ◌++◌, ◌<>◌, if◌then◌else◌, Dict,
  lookup, insert,
}
use spr1n6_osscontest_server.Config.{Config}
use spr1n6_osscontest_server.Model.{Time}
use spr1n6_osscontest_server.Parse.{Parsed, parsed, parse_error, other_error}
use spr1n6_osscontest_server.Cluster.{RemoteResult, is_ok, brief, parse_key_values}

-- The arguments of `Remote.run`. A limit is in seconds.
pub record Command : Type 0 where
  pub node : String
  pub script : String
  pub as_db_user : Bool
  pub secrets : Dict String
  pub timeout : ℕ

-- What the methods of a cluster raise.
pub data ClusterFault : Type 0 where
  cluster_error : String → ClusterFault
  config_error : String → ClusterFault
  parse_fault : String → ClusterFault
  other_fault : ClusterFault

pub data Reply (A : Type 0) : Type 0 where
  reply : A → Reply A
  fault : ClusterFault → Reply A

-- `Cluster.remote` and `Cluster._recorder_deployed`; the commands stand with the latest one last.
pub record Sent : Type 0 where
  pub commands : List Command
  pub recorder_deployed : Bool

abbrev pub Op : Type 0 → Type 0
Op A = Sent → Reply A × Sent

abbrev pub give : {A : Type 0} → A → Op A
give a s = (reply a, s)

abbrev pub fail : {A : Type 0} → ClusterFault → Op A
fail e s = (fault e, s)

abbrev pub go_on : {A B : Type 0} → Reply A × Sent → (A → Op B) → Reply B × Sent
go_on (reply a, s) f = f a s
go_on (fault e, s) f = (fault e, s)

infixl 5 ◌>>=◌ ◌>>◌
abbrev pub ◌>>=◌ : {A B : Type 0} → Op A → (A → Op B) → Op B
(m >>= f) s = go_on (m s) f

abbrev pub ◌>>◌ : {A B : Type 0} → Op A → Op B → Op B
m >> k = m >>= λ _. k

abbrev pub read : {A : Type 0} → Parsed A → Op A
read (parsed a) = give a
read (parse_error e) = fail (parse_fault e)
read other_error = fail other_fault

-- A value that is missing raises KeyError or ValueError.
abbrev pub or_fault : {A : Type 0} → Option A → Op A
or_fault none = fail other_fault
or_fault (some a) = give a

abbrev pub command : String → String → Bool → ℕ → Command
command node script as_db_user timeout = record {
  node = node;
  script = script;
  as_db_user = as_db_user;
  secrets = [];
  timeout = timeout;
}

abbrev pub set_deployed : Op Unit
set_deployed s = (reply tt, record s { recorder_deployed = true })

abbrev pub is_deployed : Op Bool
is_deployed s = (reply s.recorder_deployed, s)

-- The nodes get the commands before, and the command.
module _ (nodes : List Command → Command → RemoteResult) where
  -- `self.remote.run(…)`
  abbrev pub send : Command → Op RemoteResult
  send c s = (reply (nodes s.commands c), record s { commands = s.commands ++ (c ∷ []) })

  -- The script is made first.
  abbrev pub run_on : String → Option String → Bool → ℕ → Op RemoteResult
  run_on node script as_db_user timeout =
      or_fault script >>= (λ text. send (command node text as_db_user timeout))

  abbrev output_or : String → String → RemoteResult → Op String
  output_or node what r =
      if is_ok r
      then give r.stdout
      else fail (cluster_error (node <> " " <> what <> " 실패: " <> brief r))

  unfoldable pub db_query : String → Option String → String → Op String
  db_query node script what = run_on node script true 30 >>= output_or node what

  unfoldable pub observer_call_with : Config → Option String → String → Dict String → ℕ → Op String
  observer_call_with c script what secrets timeout =
      or_fault script
      >>= (λ text. send (record (command c.observer text true timeout) { secrets = secrets }))
      >>= output_or c.observer what

  unfoldable pub observer_call : Config → Option String → String → Op String
  unfolding observer_call_with
  observer_call c script what = observer_call_with c script what [] 30

  module _ (read_float : String → Option Time) where
    abbrev time_or : String → RemoteResult → Option String → Op Time
    time_or what r none = fail (cluster_error (what <> " 실패: " <> brief r))
    time_or what r (some ts) =
        if is_ok r
        then or_fault (read_float ts)
        else fail (cluster_error (what <> " 실패: " <> brief r))

    unfoldable pub timed_action : String → Option String → String → Bool → ℕ → Op Time
    unfolding parse_key_values
    timed_action node script what as_db_user timeout =
        run_on node script as_db_user timeout
        >>= (λ r. time_or what r (lookup "ts" (parse_key_values r.stdout)))

  -- The commands of a thread pool stand in the order of the nodes.
  abbrev pub run_each : Option String → ℕ → List String → Dict RemoteResult → Op (Dict RemoteResult)
  run_each script timeout [] results = give results
  run_each script timeout (node ∷ names) results =
      run_on node script false timeout
      >>= (λ r. run_each script timeout names (insert node r results))
