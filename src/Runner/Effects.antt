-- ===== src/Runner/Effects.antt =====
-- A run as a program over the history of its calls: the cluster, the person at the terminal and the
-- clock are an environment that answers each call, as it likes, from the calls made before.
use spr1n6_osscontest_server.Common.{
  ℕ, ◌+◌, ◌≤◌, String, Bool, false, Option, none, List, [], ◌∷◌, ◌<>◌, Dict,
}
use spr1n6_osscontest_server.Model.{
  Time, Member, NodeFacts, Snapshot, ProbeAttempt, RecorderLogs, Visibility, ReplicationRow,
  Injection, InsertAck, VipMove,
}
use spr1n6_osscontest_server.Baseline.{Checklist}
use spr1n6_osscontest_server.Report.{Outcome}

-- The calls that leave the process, one for each method of the cluster that a run uses, and the
-- question to the person. `act` is a call of a scenario that is none of these; `vip_moved` is the
-- result of a watch of the VIP. The times of the marks are left out.
pub data Call : Type 0 where
  snapshot members vip_holders open_app unlock : Call
  lock recorder_open recorder_start recorder_stop recorder_close confirm mark act : String → Call
  ssh_ok facts revive_db_stack : String → Call
  start_service switchover : String → String → Call
  snapshot_without_aws recorder_recent recorder_logs : Call
  replica_visibility replication kill_db_stack boot_id recorder_insert probe_tags : String → Call
  watch_vip vip_moved : String → Call
  stop_service : String → String → Call
  sleep : ℕ → Call

abbrev pub Answer : Call → Type 0
Answer snapshot = Snapshot
Answer members = Dict Member
Answer vip_holders = Dict (Option Bool)
Answer (lock _) = Option String
Answer (confirm _) = Bool
Answer (ssh_ok _) = Bool
Answer (facts _) = NodeFacts
Answer (revive_db_stack _) = Time
Answer (start_service _ _) = Time
Answer (stop_service _ _) = Time
Answer (switchover _ _) = Time
Answer snapshot_without_aws = Snapshot
Answer recorder_recent = List ProbeAttempt
Answer recorder_logs = RecorderLogs
Answer (replica_visibility _) = Visibility
Answer (replication _) = List ReplicationRow
Answer (kill_db_stack _) = Injection
Answer (boot_id _) = Option String
Answer (recorder_insert _) = InsertAck
Answer (probe_tags _) = List String
Answer (vip_moved _) = VipMove
Answer _ = Unit {0}

-- What a call may do: return, raise an exception, or be interrupted (Ctrl-C, which is no
-- `Exception`).
pub data Reply (A : Type 0) : Type 0 where
  returns : A → Reply A
  fails : String → String → Reply A
  interrupts : Reply A

pub record Env : Type 0 where
  pub answer : (c : Call) → List Call → Reply (Answer c)
  pub now : List Call → Time

-- What an action may raise: `Aborted`, another exception with the name of its class and its text,
-- or a KeyboardInterrupt, which `except Exception` does not catch. `out_of_fuel` marks a loop that was
-- still running.
pub data Raised : Type 0 where
  aborted : String → Raised
  error : String → String → Raised
  interrupt out_of_fuel : Raised

pub data Result (A : Type 0) : Type 0 where
  ok : A → Result A
  raise : Raised → Result A

-- The state of `TestRunner.run`: the calls so far, the latest first, and its local variables.
pub record Run : Type 0 where
  pub calls : List Call
  pub baseline : Option Checklist
  pub outcome : Option Outcome
  pub restore : Option Checklist
  pub locked : Bool
  pub touched : Bool

abbrev pub begin : Run
begin = record {
  calls = [];
  baseline = none;
  outcome = none;
  restore = none;
  locked = false;
  touched = false;
}

abbrev pub Action : Type 0 → Type 0
Action A = Run → Result A × Run

abbrev pub pure : {A : Type 0} → A → Action A
pure a s = (ok a, s)

abbrev pub throw : {A : Type 0} → Raised → Action A
throw e s = (raise e, s)

abbrev pub modify : (Run → Run) → Action (Unit {0})
modify f s = (ok tt, f s)

abbrev pub continue : {A B : Type 0} → Result A → (A → Action B) → Action B
continue (ok a) f s = f a s
continue (raise e) f s = (raise e, s)

infixl 5 ◌>>=◌ ◌>>◌
abbrev pub ◌>>=◌ : {A B : Type 0} → Action A → (A → Action B) → Action B
◌>>=◌ m f s = continue (m s).0 f (m s).1

abbrev pub ◌>>◌ : {B : Type 0} → Action (Unit {0}) → Action B → Action B
m >> n = m >>= (λ _. n)

-- `except Exception`: an interrupt passes.
abbrev pub handle : {A : Type 0} → Result A → (String → Action A) → Action A
handle (ok a) h s = (ok a, s)
handle (raise (aborted e)) h s = h e s
handle (raise (error k e)) h s = h (k <> ": " <> e) s
handle (raise interrupt) h s = (raise interrupt, s)
handle (raise out_of_fuel) h s = (raise out_of_fuel, s)

abbrev pub try_except : {A : Type 0} → Action A → (String → Action A) → Action A
try_except m h s = handle (m s).0 h (m s).1

abbrev pub from_reply : {A : Type 0} → Reply A → Result A
from_reply (returns a) = ok a
from_reply (fails k e) = raise (error k e)
from_reply interrupts = raise interrupt

module _ (env : Env) where
  abbrev pub perform : (c : Call) → Action (Answer c)
  perform c s = (from_reply (env.answer c s.calls), record s { calls = c ∷ s.calls })

  -- A call whose result is not used.
  abbrev pub order : Call → Action (Unit {0})
  order c = perform c >>= (λ _. pure tt)

  abbrev pub clock_now : Run → Time
  clock_now s = env.now s.calls

-- The clock of an environment does not go back, and sleeping moves it.
pub record Ticks (env : Env) : Type 0 where
  pub forward : (c : Call) (calls : List Call) → env.now calls ≤ env.now (c ∷ calls)
  pub slept : (ms : ℕ) (calls : List Call) → env.now calls + ms ≤ env.now (sleep ms ∷ calls)
