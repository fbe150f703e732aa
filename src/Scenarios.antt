-- ===== src/Scenarios.antt =====
-- What the scenarios share (ha-test/hatest/scenarios.py): the limits, and the loops that follow a
-- change on the cluster. Lines of progress are left out. Loops run on fuel.
pub mod Replication
pub mod Failover
pub mod Retention
pub mod ProxyFailover
pub mod ReadDistribution
pub mod NodeStatus
pub mod Table
pub mod Ends
pub mod Meaning
pub mod Searches
mod Tests
use spr1n6_osscontest_server.Common.{
  ℕ, zero, suc, ◌+◌, ◌/◌, String, Bool, true, false, Option, none, some, List, [], ◌∷◌, ◌||◌, ◌&&◌,
  not, ltb, leb, ◌==◌, if◌then◌else◌, Dict, lookup, some_eq, filter, any, last, is_some, is_empty,
  ◌<>◌, head, or_else,
}
use spr1n6_osscontest_server.Common.Sort.{sort_by, by_key}
use spr1n6_osscontest_server.Config.{Config}
use spr1n6_osscontest_server.Model.{
  Time, Member, ProbeAttempt, Injection, is_leader, is_replica, is_running, leader_names,
}
use spr1n6_osscontest_server.Baseline.{list_eq}
use spr1n6_osscontest_server.Runner.Effects.{
  Call, members, vip_holders, ssh_ok, kill_db_stack, recorder_recent, mark, sleep, Env, Run, Action,
  pure, throw, error, out_of_fuel, perform, clock_now, ◌>>=◌, ◌>>◌,
}
use spr1n6_osscontest_server.Runner.Restore.{reboot_wait, rounds, held_by}

abbrev pub promote_limit : Time
promote_limit = 45_000

abbrev pub vip_write_limit : Time
vip_write_limit = 5000

abbrev pub replication_limit : Time
replication_limit = 1000

abbrev pub follow_margin : Time
follow_margin = 20_000

abbrev pub rejoin_limit : Time
rejoin_limit = 180_000

abbrev pub vip_follow_limit : Time
vip_follow_limit = 30_000

abbrev pub h6_limit : Time
h6_limit = 60_000

-- What the recent writes show: none yet, normal, resumed after a failure, or failing.
pub data WriteState : Type 0 where
  unseen normal recovered failing : WriteState

abbrev state_of : List ProbeAttempt → Option ProbeAttempt → WriteState
state_of recent none = unseen
state_of recent (some a) =
    if a.ok then (if any (λ b. not b.ok) recent then recovered else normal) else failing

-- `_write_state` on the attempts that were read.
unfoldable pub write_state_of : Time → List ProbeAttempt → WriteState
write_state_of since attempts =
    let recent = sort_by (by_key (λ a. a.start)) (filter (λ a. leb since a.start) attempts) in
    state_of recent (last recent)

abbrev pub is_resumed : WriteState → Bool
is_resumed recovered = true
is_resumed _ = false

-- A write that was seen, and is not failing.
abbrev pub is_writing : WriteState → Bool
is_writing normal = true
is_writing recovered = true
is_writing _ = false

abbrev pub or_key_error : {A : Type 0} → String → Option A → Action A
or_key_error key none = throw (error "KeyError" key)
or_key_error key (some a) = pure a

abbrev pub or_first : Option String → List String → Option String
or_first none names = head names
or_first (some n) names = some n

-- `first_seen`: there was no new Leader yet, and there is one now.
abbrev pub is_first : Option String → List String → Bool
is_first none names = not (is_empty names)
is_first (some n) names = false

module _ (env : Env) where
  unfoldable pub write_state : Time → Action WriteState
  write_state since =
      perform env recorder_recent >>= (λ attempts. pure (write_state_of since attempts))

  unfoldable pub wait_ssh : ℕ → Time → String → Action (Unit {0})
  wait_ssh zero started node = throw out_of_fuel
  wait_ssh (suc fuel) started node =
      let again = wait_ssh fuel started node in
      perform env (ssh_ok node) >>= (λ up. if up then pure tt else (λ s.
        if ltb (started + reboot_wait) (clock_now env s)
        then throw (error "ScenarioError" (node <> " 가 240초 안에 접속되지 않는다")) s
        else (perform env (sleep 3000) >> again) s))

  abbrev mark_leader : Option String → Action (Unit {0})
  mark_leader none = pure tt
  mark_leader (some n) = perform env (mark ("새 Leader " <> n))

  -- One round of the loop of `_kill_and_follow` has seen the members and the writes.
  abbrev note_round : Option String → List String → Bool → Bool → Action (Unit {0})
  note_round new leaders resumed now_resumed =
      (if is_first new leaders then mark_leader (head leaders) else pure tt)
      >> (if now_resumed && not resumed then perform env (mark "쓰기 재개") else pure tt)

  -- The loop of `_kill_and_follow`; its result is the new Leader.
  unfoldable pub follow_promotion :
      ℕ → Time → Time → String → Option String → Bool → Action (Option String)
  unfolding write_state
  follow_promotion zero started since old new resumed s = throw out_of_fuel s
  follow_promotion (suc fuel) started since old new resumed s =
      if ltb (clock_now env s) (started + (promote_limit + follow_margin))
      then (perform env members >>= (λ d. write_state since >>= (λ w.
            let leaders = filter (λ n. not (n == old)) (leader_names d) in
            let found = or_first new leaders in
            let writes = resumed || is_resumed w in
            let again = follow_promotion fuel started since old found writes in
            note_round new leaders resumed (is_resumed w)
            >> (if is_some found && writes
                then pure found
                else perform env (sleep 2000) >> again))))
          s
      else pure new s

  -- `_kill_and_follow`
  unfoldable pub kill_and_follow : String → Action (Injection × Option String)
  unfolding follow_promotion
  kill_and_follow old = perform env (kill_db_stack old) >>= (λ injection.
      perform env (mark ("장애 주입: " <> old <> " 강제 종료"))
      >> (λ s.
          follow_promotion (rounds (promote_limit + follow_margin) 2000) (clock_now env s)
            injection.at old none false s)
      >>= (λ new. pure (injection, new)))

  -- A loop that looks at one member until it satisfies `done` (`_follow_rejoin` and `_follow`). The
  -- outer option is the time that the member was observed, which may be unknown.
  unfoldable pub follow_member :
      ℕ → Time → Time → Time → (Member → Bool) → String → Action (Option (Option Time))
  follow_member zero started limit pause done node s = throw out_of_fuel s
  follow_member (suc fuel) started limit pause done node s =
      let again = follow_member fuel started limit pause done node in
      if ltb (clock_now env s) (started + limit)
      then (perform env members >>= (λ d. or_key_error node (lookup node d) >>= (λ m.
            if done m then pure (some m.observed_at) else perform env (sleep pause) >> again)))
          s
      else pure none s

  abbrev joined : Option (Option Time) → Option Time
  joined none = none
  joined (some at) = at

  abbrev pub is_streaming : Member → Bool
  is_streaming m = is_replica m && some_eq m.state "streaming"

  -- `_follow_rejoin`
  unfoldable pub follow_rejoin : String → Action (Option Time)
  unfolding follow_member
  follow_rejoin node s =
      (follow_member (rounds rejoin_limit 2000) (clock_now env s) rejoin_limit 2000 is_streaming
            node
          >>= (λ at. pure (joined at)))
        s

  -- `_follow` of H-6
  unfoldable pub follow : (Member → Bool) → String → Action (Option Time)
  unfolding follow_member
  follow done node s =
      (follow_member (rounds h6_limit 500) (clock_now env s) h6_limit 500 done node
          >>= (λ at. pure (joined at)))
        s

  -- `_follow_vip`
  unfoldable pub follow_vip : ℕ → Time → String → Time → Action (Unit {0})
  unfolding write_state
  follow_vip zero started target since s = throw out_of_fuel s
  follow_vip (suc fuel) started target since s =
      let again = follow_vip fuel started target since in
      if ltb (clock_now env s) (started + vip_follow_limit)
      then (perform env vip_holders >>= (λ d. write_state since >>= (λ w.
            if list_eq (held_by d) (target ∷ []) && is_writing w
            then pure tt
            else perform env (sleep 1000) >> again)))
          s
      else pure tt s

  unfoldable pub see_vip : String → Time → Action (Unit {0})
  unfolding follow_vip
  see_vip target since s =
      follow_vip (rounds vip_follow_limit 1000) (clock_now env s) target since s
