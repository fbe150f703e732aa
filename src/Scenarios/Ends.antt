-- ===== src/Scenarios/Ends.antt =====
-- The scenarios end (ha-test/hatest/scenarios.py): with a clock that does not go back and that
-- sleeping moves, no loop uses up its fuel.
pub mod Runs
use spr1n6_osscontest_server.Common.{
  ℕ, zero, suc, ◌+◌, ◌*◌, ◌/◌, ◌≤◌, ◌<◌, ◌≡◌, ◌≢◌, refl, String, Bool, true, false, Option, none,
  some, List, [], ◌∷◌, arith, ◌||◌, ◌&&◌, not, ltb, ◌==◌, if◌then◌else◌, lookup, filter, is_some,
  is_empty, head, ◌<>◌, Dict,
}
use spr1n6_osscontest_server.Common.Int.{ℤ}
use spr1n6_osscontest_server.Config.{Config, node_names}
use spr1n6_osscontest_server.Baseline.{list_eq}
use spr1n6_osscontest_server.Model.{Time, Member, Snapshot, is_running, leader_names}
use spr1n6_osscontest_server.Runner.Effects.{
  Call, members, vip_holders, ssh_ok, kill_db_stack, recorder_recent, recorder_logs,
  recorder_insert, probe_tags, boot_id, revive_db_stack, replica_visibility, replication, snapshot,
  snapshot_without_aws, stop_service, start_service, watch_vip, vip_moved, mark, sleep, Env, Ticks,
  Run, Action, raise, Raised, out_of_fuel, clock_now,
}
use spr1n6_osscontest_server.Runner.Ends.{
  Allows, Allows-mono, Ends, Ends-mono, Ends-pure, Ends-throw, Ends-perform, Ends->>=, Ends-if,
  Ends-sleep, Ends-test,
}
use spr1n6_osscontest_server.Runner.Restore.{reboot_wait, rounds, held_by}
use spr1n6_osscontest_server.Scenarios.{
  promote_limit, follow_margin, rejoin_limit, vip_follow_limit, h6_limit, WriteState,
  write_state_of, is_resumed, is_writing, or_key_error, or_first, is_first, write_state, wait_ssh,
  note_round, mark_leader, follow_promotion, kill_and_follow, follow_member, is_streaming,
  follow_rejoin, follow, follow_vip, see_vip, joined,
}

-- `rest * pause`, by recursion.
abbrev pauses : ℕ → Time → Time
pauses zero pause = 0
pauses (suc rest) pause = pause + pauses rest pause

module _ (env : Env) (k : Ticks env) {E : Raised → Type 0} where
  write_state-Ends :
      {t : Time} → Allows env t E → (since : Time) → Ends env t E (write_state env since)
  unfolding write_state
  write_state-Ends a since =
      Ends->>= (Ends-perform k a recorder_recent)
        (λ attempts. Ends-pure (write_state_of since attempts))

  pub or_key_error-Ends :
      {t : Time} {A : Type 0}
      → Allows env t E
      → (key : String) (o : Option A) → Ends env t E (or_key_error key o)
  or_key_error-Ends a key none = Ends-throw _ (a.errors _ _)
  or_key_error-Ends a key (some v) = Ends-pure v

  wait_ssh-Ends :
      (rest : ℕ) (t started : Time) (node : String)
      → Allows env t E
      → started + reboot_wait < t + 3000 * rest
      → Ends env t E (wait_ssh env (suc rest) started node)
  unfolding wait_ssh
  wait_ssh-Ends zero t started node a h = Ends->>= (Ends-perform k a (ssh_ok node)) (λ up.
      Ends-if up (Ends-pure tt) (
        Ends-test (λ s. ltb (started + reboot_wait) (clock_now env s))
          (λ _ _ _. Ends-throw _ (a.errors _ _)) (λ s early late. ground arith)))
  wait_ssh-Ends (suc rest) t started node a h = Ends->>= (Ends-perform k a (ssh_ok node)) (λ up.
      Ends-if up (Ends-pure tt) (
        Ends-test (λ s. ltb (started + reboot_wait) (clock_now env s))
          (λ _ _ _. Ends-throw _ (a.errors _ _))
          (λ _ _ _. Ends-sleep k a 3000 (
            wait_ssh-Ends rest (t + 3000) started node (Allows-mono (omega arith) a)
              (omega (arith, h))))))

  mark_leader-Ends :
      {t : Time} → Allows env t E → (o : Option String) → Ends env t E (mark_leader env o)
  mark_leader-Ends a none = Ends-pure tt
  mark_leader-Ends a (some n) = Ends-perform k a (mark _)

  note_round-Ends :
      {t : Time}
      → Allows env t E
      → (new : Option String) (leaders : List String) (before now : Bool)
      → Ends env t E (note_round env new leaders before now)
  note_round-Ends a new leaders before now =
      Ends->>= (Ends-if (is_first new leaders) (mark_leader-Ends a (head leaders)) (Ends-pure tt))
        (λ _. Ends-if (now && not before) (Ends-perform k a (mark "쓰기 재개")) (Ends-pure tt))

  follow_promotion-Ends :
      (rest : ℕ) (t started since : Time) (old : String) (new : Option String) (before : Bool)
      → Allows env t E
      → started + 65_000 ≤ t + 2000 * rest
      → Ends env t E (follow_promotion env (suc rest) started since old new before)
  unfolding follow_promotion
  follow_promotion-Ends zero t started since old new before a h =
      Ends-test (λ s. ltb (clock_now env s) (started + 65_000)) (λ s early late. ground arith)
        (λ _ _ _. Ends-pure new)
  follow_promotion-Ends (suc rest) t started since old new before a h =
      Ends-test (λ s. ltb (clock_now env s) (started + 65_000))
        (λ _ _ _. Ends->>= (Ends-perform k a members) (λ d.
          Ends->>= (write_state-Ends a since) (λ w.
            Ends->>=
              (note_round-Ends a new (filter (λ n. not (n == old)) (leader_names d)) before
                (is_resumed w))
              (λ _.
                Ends-if
                  (is_some (or_first new (filter (λ n. not (n == old)) (leader_names d)))
                    && (before || is_resumed w))
                  (Ends-pure (or_first new (filter (λ n. not (n == old)) (leader_names d))))
                  (Ends-sleep k a 2000 (
                    follow_promotion-Ends rest (t + 2000) started since old
                      (or_first new (filter (λ n. not (n == old)) (leader_names d)))
                      (before || is_resumed w) (Allows-mono (omega arith) a)
                      (omega (arith, h))))))))
        (λ _ _ _. Ends-pure new)

  -- An action that starts by reading the clock.
  pub Ends-at :
      {A : Type 0} {t : Time} {m : Time → Action A}
      → ((u : Time) → t ≤ u → Ends env u E (m u))
      → Ends env t E (λ s. m (clock_now env s) s)
  Ends-at e = record {
    later = λ s h. (e (clock_now env s) h).later s (omega arith);
    raised = λ s h. (e (clock_now env s) h).raised s (omega arith);
    kept = λ s h. (e (clock_now env s) h).kept s (omega arith);
  }

  pub kill_and_follow-Ends :
      {t : Time} → Allows env t E → (old : String) → Ends env t E (kill_and_follow env old)
  unfolding kill_and_follow
  kill_and_follow-Ends a old = Ends->>= (Ends-perform k a (kill_db_stack old)) (λ injection.
      Ends->>=
        (Ends->>= (Ends-perform k a (mark ("장애 주입: " <> old <> " 강제 종료"))) (λ _. Ends-at (λ u h.
          follow_promotion-Ends 33 u u injection.at old none false (Allows-mono h a)
            (omega arith))))
        (λ new. Ends-pure (injection, new)))

  pub reconnect-Ends :
      {t : Time}
      → Allows env t E
      → (node : String)
      → Ends env t E (λ s. wait_ssh env (rounds reboot_wait 3000) (clock_now env s) node s)
  reconnect-Ends a node = Ends-at (λ u h. wait_ssh-Ends 81 u u node (Allows-mono h a) (omega arith))

  follow_member-Ends :
      (rest : ℕ) (t started limit pause : Time) (done : Member → Bool) (node : String)
      → Allows env t E
      → started + limit ≤ t + pauses rest pause
      → Ends env t E (follow_member env (suc rest) started limit pause done node)
  unfolding follow_member
  follow_member-Ends zero t started limit pause done node a h =
      Ends-test (λ s. ltb (clock_now env s) (started + limit)) (λ s early late. ground arith)
        (λ _ _ _. Ends-pure none)
  follow_member-Ends (suc rest) t started limit pause done node a h =
      Ends-test (λ s. ltb (clock_now env s) (started + limit))
        (λ _ _ _. Ends->>= (Ends-perform k a members) (λ d.
          Ends->>= (or_key_error-Ends a node (lookup node d)) (λ m.
            Ends-if (done m) (Ends-pure (some m.observed_at)) (
              Ends-sleep k a pause (
                follow_member-Ends rest (t + pause) started limit pause done node
                  (Allows-mono (omega arith) a) (omega (arith, h)))))))
        (λ _ _ _. Ends-pure none)

  pub follow_rejoin-Ends :
      {t : Time} → Allows env t E → (node : String) → Ends env t E (follow_rejoin env node)
  unfolding follow_rejoin
  follow_rejoin-Ends a node = Ends-at (λ u h.
      Ends->>=
        (follow_member-Ends 91 u u rejoin_limit 2000 (is_streaming env) node (Allows-mono h a)
          (omega arith))
        (λ at. Ends-pure (joined env at)))

  pub follow-Ends :
      {t : Time}
      → Allows env t E
      → (done : Member → Bool) (node : String) → Ends env t E (follow env done node)
  unfolding follow
  follow-Ends a done node = Ends-at (λ u h.
      Ends->>= (follow_member-Ends 121 u u h6_limit 500 done node (Allows-mono h a) (omega arith))
        (λ at. Ends-pure (joined env at)))

  follow_vip-Ends :
      (rest : ℕ) (t started : Time) (target : String) (since : Time)
      → Allows env t E
      → started + vip_follow_limit ≤ t + 1000 * rest
      → Ends env t E (follow_vip env (suc rest) started target since)
  unfolding follow_vip
  follow_vip-Ends zero t started target since a h =
      Ends-test (λ s. ltb (clock_now env s) (started + vip_follow_limit))
        (λ s early late. ground arith) (λ _ _ _. Ends-pure tt)
  follow_vip-Ends (suc rest) t started target since a h =
      Ends-test (λ s. ltb (clock_now env s) (started + vip_follow_limit))
        (λ _ _ _. Ends->>= (Ends-perform k a vip_holders) (λ d.
          Ends->>= (write_state-Ends a since) (λ w.
            Ends-if (list_eq (held_by d) (target ∷ []) && is_writing w) (Ends-pure tt) (
              Ends-sleep k a 1000 (
                follow_vip-Ends rest (t + 1000) started target since (Allows-mono (omega arith) a)
                  (omega (arith, h)))))))
        (λ _ _ _. Ends-pure tt)

  pub see_vip-Ends :
      {t : Time}
      → Allows env t E
      → (target : String) (since : Time) → Ends env t E (see_vip env target since)
  unfolding see_vip
  see_vip-Ends a target since =
      Ends-at (λ u h. follow_vip-Ends 31 u u target since (Allows-mono h a) (omega arith))
