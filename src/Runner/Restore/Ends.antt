-- ===== src/Runner/Restore/Ends.antt =====
-- The restoring of the cluster ends (`restore_cluster` in ha-test/hatest/runner.py): with a clock
-- that does not go back and that sleeping moves, no loop uses up its fuel.
use spr1n6_osscontest_server.Common.{
  ℕ, zero, suc, ◌+◌, ◌*◌, ◌/◌, ◌≤◌, ◌<◌, String, Bool, true, false, Option, List, [], ◌∷◌, arith,
  ltb, Dict, lookup, some_eq,
}
use spr1n6_osscontest_server.Config.{Config, node_names, proxy_nodes}
use spr1n6_osscontest_server.Model.{Time, Member}
use spr1n6_osscontest_server.Runner.Ends.{
  Allows, Allows-mono, Ends, Ends-mono, Ends-pure, Ends-throw, Ends-perform, Ends-order, Ends->>=,
  Ends-if, Ends-sleep, Ends-test,
}
use spr1n6_osscontest_server.Runner.Effects.{
  Env, Ticks, Run, Action, Raised, clock_now, ssh_ok, facts, revive_db_stack, members, switchover,
  start_service, vip_holders,
}
use spr1n6_osscontest_server.Runner.Restore.{
  reboot_wait, healthy_wait, switchover_wait, vip_return_wait, rounds, wait_until, await, await_ssh,
  await_nodes, revive_nodes, start_proxies, return_leader, restore_cluster, lead_again, await_vip,
  needs_revive, streaming_now, led_by_primary, vip_is_back, require, member_leader, all_streaming,
}

module _ (env : Env) (k : Ticks env) (c : Config) {E : Raised → Type 0} where
  wait_until-Ends :
      (rest : ℕ) (t started limit : Time) (done : Action Bool)
      → Allows env t E
      → Ends env t E done
      → started + limit ≤ t + 2000 * rest
      → Ends env t E (wait_until env c (suc rest) started limit done)
  unfolding wait_until
  wait_until-Ends zero t started limit done a e h =
      Ends-test (λ s. ltb (clock_now env s) (started + limit)) (λ s early late. ground arith)
        (λ _ _ _. e)
  wait_until-Ends (suc rest) t started limit done a e h =
      Ends-test (λ s. ltb (clock_now env s) (started + limit))
        (λ _ _ _. Ends->>= e (λ d. Ends-if d (Ends-pure true) (
          Ends-sleep k a 2000 (
            wait_until-Ends rest (t + 2000) started limit done (Allows-mono (omega arith) a)
              (Ends-mono (omega arith) e) (omega (arith, h))))))
        (λ _ _ _. e)

  await-Ends :
      (t limit : Time) (done : Action Bool)
      → Allows env t E
      → Ends env t E done
      → Ends env t E (await env c limit done)
  unfolding await
  await-Ends t limit done a e = record {
    later = λ s h. (at s h).later s (omega arith);
    raised = λ s h. (at s h).raised s (omega arith);
    kept = λ s h. (at s h).kept s (omega arith);
  }
    where
      at :
          (s : Run)
          → t ≤ clock_now env s
          → Ends env
              (clock_now env s)
              E
              (wait_until env c (rounds limit 2000) (clock_now env s) limit done)
      at s h =
          wait_until-Ends (suc (limit / 2000)) (clock_now env s) (clock_now env s) limit done
            (Allows-mono h a) (Ends-mono h e) (omega arith)

  await_ssh-Ends :
      (rest : ℕ) (t started : Time) (name : String)
      → Allows env t E
      → started + reboot_wait < t + 3000 * rest
      → Ends env t E (await_ssh env c (suc rest) started name)
  unfolding await_ssh
  await_ssh-Ends zero t started name a h = Ends->>= (Ends-perform k a (ssh_ok name)) (λ up.
      Ends-if up (Ends-pure tt) (
        Ends-test (λ s. ltb (started + reboot_wait) (clock_now env s))
          (λ _ _ _. Ends-throw _ (a.errors _ _)) (λ s early late. ground arith)))
  await_ssh-Ends (suc rest) t started name a h = Ends->>= (Ends-perform k a (ssh_ok name)) (λ up.
      Ends-if up (Ends-pure tt) (
        Ends-test (λ s. ltb (started + reboot_wait) (clock_now env s))
          (λ _ _ _. Ends-throw _ (a.errors _ _))
          (λ _ _ _. Ends-sleep k a 3000 (
            await_ssh-Ends rest (t + 3000) started name (Allows-mono (omega arith) a)
              (omega (arith, h))))))

  module _ {t : Time} (a : Allows env t E) where
    await_nodes-Ends : (names : List String) → Ends env t E (await_nodes env c t names)
    unfolding await_nodes
    await_nodes-Ends [] = Ends-pure tt
    await_nodes-Ends (name ∷ names) =
        Ends->>= (await_ssh-Ends 81 t t name a (omega arith)) (λ _. await_nodes-Ends names)

    revive_nodes-Ends :
        (d : Dict Member) (names : List String) → Ends env t E (revive_nodes env c d names)
    unfolding revive_nodes
    revive_nodes-Ends d [] = Ends-pure tt
    revive_nodes-Ends d (name ∷ names) =
        Ends->>=
          (Ends->>= (Ends-perform k a (facts name)) (λ f.
            Ends-if (needs_revive (lookup name d) f) (Ends-order k a (revive_db_stack name))
              (Ends-pure tt)))
          (λ _. revive_nodes-Ends d names)

    start_proxies-Ends : (names : List String) → Ends env t E (start_proxies env c names)
    unfolding start_proxies
    start_proxies-Ends [] = Ends-pure tt
    start_proxies-Ends (name ∷ names) =
        Ends->>=
          (Ends->>= (Ends-perform k a (facts name)) (λ f.
            Ends-if (some_eq f.openproxy_service "active") (Ends-pure tt)
              (Ends-order k a (start_service name "openproxy"))))
          (λ _. start_proxies-Ends names)

    require-Ends : (e : String) (b : Bool) → Ends env t E (require env c e b)
    require-Ends e b = Ends-if b (Ends-pure tt) (Ends-throw _ (a.errors _ _))

    streaming-Ends : Ends env t E (streaming_now env c)
    streaming-Ends = Ends->>= (Ends-perform k a members) (λ d. Ends-pure (all_streaming d))

    led-Ends : Ends env t E (led_by_primary env c)
    led-Ends =
        Ends->>= (Ends-perform k a members)
          (λ d. Ends-if (some_eq (member_leader d) c.primary) (streaming-Ends) (Ends-pure false))

    vip-Ends : Ends env t E (vip_is_back env c)
    vip-Ends = Ends->>= (Ends-perform k a vip_holders) (λ d. Ends-pure _)

    return_leader-Ends : (leader : Option String) → Ends env t E (return_leader env c leader)
    unfolding return_leader
    return_leader-Ends leader = Ends-if (some_eq leader c.primary) (Ends-pure tt) (
        Ends->>=
          (Ends->>= (Ends-order k a (switchover _ c.primary))
            (λ _. await-Ends t switchover_wait (led_by_primary env c) a led-Ends))
          (require-Ends _))

    lead_again-Ends : Ends env t E (lead_again env c t)
    unfolding lead_again
    lead_again-Ends =
        Ends->>=
          (Ends->>=
            (Ends->>=
              (Ends->>=
                (Ends->>=
                  (Ends->>=
                    (Ends->>= (await_nodes-Ends (node_names c)) (λ _. Ends-perform k a members))
                    (λ d. revive_nodes-Ends d (node_names c)))
                  (λ _. start_proxies-Ends (proxy_nodes c)))
                (λ _. await-Ends t healthy_wait (streaming_now env c) a streaming-Ends))
              (require-Ends _))
            (λ _. Ends-perform k a members))
          (λ d. return_leader-Ends (member_leader d))

    pub await_vip-Ends : (m : Action (Unit {0})) → Ends env t E m → Ends env t E (await_vip env c m)
    unfolding await_vip
    await_vip-Ends m e =
        Ends->>= (Ends->>= e (λ _. await-Ends t vip_return_wait (vip_is_back env c) a vip-Ends))
          (require-Ends _)

  pub restore_cluster-Ends : {t : Time} → Allows env t E → Ends env t E (restore_cluster env c)
  unfolding restore_cluster
  restore_cluster-Ends {t} a = record {
    later = λ s h. (at s h).later s (omega arith);
    raised = λ s h. (at s h).raised s (omega arith);
    kept = λ s h. (at s h).kept s (omega arith);
  }
    where
      at :
          (s : Run)
          → t ≤ clock_now env s
          → Ends env (clock_now env s) E (await_vip env c (lead_again env c (clock_now env s)))
      at s h = await_vip-Ends (Allows-mono h a) _ (lead_again-Ends (Allows-mono h a))
