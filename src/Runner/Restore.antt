-- ===== src/Runner/Restore.antt =====
-- How a run brings the cluster back to the baseline state (`restore_cluster` in
-- ha-test/hatest/runner.py), and the commands that it shows for doing so by hand. The progress lines
-- are left out. Loops run on fuel.
pub mod Ends
pub mod Returns
use spr1n6_osscontest_server.Common.{
  ℕ, zero, suc, ◌+◌, ◌*◌, ◌/◌, String, Bool, true, false, Option, none, some, List, [], ◌∷◌, ◌||◌,
  ◌&&◌, not, ltb, ◌==◌, if◌then◌else◌, Dict, lookup, some_eq, all, ◌<>◌, ◌++◌,
}
use spr1n6_osscontest_server.Config.{Config, node, node_names, proxy_nodes}
use spr1n6_osscontest_server.Model.{
  Time, Member, NodeFacts, is_leader, is_replica, leader_names, only, truthy,
}
use spr1n6_osscontest_server.Baseline.{list_eq}
use spr1n6_osscontest_server.Runner.Effects.{
  Call, snapshot, members, vip_holders, ssh_ok, facts, revive_db_stack, start_service, switchover,
  sleep, Env, Run, Action, pure, throw, aborted, error, out_of_fuel, ok, raise, perform, order,
  clock_now, ◌>>=◌, ◌>>◌,
}

abbrev pub reboot_wait : Time
reboot_wait = 240_000

abbrev pub healthy_wait : Time
healthy_wait = 180_000

abbrev pub switchover_wait : Time
switchover_wait = 90_000

abbrev pub vip_return_wait : Time
vip_return_wait = 30_000

-- One round more than the rounds that fit into the limit.
abbrev pub rounds : Time → Time → ℕ
rounds limit pause = suc (suc (limit / pause))

abbrev pub member_leader : Dict Member → Option String
member_leader d = only (leader_names d)

-- `name != leader` implies a streaming Replica.
abbrev pub streaming_unless : String → String × Member → Bool
streaming_unless leader (name, m) =
    if name == leader then true else is_replica m && some_eq m.state "streaming"

abbrev streaming_under : Option String → Dict Member → Bool
streaming_under none d = false
streaming_under (some leader) d = all (streaming_unless leader) d

unfoldable pub all_streaming : Dict Member → Bool
all_streaming d = streaming_under (member_leader d) d

-- `member is None or not member.reachable or member.state == "stopped"`
abbrev pub is_down : Option Member → Bool
is_down none = true
is_down (some m) = not m.reachable || some_eq m.state "stopped"

abbrev pub needs_revive : Option Member → NodeFacts → Bool
needs_revive m f =
    is_down m
    || not (some_eq f.patroni_service "active")
    || not (some_eq f.patroni_enabled "enabled")

-- `[n for n, held in holders.items() if held]`
abbrev pub held_by : Dict (Option Bool) → List String
held_by [] = []
held_by ((name, held) ∷ d) = let rest = held_by d in if truthy held then name ∷ rest else rest

module _ (env : Env) (c : Config) where
  -- `while now() - started < limit`, with a pause of two seconds, and one last look.
  unfoldable pub wait_until : ℕ → Time → Time → Action Bool → Action Bool
  wait_until zero started limit done s = throw out_of_fuel s
  wait_until (suc fuel) started limit done s =
      let again = wait_until fuel started limit done in
      if ltb (clock_now env s) (started + limit)
      then (done >>= (λ d. if d then pure true else perform env (sleep 2000) >> again)) s
      else done s

  unfoldable pub await : Time → Action Bool → Action Bool
  unfolding wait_until
  await limit done s = wait_until (rounds limit 2000) (clock_now env s) limit done s

  unfoldable pub await_ssh : ℕ → Time → String → Action (Unit {0})
  await_ssh zero started name = throw out_of_fuel
  await_ssh (suc fuel) started name =
      let again = await_ssh fuel started name in
      perform env (ssh_ok name) >>= (λ up. if up then pure tt else (λ s.
        if ltb (started + reboot_wait) (clock_now env s)
        then throw (error "ScenarioError" (name <> " 에 240초 동안 접속하지 못했다")) s
        else (perform env (sleep 3000) >> again) s))

  unfoldable pub await_nodes : Time → List String → Action (Unit {0})
  unfolding await_ssh
  await_nodes started [] = pure tt
  await_nodes started (name ∷ names) =
      await_ssh (rounds reboot_wait 3000) started name >> await_nodes started names

  unfoldable pub revive_nodes : Dict Member → List String → Action (Unit {0})
  revive_nodes d [] = pure tt
  revive_nodes d (name ∷ names) =
      perform env (facts name)
      >>= (λ f.
          if needs_revive (lookup name d) f then order env (revive_db_stack name) else pure tt)
      >> revive_nodes d names

  unfoldable pub start_proxies : List String → Action (Unit {0})
  start_proxies [] = pure tt
  start_proxies (name ∷ names) =
      perform env (facts name)
      >>= (λ f.
          if some_eq f.openproxy_service "active"
          then pure tt
          else order env (start_service name "openproxy"))
      >> start_proxies names

  -- Raises unless the wait ended well.
  abbrev pub require : String → Bool → Action (Unit {0})
  require message good = if good then pure tt else throw (error "ScenarioError" message)

  abbrev pub streaming_now : Action Bool
  streaming_now = perform env members >>= (λ d. pure (all_streaming d))

  abbrev pub led_by_primary : Action Bool
  led_by_primary =
      perform env members
      >>= (λ d. if some_eq (member_leader d) c.primary then streaming_now else pure false)

  abbrev pub vip_is_back : Action Bool
  vip_is_back = perform env vip_holders >>= (λ d. pure (list_eq (held_by d) (c.vip_owner ∷ [])))

  -- `f"{None}"` is the text None.
  abbrev name_of : Option String → String
  name_of none = "None"
  name_of (some n) = n

  unfoldable pub return_leader : Option String → Action (Unit {0})
  unfolding await
  return_leader leader =
      if some_eq leader c.primary
      then pure tt
      else order env (switchover (name_of leader) c.primary)
        >> await switchover_wait led_by_primary
        >>= require "switchover 뒤 Leader 가 되지 않았다"

  -- The steps ① to ④.
  unfoldable pub lead_again : Time → Action (Unit {0})
  unfolding await await_nodes revive_nodes start_proxies return_leader
  lead_again started =
      await_nodes started (node_names c)
      >> perform env members
      >>= (λ d. revive_nodes d (node_names c))
      >> start_proxies (proxy_nodes c)
      >> await healthy_wait streaming_now
      >>= require "3대가 streaming 이 되지 않았다"
      >> perform env members
      >>= (λ d. return_leader (member_leader d))

  -- The step ⑤.
  abbrev pub await_vip : Action (Unit {0}) → Action (Unit {0})
  unfolding await
  await_vip m = m >> await vip_return_wait vip_is_back >>= require "VIP 가 돌아오지 않았다"

  unfoldable pub restore_cluster : Action (Unit {0})
  unfolding lead_again await_vip
  restore_cluster s = await_vip (lead_again (clock_now env s)) s

-- A lookup that may raise KeyError, and what follows it.
abbrev if_some : {A B : Type 0} → Option A → (A → Option B) → Option B
if_some none f = none
if_some (some a) f = f a

-- `f"ssh {config.node(name).ssh} '...'"` for each name; none is the KeyError of an unknown name.
abbrev hint_lines : Config → String → List String → Option (List String)
hint_lines c command [] = some []
hint_lines c command (name ∷ names) = if_some (node c name) (λ n.
    if_some (hint_lines c command names)
      (λ rest. some (("ssh " <> n.ssh <> " '" <> command <> "'") ∷ rest)))

unfoldable pub manual_restore_hint : Config → Option (List String)
manual_restore_hint c =
    let patronictl = "sudo -iu " <> c.db_os_user <> " patronictl -c " <> c.patroni_config in
    if_some (node c c.primary) (λ primary.
      if_some (hint_lines c "sudo systemctl enable --now patroni" (node_names c)) (λ enable.
        if_some (hint_lines c "sudo systemctl start openproxy" (proxy_nodes c)) (λ start. some (
          enable
          ++ start
          ++ (("ssh " <> primary.ssh <> " \"" <> patronictl <> " list\"")
              ∷ ("Leader 가 " <> c.primary <> " 가 아니면: ssh " <> primary.ssh <> " \"" <> patronictl
                  <> " switchover --candidate " <> primary.member <> " --force\"")
              ∷ ("VIP 주인이 " <> c.vip_owner <> " 가 아니면 " <> c.vip_owner <> " OpenProxy 를 재시작한다")
              ∷ [])))))
