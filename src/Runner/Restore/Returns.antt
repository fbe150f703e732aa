-- ===== src/Runner/Restore/Returns.antt =====
-- What holds when the restoring of the cluster returns (`restore_cluster` in
-- ha-test/hatest/runner.py).
use spr1n6_osscontest_server.Common.{
  ℕ, zero, suc, ◌+◌, ◌≡◌, refl, inl, inr, String, Bool, true, false, Option, [], ◌∷◌, ltb,
  if◌then◌else◌, Dict, Bool-cases, ◌∙◌, ap,
}
use spr1n6_osscontest_server.Config.{Config}
use spr1n6_osscontest_server.Model.{Time}
use spr1n6_osscontest_server.Baseline.{list_eq}
use spr1n6_osscontest_server.Baseline.Items.{list_eq_iff}
use spr1n6_osscontest_server.Runner.Effects.{
  Env, Run, Action, Result, ok, raise, pure, perform, clock_now, continue, from_reply, returns,
  fails, interrupts, ◌>>=◌, ◌>>◌, sleep, vip_holders, Reply,
}
use spr1n6_osscontest_server.Runner.Restore.{
  vip_return_wait, rounds, wait_until, await, lead_again, await_vip, restore_cluster, vip_is_back,
  require, held_by,
}

-- A bind that returned: both parts did.
>>=-ok :
    {A B : Type 0} (m : Action A) (f : A → Action B) (s : Run) (b : B)
    → ((m >>= f) s).0 ≡ ok b
    → (a : A) × ((m s).0 ≡ ok a) × ((f a (m s).1).0 ≡ ok b) × (((m >>= f) s).1 ≡ (f a (m s).1).1)
>>=-ok {A} {B} m f s b h = inside (m s).0 h
  where
    inside :
        (r : Result A)
        → (continue r f (m s).1).0 ≡ ok b
        → (a : A) × (r ≡ ok a)
          × ((f a (m s).1).0 ≡ ok b)
          × ((continue r f (m s).1).1 ≡ (f a (m s).1).1)
    inside (ok a) h = (a, refl, h, refl)
    inside (raise e) h = cc

-- `m` returned true as `done` did at some state, and in the state where that left it.
abbrev Last : Action Bool → Result Bool × Run → Type 0
Last done r = (at : Run) × ((done at).0 ≡ ok true) × (r.1 ≡ (done at).1)

module _ (env : Env) (again done : Action Bool) where
  abbrev next : Bool → Action Bool
  next d = if d then pure true else perform env (sleep 2000) >> again

  next-true :
      (d : Bool) (at : Run)
      → (done at).0 ≡ ok d
      → (next d (done at).1).0 ≡ ok true
      → ((u : Run) → (again u).0 ≡ ok true → Last done (again u))
      → Last done (next d (done at).1)
  next-true true at e h ih = (at, e, refl)
  next-true false at e h ih =
      let (u, _, q, k) = >>=-ok (perform env (sleep 2000)) (λ _. again) (done at).1 true h in
      let (v, p, r) = ih _ q in (v, p, k ∙ r)

  round-true :
      (s : Run)
      → ((done >>= next) s).0 ≡ ok true
      → ((u : Run) → (again u).0 ≡ ok true → Last done (again u))
      → Last done ((done >>= next) s)
  round-true s h ih =
      let (d, e, k, l) = >>=-ok done next s true h in
      let (v, p, q) = next-true d s e k ih in (v, p, l ∙ q)

abbrev back_to : Config → Dict (Option Bool) → Action Bool
back_to c d = pure (list_eq (held_by d) (c.vip_owner ∷ []))

abbrev asked : Run → Run
asked s = record s { calls = vip_holders ∷ s.calls }

module _ (env : Env) (c : Config) where
  -- A wait that succeeds ends with the look that succeeded.
  wait_until-true :
      (fuel : ℕ) (started limit : Time) (done : Action Bool) (s : Run)
      → (wait_until env c fuel started limit done s).0 ≡ ok true
      → Last done (wait_until env c fuel started limit done s)
  unfolding wait_until
  wait_until-true zero started limit done s h = cc
  wait_until-true (suc fuel) started limit done s h =
      elim (Bool-cases (ltb (clock_now env s) (started + limit))) [
        | inl early ↦ rw early (
            round-true env (wait_until env c fuel started limit done) done s (rw early at h)
              (λ u. wait_until-true fuel started limit done u))
        | inr late ↦ rw late (s, rw late at h, refl)
      ]

  require-ok :
      (e : String) (b : Bool) (s : Run) (u : Unit {0}) → (require env c e b s).0 ≡ ok u → b ≡ true
  require-ok e true s u h = refl
  require-ok e false s u h = cc

  require-state : (e : String) (b : Bool) (s : Run) → (require env c e b s).1 ≡ s
  require-state e true s = refl
  require-state e false s = refl

  look-true :
      (s : Run)
      → (vip_is_back env c s).0 ≡ ok true
      → (holders : Dict (Option Bool)) × (env.answer vip_holders s.calls ≡ returns holders)
        × (held_by holders ≡ c.vip_owner ∷ [])
        × ((vip_is_back env c s).1.calls ≡ vip_holders ∷ s.calls)
  look-true s h = inside (env.answer vip_holders s.calls) refl h
    where
      inside :
          (r : Reply (Dict (Option Bool)))
          → env.answer vip_holders s.calls ≡ r
          → (continue (from_reply r) (back_to c) (asked s)).0 ≡ ok true
          → (holders : Dict (Option Bool)) × (env.answer vip_holders s.calls ≡ returns holders)
            × (held_by holders ≡ c.vip_owner ∷ [])
            × ((continue (from_reply r) (back_to c) (asked s)).1.calls ≡ vip_holders ∷ s.calls)
      inside (returns d) e h = (d, e, (list_eq_iff (held_by d) (c.vip_owner ∷ [])).0 (cc), refl)
      inside (fails k m) e h = cc
      inside interrupts e h = cc

  await_vip-returns :
      (m : Action (Unit {0})) (s : Run)
      → (await_vip env c m s).0 ≡ ok tt
      → (at : Run) × (holders : Dict (Option Bool)) × (env.answer vip_holders at.calls
          ≡ returns holders)
        × (held_by holders ≡ c.vip_owner ∷ [])
        × ((await_vip env c m s).1.calls ≡ vip_holders ∷ at.calls)
  unfolding await_vip await
  await_vip-returns m s h =
      let (b, e, q, k) =
        >>=-ok (m >> await env c vip_return_wait (vip_is_back env c))
          (require env c "VIP 가 돌아오지 않았다") s tt h in
      let good : b ≡ true = require-ok "VIP 가 돌아오지 않았다" b _ tt q in
      let (u, e2, q2, k2) = >>=-ok m (λ _. await env c vip_return_wait (vip_is_back env c)) s b e in
      let (at, p, l) =
        wait_until-true (rounds vip_return_wait 2000) (clock_now env (m s).1) vip_return_wait
          (vip_is_back env c) (m s).1 (q2 ∙ ap ok good) in
      let (d, a, held, seen) = look-true at p in
      (at, d, a, held, ap (λ r. r.calls) (k ∙ require-state _ b _ ∙ k2 ∙ l) ∙ seen)

  -- If restoring the cluster returns without raising, then its last call asked for the holders of the
  -- VIP, and the answer named the owner of the configuration and no other node.
  pub restore_cluster-returns :
      (s : Run)
      → (restore_cluster env c s).0 ≡ ok tt
      → (at : Run) × (holders : Dict (Option Bool)) × (env.answer vip_holders at.calls
          ≡ returns holders)
        × (held_by holders ≡ c.vip_owner ∷ [])
        × ((restore_cluster env c s).1.calls ≡ vip_holders ∷ at.calls)
  unfolding restore_cluster
  restore_cluster-returns s h = await_vip-returns (lead_again env c (clock_now env s)) s h
