-- ===== src/Cluster/Owner.antt =====
-- What the answers of the two proxies say of the VIP (`aws_vip_owner` in ha-test/hatest/cluster.py).
use spr1n6_osscontest_server.Common.{
  ◌≡◌, ap, ◌≢◌, ◌↔◌, ◌⊎◌, inl, inr, String, Option, some, [], ◌∷◌, arith, eq_iff, some_eq_iff, Dict,
}
use spr1n6_osscontest_server.Config.{Config}
use spr1n6_osscontest_server.Cluster.{
  RemoteResult, aws_value, aws_vip_owner, judge, holders_of, errors_of, results_of,
}

-- The only holder among two answers, in which nothing is wrong.
abbrev pub IsHeldBy : (run : String → RemoteResult) → String → String → Type 0
IsHeldBy run holder other = (aws_value (run holder) ≡ some "1") × (aws_value (run other) ≡ some "0")

abbrev pair_of : (String → RemoteResult) → String → String → Dict RemoteResult
pair_of run a b = (a, run a) ∷ (b, run b) ∷ []

results_of-pair :
    (run : String → RemoteResult) (a b : String)
    → a ≢ b
    → results_of run (a ∷ b ∷ []) [] ≡ pair_of run a b
results_of-pair run a b h = ground (arith, eq_iff a b)

module _ (run : String → RemoteResult) (a b : String) where
  abbrev judged : Option String × Option String
  judged = judge (holders_of (pair_of run a b)) (errors_of (pair_of run a b))

  holder-of_judged :
      (n : String) → judged.0 ≡ some n → ((a ≡ n) × IsHeldBy run a b) ⊎ ((b ≡ n) × IsHeldBy run b a)
  holder-of_judged n h = ground (
    arith,
    some_eq_iff (aws_value (run a)) "1",
    some_eq_iff (aws_value (run a)) "0",
    some_eq_iff (aws_value (run b)) "1",
    some_eq_iff (aws_value (run b)) "0",
  )

  judged-of_holder :
      (n : String) → ((a ≡ n) × IsHeldBy run a b) ⊎ ((b ≡ n) × IsHeldBy run b a) → judged.0 ≡ some n
  judged-of_holder n (inl (e, h)) = rw (h.0, h.1) (ap some e)
  judged-of_holder n (inr (e, h)) = rw (h.0, h.1) (ap some e)

-- Where the two proxies are different nodes, `aws_vip_owner` names an owner exactly when this
-- proxy answered that it has the VIP and the other one answered that it does not.
pub aws_vip_owner-some_iff :
    (run : String → RemoteResult) (c : Config) (n : String)
    → c.vip_owner ≢ c.standby_proxy
    → ((aws_vip_owner run c).0 ≡ some n) ↔ (
        ((c.vip_owner ≡ n) × IsHeldBy run c.vip_owner c.standby_proxy)
        ⊎ ((c.standby_proxy ≡ n) × IsHeldBy run c.standby_proxy c.vip_owner))
unfolding aws_vip_owner
aws_vip_owner-some_iff run c n h = rw (results_of-pair run c.vip_owner c.standby_proxy h) (
  (λ k. holder-of_judged run c.vip_owner c.standby_proxy n k),
  (λ k. judged-of_holder run c.vip_owner c.standby_proxy n k),
)
