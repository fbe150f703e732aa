-- ===== src/Model/Lag.antt =====
-- The lag of a replica (`lag_bytes` in ha-test/hatest/model.py).
use spr1n6_osscontest_server.Common.{
  ℕ, ◌-◌, ◌≡◌, refl, inl, inr, ◌↔◌, String, true, Option, none, some, List, [], ◌∷◌, filter, Dict,
  lookup, Bool-cases,
}
use spr1n6_osscontest_server.Model.{
  Member, is_leader, is_replica, values, lag_bytes, only, behind, lag_from,
}

-- What makes the lag of a node known: there is one Leader with a known position, and the node is a
-- Replica with a known position.
pub record IsLag (members : Dict Member) (node : String) (lag : ℕ) : Type 0 where
  pub top : Member
  pub own : Member
  pub ahead : ℕ
  pub at : ℕ
  pub alone : filter is_leader (values members) ≡ top ∷ []
  pub found : lookup node members ≡ some own
  pub follows : is_replica own ≡ true
  pub top_at : top.wal_position ≡ some ahead
  pub own_at : own.wal_position ≡ some at
  pub gap : lag ≡ ahead - at

module _ (members : Dict Member) (node : String) (lag : ℕ) where
  behind-IsLag :
      (top own : Member) (p q : Option ℕ)
      → filter is_leader (values members) ≡ top ∷ []
      → lookup node members ≡ some own
      → is_replica own ≡ true
      → top.wal_position ≡ p
      → own.wal_position ≡ q
      → behind p q ≡ some lag
      → IsLag members node lag
  behind-IsLag top own (some a) (some b) l f r h k e = record {
    top = top;
    own = own;
    ahead = a;
    at = b;
    alone = l;
    found = f;
    follows = r;
    top_at = h;
    own_at = k;
    gap = cc;
  }
  behind-IsLag top own none q l f r h k e = cc
  behind-IsLag top own (some a) none l f r h k e = cc

  lag_from-IsLag :
      (ls : List Member) (o : Option Member)
      → filter is_leader (values members) ≡ ls
      → lookup node members ≡ o
      → lag_from (only ls) o ≡ some lag
      → IsLag members node lag
  lag_from-IsLag (top ∷ []) (some own) h k e = elim (Bool-cases (is_replica own)) [
    | inl r ↦ behind-IsLag top own top.wal_position own.wal_position h k r refl refl (rw r at e)
    | inr r ↦ absurd (none_some (rw r at e))
  ]
    where
      none_some : none ≡ some lag → ⊥
      none_some e = cc
  lag_from-IsLag [] o h k e = cc
  lag_from-IsLag (top ∷ x ∷ xs) o h k e = cc
  lag_from-IsLag (top ∷ []) none h k e = cc

-- The lag of a node is a number exactly when there is one Leader and the node is a Replica, and the
-- positions of both are known: it is how far the Leader is ahead, and 0 where it is not ahead.
pub lag_bytes-IsLag :
    (members : Dict Member) (node : String) (lag : ℕ)
    → (lag_bytes members node ≡ some lag) ↔ IsLag members node lag
unfolding lag_bytes
lag_bytes-IsLag members node lag = (
  (λ h.
      lag_from-IsLag members node lag (filter is_leader (values members)) (lookup node members) refl
        refl h),
  (λ k. rw (k.alone, k.found, k.follows, k.top_at, k.own_at, k.gap) refl),
)
