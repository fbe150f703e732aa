-- ===== src/Simulated/Effects.antt =====
-- Methods of the simulated cluster (ha-test/hatest/simulated.py): they change the cluster, and may
-- raise. What was changed before an exception stays.
use spr1n6_osscontest_server.Common.{String, Option, none, some, lookup}
use spr1n6_osscontest_server.Simulated.{Cluster, NodeState}

pub data Fault : Type 0 where
  key_error cluster_error : String → Fault
  stop_iteration : Fault

pub data Reply (A : Type 0) : Type 0 where
  value : A → Reply A
  raises : Fault → Reply A

abbrev pub Method : Type 0 → Type 0
Method A = Cluster → Reply A × Cluster

abbrev pub pure : {A : Type 0} → A → Method A
pure a c = (value a, c)

abbrev pub throw : {A : Type 0} → Fault → Method A
throw e c = (raises e, c)

abbrev pub modify_cluster : (Cluster → Cluster) → Method (Unit {0})
modify_cluster f c = (value tt, f c)

abbrev pub read : {A : Type 0} → (Cluster → A) → Method A
read f c = (value (f c), c)

abbrev pub continue : {A B : Type 0} → Reply A → (A → Method B) → Method B
continue (value a) f c = f a c
continue (raises e) f c = (raises e, c)

infixl 5 ◌>>=◌ ◌>>◌
abbrev pub ◌>>=◌ : {A B : Type 0} → Method A → (A → Method B) → Method B
◌>>=◌ m f c = continue (m c).0 f (m c).1

abbrev pub ◌>>◌ : {B : Type 0} → Method (Unit {0}) → Method B → Method B
m >> n = m >>= (λ _. n)

abbrev pub or_raise : {A : Type 0} → Fault → Option A → Reply A
or_raise e none = raises e
or_raise e (some a) = value a

-- `self.nodes[name]`
abbrev pub node_at : String → Method NodeState
node_at name c = (or_raise (key_error name) (lookup name c.nodes), c)
