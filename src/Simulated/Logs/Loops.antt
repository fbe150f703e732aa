-- ===== src/Simulated/Logs/Loops.antt =====
-- The loop that makes up the log of the writes (`_probe_log` in ha-test/hatest/simulated.py).
use spr1n6_osscontest_server.Common.{
  ℕ, zero, suc, ◌+◌, ◌-◌, ◌*◌, ◌≤◌, ◌<◌, ◌≡◌, refl, inl, inr, String, true, arith, ltb, ◌<>◌, str,
  Dict, lookup, is_some, lookup-insert, Bool-cases, All, eq_refl, ◌↔◌, ◌⊎◌, some, get_elem?, ltb,
}
use spr1n6_osscontest_server.Model.{Time, ProbeAttempt}
use spr1n6_osscontest_server.Simulated.{Settings, Injected, Cluster}
use spr1n6_osscontest_server.Simulated.Logs.{
  Probing, probe_step, probe_loop, probe_rounds, probe_from, wrote, set_default, gap_of,
}

module _ (settings : Settings) (run_id : String) (injected resumed : Time) where
  -- Two amounts of fuel, each enough for the half-second steps up to the end of the log, give the
  -- same log: the loop ends by its own condition.
  probe_loop-enough :
      (f g : ℕ) (p : Probing)
      → resumed + 3000 ≤ p.time + 500 * f
      → resumed + 3000 ≤ p.time + 500 * g
      → probe_loop f settings run_id injected resumed p
        ≡ probe_loop g settings run_id injected resumed p
  unfolding probe_loop
  probe_loop-enough zero zero p h k = refl
  probe_loop-enough zero (suc g) p h k = ground (arith, h)
  probe_loop-enough (suc f) zero p h k = ground (arith, k)
  probe_loop-enough (suc f) (suc g) p h k =
      rw
        (probe_loop-enough f g (probe_step settings run_id injected resumed p).1 (omega (arith, h))
          (omega (arith, k)))
        refl

  -- The attempt `k` of a loop that starts with the number `seq` and at the time `start`: it begins
  -- `k` half seconds later, it succeeds exactly if it begins before the failure or from the end of the
  -- gap on, and it ends after it begins.
  pub record IsTimely (seq : ℕ) (start : Time) (k : ℕ) (a : ProbeAttempt) : Type 0 where
    pub number : a.seq ≡ seq + 1 + k
    pub begins : a.start ≡ start + 500 * k
    pub succeeds : (a.ok ≡ true) ↔ ((a.start < injected) ⊎ (resumed ≤ a.start))
    pub ends : a.start < a.end

  wrote_iff : (t : Time) → (wrote injected resumed t ≡ true) ↔ ((t < injected) ⊎ (resumed ≤ t))
  wrote_iff t = (ground arith, ground arith)

  due : (p : Probing) → p.time < resumed + 3000 → ltb p.time (resumed + 3000) ≡ true
  due p h = ground (arith, h)

  pub probe_loop-IsTimely :
      (fuel k : ℕ) (p : Probing)
      → resumed + 3000 ≤ p.time + 500 * fuel
      → p.time + 500 * k < resumed + 3000
      → (a : ProbeAttempt) × (get_elem? (probe_loop fuel settings run_id injected resumed p).0 k
          ≡ some a)
        × IsTimely p.seq p.time k a
  unfolding probe_loop
  probe_loop-IsTimely zero k p h e = absurd (omega (arith, h, e))
  probe_loop-IsTimely (suc fuel) zero p h e = (
    (probe_step settings run_id injected resumed p).0,
    rw (due p (omega (arith, e))) refl,
    record {
      number = omega arith;
      begins = omega arith;
      succeeds = wrote_iff p.time;
      ends = ground arith;
    },
  )
  probe_loop-IsTimely (suc fuel) (suc k) p h e =
      let next = (probe_step settings run_id injected resumed p).1 in
      let (a, found, timely) =
        probe_loop-IsTimely fuel k next (omega (arith, h)) (omega (arith, e)) in
      (
        a,
        rw (due p (omega (arith, e))) found,
        record {
          number = omega (arith, timely.number);
          begins = omega (arith, timely.begins);
          succeeds = timely.succeeds;
          ends = timely.ends;
        },
      )

  -- A row that is there stays.
  set_default-keeps :
      (k j : String) (row : ℕ) (rows : Dict ℕ)
      → is_some (lookup j rows) ≡ true
      → is_some (lookup j (set_default k row rows)) ≡ true
  set_default-keeps k j row rows h = ground (arith, lookup-insert k j row rows, h)

  set_default-has :
      (k : String) (row : ℕ) (rows : Dict ℕ) → is_some (lookup k (set_default k row rows)) ≡ true
  set_default-has k row rows = ground (arith, lookup-insert k k row rows, eq_refl k)

  probe_loop-keeps :
      (fuel : ℕ) (p : Probing) (j : String)
      → is_some (lookup j p.rows) ≡ true
      → is_some (lookup j (probe_loop fuel settings run_id injected resumed p).1) ≡ true
  unfolding probe_loop
  probe_loop-keeps zero p j h = h
  probe_loop-keeps (suc fuel) p j h = ground (
    arith,
    probe_loop-keeps fuel (probe_step settings run_id injected resumed p).1 j,
    set_default-keeps (run_id <> ":" <> str (p.seq + 1)) j (5000 + (p.seq + 1)) p.rows h,
    h,
  )

  -- An attempt that succeeded left its row.
  abbrev IsKept : Dict ℕ → ProbeAttempt → Type 0
  IsKept rows a = a.ok ≡ true → is_some (lookup (run_id <> ":" <> str a.seq) rows) ≡ true

  probe_loop-first :
      (fuel : ℕ) (p : Probing)
      → settings.drop_acked ≡ 0
      → wrote injected resumed p.time ≡ true
      → is_some (
          lookup
            (run_id <> ":" <> str (p.seq + 1))
            (probe_loop fuel settings run_id injected resumed
              (probe_step settings run_id injected resumed p).1).1)
        ≡ true
  probe_loop-first fuel p d w =
      probe_loop-keeps fuel (probe_step settings run_id injected resumed p).1
        (run_id <> ":" <> str (p.seq + 1))
        (ground (
          arith,
          d,
          w,
          set_default-has (run_id <> ":" <> str (p.seq + 1)) (5000 + (p.seq + 1)) p.rows,
        ))

  pub probe_loop-IsKept :
      (fuel : ℕ) (p : Probing)
      → settings.drop_acked ≡ 0
      → All
          (IsKept (probe_loop fuel settings run_id injected resumed p).1)
          (probe_loop fuel settings run_id injected resumed p).0
  unfolding probe_loop
  probe_loop-IsKept zero p d = tt
  probe_loop-IsKept (suc fuel) p d = elim (Bool-cases (ltb p.time (resumed + 3000))) [
    | inl y ↦ rw y (
      (λ w. probe_loop-first fuel p d w),
      probe_loop-IsKept fuel (probe_step settings run_id injected resumed p).1 d,
    )
    | inr n ↦ rw n tt
  ]

abbrev pub probing_from : Injected → Cluster → Probing
probing_from i c = record { seq = 0; time = i.at - 2000; dropped = 0; rows = c.rows }

-- The log of the writes of a simulated test, for the cluster where the failure was injected.
module _ (run_id : String) (i : Injected) (c : Cluster) where
  -- The attempt `k` of the log, as the script means it: it begins two seconds before the failure and
  -- `k` half seconds later, succeeds exactly if it begins before the failure or from the end of the
  -- gap on, and ends after it begins.
  abbrev pub HasAttempt : ℕ → Type 0
  HasAttempt k =
      (a : ProbeAttempt) × (get_elem? (probe_from run_id i c).0 k ≡ some a)
      × (a.seq ≡ 1 + k)
      × (a.start + 2000 ≡ i.at + 500 * k)
      × ((a.ok ≡ true) ↔ ((a.start < i.at) ⊎ (i.at + gap_of c i.kind ≤ a.start)))
      × (a.start < a.end)

  -- Where the clock has run for two seconds before the failure, the log has an attempt for every half
  -- second from two seconds before the failure up to three seconds after the end of the gap. It begins
  -- at this time, succeeds exactly if it begins before the failure or from the end of the gap on, and
  -- ends after it begins.
  pub probe_from-IsTimely : (k : ℕ) → 2000 ≤ i.at → 500 * k < gap_of c i.kind + 5000 → HasAttempt k
  unfolding probe_from
  probe_from-IsTimely k h e =
      let (a, found, timely) =
        probe_loop-IsTimely c.settings run_id i.at (i.at + gap_of c i.kind)
          (probe_rounds (gap_of c i.kind)) k (probing_from i c) (omega (arith, h))
          (omega (arith, h, e)) in
      (
        a,
        found,
        omega (arith, timely.number),
        omega (arith, timely.begins, h),
        timely.succeeds,
        timely.ends,
      )

  -- If the script drops no acknowledged row, then every write that was acknowledged left its row in
  -- the cluster.
  pub probe_from-kept :
      c.settings.drop_acked ≡ 0
      → All
          (λ a.
            a.ok ≡ true
            → is_some (lookup (run_id <> ":" <> str a.seq) (probe_from run_id i c).1) ≡ true)
          (probe_from run_id i c).0
  unfolding probe_from
  probe_from-kept d =
      probe_loop-IsKept c.settings run_id i.at (i.at + gap_of c i.kind)
        (probe_rounds (gap_of c i.kind)) (probing_from i c) d

  -- Where the clock has run for two seconds before the failure, the fuel is enough: any larger
  -- amount makes up the same log.
  pub probe_from-enough :
      (fuel : ℕ)
      → 2000 ≤ i.at
      → probe_rounds (gap_of c i.kind) ≤ fuel
      → probe_loop fuel c.settings run_id i.at (i.at + gap_of c i.kind) (probing_from i c)
        ≡ probe_from run_id i c
  unfolding probe_from
  probe_from-enough fuel h k =
      probe_loop-enough c.settings run_id i.at (i.at + gap_of c i.kind) fuel
        (probe_rounds (gap_of c i.kind)) _ (omega (arith, h, k)) (omega (arith, h))
