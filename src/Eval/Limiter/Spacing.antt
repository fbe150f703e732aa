-- ===== src/Eval/Limiter/Spacing.antt =====
-- How far apart the calls are that a limiter lets through (scripts/eval/rerank_ab.py).
use spr1n6_osscontest_server.Common.{
  ℕ, ◌+◌, ◌≤◌, ◌<◌, ◌≡◌, refl, sym, ap, subst, ◌∙◌, inl, inr, List, [], ◌∷◌, ◌++◌, some, false,
  arith, leb, ltb, eqb, if◌then◌else◌, length, drop, get_elem?, get_elem?-snoc, get_elem?-lt-length,
  get_elem?-append_left, All, All-append, All-get_elem?, All-mono, length-append, Bool-cases,
}
use mathlib.Core.List.{append_assoc}
use spr1n6_osscontest_server.Eval.Limiter.{RateLimiter, acquire, expire, wait_for, limiter}

-- The limiter after some calls, and the times of these, the oldest first. No reading of the clock
-- is below an earlier one, and a sleep takes at least the time that was asked for.
pub data Used (limit window : ℕ) : RateLimiter → List ℕ → Type 0 where
  unused : Used limit window (limiter limit window) []
  acquired :
      {l : RateLimiter} {times : List ℕ}
      → Used limit window l times
      → (now later : ℕ) → All (λ t. t ≤ now) times
      → now + (acquire l now later).1 ≤ later
      → Used limit window (acquire l now later).0 (times ++ later ∷ [])

-- Of any `limit + 1` calls in a row the last is at least `window` after the first.
abbrev pub IsSpaced : ℕ → ℕ → List ℕ → Type 0
IsSpaced limit window times =
    (i : ℕ) (s t : ℕ)
    → get_elem? times i ≡ some s
    → get_elem? times (i + limit) ≡ some t
    → s + window ≤ t

-- What holds between two calls: the calls that left the window are `window` before the latest.
record IsPaced (limit window : ℕ) (l : RateLimiter) (times : List ℕ) : Type 0 where
  same_limit : l.limit ≡ limit
  same_window : l.window ≡ window
  gone : List ℕ
  split : times ≡ gone ++ l.calls
  latest : ℕ
  past : All (λ s. s + window ≤ latest) gone
  seen : (now : ℕ) → All (λ s. s ≤ now) times → latest ≤ now
  few : length l.calls ≤ limit
  spaced : IsSpaced limit window times

-- The calls that `expire` drops are those before the rest, and are out of the window.
expire-split :
    (window now : ℕ) (calls : List ℕ)
    → (old : List ℕ) × (calls ≡ old ++ expire window now calls) × All (λ s. s + window ≤ now) old
expire-split window now [] = ([], refl, tt)
expire-split window now (c ∷ calls) = elim (Bool-cases (ltb (c + window) now)) [
  | inl t ↦
      let (old, e, h) = expire-split window now calls in
      (c ∷ old, rw t (ap (λ r. c ∷ r) e), (ground arith, h))
  | inr f ↦ ([], rw f refl, tt)
]

length-expire : (window now : ℕ) (calls : List ℕ) → length (expire window now calls) ≤ length calls
length-expire window now [] = omega arith
length-expire window now (c ∷ calls) = ground (arith, length-expire window now calls)

-- What is left after the calls that are dropped, whether they expired or were waited for.
record Dropped (limit window later : ℕ) (calls kept : List ℕ) : Type 0 where
  old : List ℕ
  parts : calls ≡ old ++ kept
  apart : All (λ s. s + window ≤ later) old
  room : length kept < limit

drop-Dropped :
    (limit window now later : ℕ) (calls : List ℕ)
    → 0 < limit
    → length calls ≤ limit
    → now + (if leb limit (length calls) then wait_for window now calls else 0) ≤ later
    → Dropped limit window later calls (drop (if leb limit (length calls) then 1 else 0) calls)
drop-Dropped limit window now later [] h k w = elim (Bool-cases (leb limit 0)) [
  | inl t ↦ absurd (ground arith)
  | inr f ↦ rw f (record { old = []; parts = refl; apart = tt; room = h })
]
drop-Dropped limit window now later (c ∷ calls) h k w =
    elim (Bool-cases (leb limit (length (c ∷ calls)))) [
      | inl t ↦
          rw t
            (record { old = c ∷ []; parts = refl; apart = (ground arith, tt); room = omega arith })
      | inr f ↦ rw f (record { old = []; parts = refl; apart = tt; room = ground arith })
    ]

acquire-positive :
    (l : RateLimiter) (now later : ℕ)
    → 0 < l.limit
    → acquire l now later ≡ (
      record l {
        calls =
            drop
              (if leb l.limit (length (expire l.window now l.calls)) then 1 else 0)
              (expire l.window now l.calls)
            ++ later ∷ [];
      },
      if leb l.limit (length (expire l.window now l.calls))
          then wait_for l.window now (expire l.window now l.calls)
          else 0,
    )
unfolding acquire
acquire-positive l now later h = rw (eqb-positive l.limit h) refl
  where
    eqb-positive : (n : ℕ) → 0 < n → eqb n 0 ≡ false
    eqb-positive n k = ground arith

-- One more call `limit` places after a call that is `window` before it.
IsSpaced-snoc :
    (limit window later : ℕ) (old kept : List ℕ)
    → All (λ s. s + window ≤ later) old
    → length kept < limit
    → IsSpaced limit window (old ++ kept)
    → IsSpaced limit window ((old ++ kept) ++ later ∷ [])
IsSpaced-snoc limit window later old kept apart room spaced i s t e k =
    elim (get_elem?-snoc (old ++ kept) later (i + limit) k) [
      | inl m ↦
          spaced i s t (earlier (omega (arith, get_elem?-lt-length (old ++ kept) (i + limit) m))) m
      | inr (n, d) ↦ rw d (
          All-get_elem? (λ r. r + window ≤ later) old i apart
            (sym (get_elem?-append_left old kept i (in_old n))
              ∙ earlier (omega (arith, n, in_old n, length-append old kept))))
    ]
  where
    earlier : i < length (old ++ kept) → get_elem? (old ++ kept) i ≡ some s
    earlier h = sym (get_elem?-append_left (old ++ kept) (later ∷ []) i h) ∙ e

    in_old : i + limit ≡ length (old ++ kept) → i < length old
    in_old n = omega (arith, length-append old kept)

unused-IsPaced : (limit window : ℕ) → IsPaced limit window (limiter limit window) []
unused-IsPaced limit window = record {
  same_limit = refl;
  same_window = refl;
  gone = [];
  split = refl;
  latest = 0;
  past = tt;
  seen = λ now h. omega arith;
  few = omega arith;
  spaced = λ i s t e k. cc;
}

-- What one call leaves, from what it keeps of the deque.
keep-IsPaced :
    (limit window later : ℕ) (l : RateLimiter) (gone kept times : List ℕ)
    → l.limit ≡ limit
    → l.window ≡ window
    → times ≡ gone ++ l.calls
    → All (λ s. s + window ≤ later) gone
    → IsSpaced limit window times
    → Dropped limit window later l.calls kept
    → IsPaced limit window (record l { calls = kept ++ later ∷ [] }) (times ++ later ∷ [])
keep-IsPaced limit window later l gone kept times a b split past spaced d =
    let whole : times ≡ (gone ++ d.old) ++ kept =
      rw (split, d.parts) (sym (append_assoc gone d.old kept)) in
    let apart = All-append (λ s. s + window ≤ later) gone d.old past d.apart in
    record {
      same_limit = a;
      same_window = b;
      gone = gone ++ d.old;
      split = rw whole (append_assoc (gone ++ d.old) kept (later ∷ []));
      latest = later;
      past = apart;
      seen = λ t h. All-snoc times later t h;
      few = omega (arith, length-append kept (later ∷ []), d.room);
      spaced =
          rw whole (
            IsSpaced-snoc limit window later (gone ++ d.old) kept apart d.room
              (rw whole at spaced));
    }
  where
    All-snoc : (xs : List ℕ) (x t : ℕ) → All (λ s. s ≤ t) (xs ++ x ∷ []) → x ≤ t
    All-snoc [] x t h = h.0
    All-snoc (y ∷ xs) x t h = All-snoc xs x t h.1

-- The deque without the calls that expired is one to drop a call of.
expired-Dropped :
    (limit window later : ℕ) (calls rest kept : List ℕ)
    → (old : List ℕ) × (calls ≡ old ++ rest) × All (λ s. s + window ≤ later) old
    → Dropped limit window later rest kept
    → Dropped limit window later calls kept
expired-Dropped limit window later calls rest kept (old, e, h) d = record {
  old = old ++ d.old;
  parts = rw (e, d.parts) (sym (append_assoc old d.old kept));
  apart = All-append (λ s. s + window ≤ later) old d.old h d.apart;
  room = d.room;
}

expire-Dropped :
    (l : RateLimiter) (now later : ℕ)
    → 0 < l.limit
    → length l.calls ≤ l.limit
    → now
        + (if leb l.limit (length (expire l.window now l.calls))
            then wait_for l.window now (expire l.window now l.calls)
            else 0)
      ≤ later
    → Dropped l.limit l.window later l.calls (
        drop
          (if leb l.limit (length (expire l.window now l.calls)) then 1 else 0)
          (expire l.window now l.calls))
expire-Dropped l now later h k w =
    let (old, e, past) = expire-split l.window now l.calls in
    expired-Dropped l.limit l.window later l.calls (expire l.window now l.calls) _
      (old, e, All-mono old (λ s b. omega arith) past)
      (drop-Dropped l.limit l.window now later (expire l.window now l.calls) h
        (omega (arith, length-expire l.window now l.calls)) w)

acquire-IsPaced :
    (limit window : ℕ) (l : RateLimiter) (times : List ℕ) (now later : ℕ)
    → 0 < limit
    → IsPaced limit window l times
    → All (λ t. t ≤ now) times
    → now + (acquire l now later).1 ≤ later
    → IsPaced limit window (acquire l now later).0 (times ++ later ∷ [])
acquire-IsPaced limit window l times now later h p m w =
    let step = acquire-positive l now later (rw p.same_limit h) in
    let calls = expire l.window now l.calls in
    let slept : now + (if leb l.limit (length calls) then wait_for l.window now calls else 0)
        ≤ later =
      rw step at w in
    let kept = drop (if leb l.limit (length calls) then 1 else 0) calls in
    rw step (
      keep-IsPaced limit window later l p.gone kept times p.same_limit p.same_window p.split
        (All-mono p.gone (λ s k. omega (arith, p.seen now m)) p.past) p.spaced
        (subst (λ n. Dropped n window later l.calls kept) p.same_limit
          (subst (λ n. Dropped l.limit n later l.calls kept) p.same_window
            (expire-Dropped l now later (rw p.same_limit h) (rw p.same_limit p.few) slept))))

Used-IsPaced :
    {limit window : ℕ} {l : RateLimiter} {times : List ℕ}
    → 0 < limit
    → Used limit window l times
    → IsPaced limit window l times
Used-IsPaced {limit} {window} h unused = unused-IsPaced limit window
Used-IsPaced {limit} {window} h (acquired {l} {times} u now later m w) =
    acquire-IsPaced limit window l times now later h (Used-IsPaced h u) m w

-- However a limiter with a positive limit is used, of any `limit + 1` calls in a row that it lets
-- through the last is at least `window` after the first.
pub Used-IsSpaced :
    {limit window : ℕ} {l : RateLimiter} {times : List ℕ}
    → 0 < limit
    → Used limit window l times
    → IsSpaced limit window times
Used-IsSpaced h u = (Used-IsPaced h u).spaced
