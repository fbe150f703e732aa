-- ===== src/Eval/Limiter.antt =====
-- The sliding window that paces the calls (`RateLimiter` in scripts/eval/rerank_ab.py). Times are
-- in ticks of the monotonic clock, whose readings are arguments.
pub mod Spacing
use spr1n6_osscontest_server.Common.{
  ℕ, ◌+◌, ◌-◌, List, [], ◌∷◌, ◌++◌, leb, ltb, eqb, if◌then◌else◌, length, drop,
}

pub record RateLimiter : Type 0 where
  pub limit : ℕ
  pub window : ℕ
  pub calls : List ℕ

-- `while self.calls and now - self.calls[0] > self.window: self.calls.popleft()`
abbrev pub expire : ℕ → ℕ → List ℕ → List ℕ
expire window now [] = []
expire window now (c ∷ calls) =
    let rest = expire window now calls in if ltb (c + window) now then rest else c ∷ calls

-- `max(0.0, self.window - (now - self.calls[0]))`
abbrev pub wait_for : ℕ → ℕ → List ℕ → ℕ
wait_for window now [] = 0
wait_for window now (c ∷ calls) = c + window - now

-- `now` is the first reading of the clock and `later` the one after the sleep. Returns the time to
-- sleep too.
unfoldable pub acquire : RateLimiter → ℕ → ℕ → RateLimiter × ℕ
acquire l now later =
    let calls = expire l.window now l.calls in
    let full = leb l.limit (length calls) in
    if eqb l.limit 0 then (l, 0) else (
      record l { calls = drop (if full then 1 else 0) calls ++ later ∷ [] },
      if full then wait_for l.window now calls else 0,
    )

-- `RateLimiter(limit, window)`
abbrev pub limiter : ℕ → ℕ → RateLimiter
limiter limit window = record { limit = limit; window = window; calls = [] }
