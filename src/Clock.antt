-- ===== src/Clock.antt =====
-- The clock of simulated runs and the display of sizes (ha-test/hatest/clock.py).
-- Times and durations are milliseconds.
use spr1n6_osscontest_server.Common.{
  ℕ, ◌+◌, ◌*◌, ◌/◌, ◌%◌, ◌<>◌, String, Option, none, some, ◌&&◌, ◌||◌, ltb, eqb, ◌≡◌, refl,
  if◌then◌else◌, str,
}

pub record FakeClock : Type 0 where
  pub now : ℕ

abbrev pub start : FakeClock
start = record { now = 1_792_000_000_000 }

-- `sleep` does not wait, it moves the clock.
unfoldable pub sleep : ℕ → FakeClock → FakeClock
sleep ms c = if ltb 0 ms then record { now = c.now + ms } else c

-- `n / d` to one decimal, ties to even, as `:.1f` prints a value that is exact in binary.
tenths : ℕ → ℕ → ℕ
tenths n d =
    let q = n * 10 / d in
    let r = n * 10 % d in if ltb d (2 * r) || eqb d (2 * r) && eqb (q % 2) 1 then q + 1 else q

one_decimal : ℕ → ℕ → String
unfolding tenths
one_decimal n d = str (tenths n d / 10) <> "." <> str (tenths n d % 10)

unfoldable pub fmt_bytes : Option ℕ → String
unfolding one_decimal
fmt_bytes none = "-"
fmt_bytes (some value) =
    if ltb value 1024
    then str value <> " B"
    else if ltb value (1024 * 1024)
    then one_decimal value 1024 <> " KB"
    else one_decimal value (1024 * 1024) <> " MB"

fmt_bytes_tests : fmt_bytes (some 1_310_720) <> fmt_bytes (some 1536) ≡ "1.2 MB1.5 KB"
unfolding fmt_bytes str
fmt_bytes_tests = refl
