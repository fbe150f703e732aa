-- ===== src/Simulated/Texts.antt =====
-- The text of the simulated probe log (`recorder_logs` in ha-test/hatest/simulated.py).
use spr1n6_osscontest_server.Common.{◌/◌, ◌%◌, String, List, ◌<>◌, if◌then◌else◌, str, join, map}
use spr1n6_osscontest_server.Model.{Time, ProbeAttempt}

-- `f"{t:.3f}"` of a time, which is in milliseconds.
unfoldable pub fmt3 : Time → String
fmt3 t =
    let rest = t % 1000 in
    str (t / 1000) <> "." <> str (rest / 100) <> str (rest / 10 % 10) <> str (rest % 10)

unfoldable pub probe_line : ProbeAttempt → String
probe_line a =
    str a.seq
    <> "\t"
    <> fmt3 a.start
    <> "\t"
    <> fmt3 a.end
    <> "\t"
    <> (if a.ok then "ok" else "fail")
    <> "\t"
    <> a.detail

unfoldable pub probe_log_text : List ProbeAttempt → String
unfolding probe_line
probe_log_text attempts = join "\n" (map probe_line attempts)
