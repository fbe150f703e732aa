-- ===== src/Parse/Tests.antt =====
-- Readings of logs (ha-test/hatest/parse.py).
use spr1n6_osscontest_server.Common.{
  ◌≡◌, refl, String, Option, none, some, List, [], ◌∷◌, true, false, ◌==◌, ◌<>◌, if◌then◌else◌, str,
  join,
}
use spr1n6_osscontest_server.Common.Int.{ℤ, pos, negsuc}
use spr1n6_osscontest_server.Config.Load.{strip}
use spr1n6_osscontest_server.Model.{Time, ProbeAttempt}
use spr1n6_osscontest_server.Simulated.Texts.{fmt3, probe_log_text}
use spr1n6_osscontest_server.Parse.{parsed, parse_probe_log, parse_replication}
use spr1n6_osscontest_server.Parse.Watches.{
  parse_cpu, parse_activity, parse_marker_watch, parse_vip_watch,
}
use spr1n6_osscontest_server.Parse.RoundTrip.{IsReadable, parse_probe_log-probe_log_text}

abbrev read_int : String → Option ℤ
read_int s =
    if s == "1"
    then some (pos 1)
    else if s == "2"
    then some (pos 2)
    else if s == "-1"
    then some (negsuc 0)
    else none

abbrev read_float : String → Option Time
read_float s =
    if s == "10.500"
    then some 10_500
    else if s == "10.520"
    then some 10_520
    else if s == "11.007"
    then some 11_007
    else none

abbrev quoted : String → String
quoted s = "'" <> s <> "'"

abbrev attempts : List ProbeAttempt
attempts =
    record { seq = 1; start = 10_500; end = 10_520; ok = true; detail = "5001" }
    ∷ record { seq = 2; start = 10_520; end = 11_007; ok = false; detail = "rc=1\tread only" }
    ∷ []

attempts_text :
    probe_log_text attempts
    ≡ "1\t10.500\t10.520\tok\t5001\n2\t10.520\t11.007\tfail\trc=1\tread only"
unfolding probe_log_text fmt3 str join
attempts_text = refl

first-IsReadable :
    IsReadable read_int read_float quoted
      (record { seq = 1; start = 10_500; end = 10_520; ok = true; detail = "5001" })
unfolding fmt3 str
first-IsReadable = record { seq = refl; start = refl; end = refl; detail = refl }

second-IsReadable :
    IsReadable read_int read_float quoted
      (record { seq = 2; start = 10_520; end = 11_007; ok = false; detail = "rc=1\tread only" })
unfolding fmt3 str
second-IsReadable = record { seq = refl; start = refl; end = refl; detail = refl }

parse_probe_log-probe_log_text_example :
    parse_probe_log read_int read_float quoted (probe_log_text attempts) ≡ parsed attempts
parse_probe_log-probe_log_text_example =
    parse_probe_log-probe_log_text read_int read_float quoted attempts
      (first-IsReadable, (second-IsReadable, tt))

lag_read :
    parse_replication read_int read_float quoted "pg2\t10.0.0.2\tstreaming\tasync\t-1\n"
    ≡ parsed (
        record {
          application_name = "pg2";
          client_addr = "10.0.0.2";
          state = "streaming";
          sync_state = "async";
          replay_lag_bytes = none;
        }
        ∷ [])
unfolding parse_replication
lag_read = refl

cpu_read :
    parse_cpu read_int read_float "db-01" "ts=10.500\ncpu  1 2 1 2 1\n"
    ≡ parsed (record { node = "db-01"; at = 10_500; busy = 4; total = 7 })
unfolding parse_cpu
cpu_read = refl

activity_read :
    parse_activity read_int read_float "1\tt1\n2\tt1\n1\tt1\nx\ty\n"
    ≡ parsed ((2, "t1") ∷ (1, "t1") ∷ [])
unfolding parse_activity strip
activity_read = refl

marker_read :
    parse_marker_watch read_int read_float "NOTICE: ready 10.500\nNOTICE: visible 11.007 2\n"
    ≡ parsed (record { ready = some 10_500; visible = some 11_007; row_id = some 2 })
unfolding parse_marker_watch
marker_read = refl

vip_read : parse_vip_watch read_int read_float "os=10.500\naws=timeout\n" ≡ (some 10_500, none)
unfolding parse_vip_watch strip
vip_read = refl
