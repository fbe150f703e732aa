-- ===== src/Parse.antt =====
-- Reading the output of the remote commands and of the recorder (ha-test/hatest/parse.py). The
-- reading of a number, `json.loads` and `repr` are parameters. A negative number where the model
-- has a natural one is refused, and a role or a state that is no text is none.
pub mod Watches
pub mod RoundTrip
mod Tests
use Prim.Native.Char.{Char, code}
use spr1n6_osscontest_server.Common.{
  ℕ, zero, suc, ◌+◌, ◌-◌, String, Bool, true, false, Option, none, some, List, [], ◌∷◌, ◌&&◌, ◌||◌,
  not, leb, eqb, ◌==◌, ◌<>◌, if◌then◌else◌, Dict, lookup, insert, filter, length, take, drop, head,
  str, first, skip, startswith, splitlines, onto,
}
use spr1n6_osscontest_server.Common.Int.{ℤ, pos, negsuc}
use spr1n6_osscontest_server.Common.Split.{split_max, split_all, replace}
use spr1n6_osscontest_server.Config.Load.{is_blank, strip}
use spr1n6_osscontest_server.Cluster.{parse_key_values}
use spr1n6_osscontest_server.Json.{
  Json, null, bool, num, text, arr, obj, Fields, end, field, get_field, fields_of, is_truthy,
  int_of,
}
use spr1n6_osscontest_server.Model.{
  Time, Member, silent, in_leader_roles, RoleSample, ProbeAttempt, RecorderLogs, ReplicationRow,
  CpuSample, InsertAck,
}

-- A value, a ParseError, or another exception of Python.
pub data Parsed {ℓ} (A : Type ℓ) : Type ℓ where
  parsed : A → Parsed A
  parse_error : String → Parsed A
  other_error : Parsed A

infixl 5 ◌>>=◌
abbrev pub ◌>>=◌ {ℓ κ} : {A : Type ℓ} {B : Type κ} → Parsed A → (A → Parsed B) → Parsed B
parsed a >>= f = f a
parse_error e >>= f = parse_error e
other_error >>= f = other_error

-- `not line.strip()`
abbrev pub blank_line : String → Bool
blank_line String.[] = true
blank_line (String.◌∷◌ c s) = is_blank c && blank_line s

-- The loop over the lines of a log, `number` counts them; blank lines are passed over.
unfoldable pub each_line {ℓ} :
    {A : Type ℓ} → (ℕ → String → Parsed A) → ℕ → List String → Parsed (List A)
each_line f number [] = parsed []
each_line f number (line ∷ lines) =
    let rest = each_line f (number + 1) lines in
    let kept = f number line >>= (λ a. rest >>= (λ others. parsed (a ∷ others))) in
    if blank_line line then rest else kept

abbrev pub natural : Option ℤ → Option ℕ
natural none = none
natural (some (pos n)) = some n
natural (some (negsuc n)) = none

abbrev dict_of : {V : Type 0} → List (String × V) → Dict V → Dict V
dict_of [] d = d
dict_of ((k, v) ∷ rest) d = dict_of rest (insert k v d)

abbrev pub or_other : {A : Type 0} → Option A → Parsed A
or_other none = other_error
or_other (some a) = parsed a

abbrev split_blank : String → List String
split_blank String.[] = String.[] ∷ []
split_blank (String.◌∷◌ c s) =
    let rest = split_blank s in if is_blank c then String.[] ∷ rest else onto c rest

-- `text.split()`
unfoldable pub words : String → List String
words s = filter (λ w. not (w == "")) (split_blank s)

module _ (read_int : String → Option ℤ) (read_float : String → Option Time)
    (repr : String → String) where
  abbrev number_or : {A : Type 0} → String → ℕ → String → String → Option A → Parsed A
  number_or kind number name value none =
      parse_error (str number <> "번째 줄의 " <> name <> " 값이 " <> kind <> " 아니다: " <> repr value)
  number_or kind number name value (some a) = parsed a

  abbrev pub int_at : String → ℕ → String → Parsed ℤ
  int_at value number name = number_or "정수가" number name value (read_int value)

  abbrev pub nat_at : String → ℕ → String → Parsed ℕ
  nat_at value number name = number_or "정수가" number name value (natural (read_int value))

  abbrev pub float_at : String → ℕ → String → Parsed Time
  float_at value number name = number_or "숫자가" number name value (read_float value)

  abbrev malformed : {A : Type 0} → String → ℕ → String → Parsed A
  malformed what number line = parse_error (what <> str number <> "번째 줄 형식이 다르다: " <> first 80 line)

  abbrev attempt_of : ℕ → String → String → String → Bool → String → Parsed ProbeAttempt
  attempt_of number seq start stop ok detail = nat_at seq number "seq" >>= (λ n.
      float_at start number "시작" >>= (λ s.
        float_at stop number "끝"
        >>= (λ e. parsed (record { seq = n; start = s; end = e; ok = ok; detail = detail }))))

  abbrev pub probe_fields :
      ℕ → String → String → String → String → String → String → Parsed ProbeAttempt
  probe_fields number line seq start stop result detail =
      if result == "ok" || result == "fail"
      then attempt_of number seq start stop (result == "ok") detail
      else malformed "쓰기 기록 " number line

  abbrev probe_parts : ℕ → String → List String → Parsed ProbeAttempt
  probe_parts number line (a ∷ b ∷ c ∷ d ∷ []) = probe_fields number line a b c d ""
  probe_parts number line (a ∷ b ∷ c ∷ d ∷ e ∷ rest) = probe_fields number line a b c d e
  probe_parts number line parts = malformed "쓰기 기록 " number line

  unfoldable pub parse_probe_line : ℕ → String → Parsed ProbeAttempt
  parse_probe_line number line = probe_parts number line (split_max 9 4 line)

  unfoldable pub parse_probe_log : String → Parsed (List ProbeAttempt)
  unfolding each_line parse_probe_line
  parse_probe_log log = each_line parse_probe_line 1 (splitlines log)

  abbrev lag_of : ℤ → Option ℕ
  lag_of (pos n) = some n
  lag_of (negsuc n) = none

  abbrev replication_parts : ℕ → String → List String → Parsed ReplicationRow
  replication_parts number line (a ∷ b ∷ c ∷ d ∷ e ∷ []) = int_at e number "lag" >>= (λ lag.
      parsed (record {
        application_name = a;
        client_addr = b;
        state = c;
        sync_state = d;
        replay_lag_bytes = lag_of lag;
      }))
  replication_parts number line parts = malformed "pg_stat_replication " number line

  unfoldable pub parse_replication : String → Parsed (List ReplicationRow)
  unfolding each_line
  parse_replication rows =
      each_line (λ number line. replication_parts number line (split_all 9 line)) 1
        (splitlines rows)

  module _ (loads : String → Option Json) where
    abbrev text_of : Option Json → Option String
    text_of none = none
    text_of (some null) = none
    text_of (some (bool b)) = none
    text_of (some (num n)) = none
    text_of (some (text s)) = some s
    text_of (some (arr items)) = none
    text_of (some (obj fields)) = none

    -- `value or {}`, as a dict
    abbrev dict_or_empty : Option Json → Parsed Fields
    dict_or_empty none = parsed end
    dict_or_empty (some v) = if is_truthy v then or_other (fields_of v) else parsed end

    -- `d.get(key) or d.get(other)`
    abbrev first_true : Option Json → Option Json → Option Json
    first_true none other = other
    first_true (some v) other = if is_truthy v then some v else other

    -- `d.get(key, d.get(other))`
    abbrev first_there : Option Json → Option Json → Option Json
    first_there none other = other
    first_there (some v) other = some v

    -- `int(value) if value is not None else None`
    abbrev maybe_int : Option Json → Parsed (Option ℕ)
    maybe_int none = parsed none
    maybe_int (some null) = parsed none
    maybe_int (some (bool b)) = parsed (some (if b then 1 else 0))
    maybe_int (some (num n)) = parsed (some n)
    maybe_int (some (text s)) = or_other (natural (read_int s)) >>= (λ n. parsed (some n))
    maybe_int (some (arr items)) = other_error
    maybe_int (some (obj fields)) = other_error

    abbrev member_from_dict : String → Option Time → Fields → Fields → Parsed Member
    member_from_dict node at body xlog =
        let role = text_of (get_field "role" body) in
        let leads = in_leader_roles role in
        let state =
          if leads
          then get_field "state" body
          else first_true (get_field "replication_state" body) (get_field "state" body) in
        let wal =
          if leads
          then get_field "location" xlog
          else first_there (get_field "replayed_location" xlog)
              (get_field "received_location" xlog) in
        maybe_int (get_field "timeline" body) >>= (λ timeline. maybe_int wal >>= (λ wal_position.
          parsed (record {
            node = node;
            observed_at = at;
            reachable = true;
            role = role;
            state = text_of state;
            timeline = timeline;
            wal_position = wal_position;
          })))

    abbrev member_from_json : String → Option Time → Option Json → Parsed Member
    member_from_json node at none = parsed (silent node at)
    member_from_json node at (some value) = or_other (fields_of value) >>= (λ body.
        dict_or_empty (get_field "xlog" body) >>= (λ xlog. member_from_dict node at body xlog))

    unfoldable pub parse_member : String → Option Time → String → Parsed Member
    parse_member node at answer =
        let body = strip answer in
        if body == "" || body == "ERR"
        then parsed (silent node at)
        else member_from_json node at (loads body)

    abbrev scan_parts : ℕ → String → List String → Parsed (String × Member)
    unfolding parse_member
    scan_parts number line (node ∷ at ∷ body ∷ []) =
        float_at at number "시각"
        >>= (λ t. parse_member node (some t) body >>= (λ m. parsed (node, m)))
    scan_parts number line parts = malformed "Patroni 조회 " number line

    unfoldable pub parse_patroni_scan : String → Parsed (Dict Member)
    unfolding each_line scan_parts
    parse_patroni_scan scan =
        each_line (λ number line. scan_parts number line (split_max 9 2 line)) 1 (splitlines scan)
        >>= (λ pairs. parsed (dict_of pairs []))

    abbrev role_parts : ℕ → String → List String → Parsed RoleSample
    unfolding parse_member
    role_parts number line (tick ∷ at ∷ node ∷ body ∷ []) = nat_at tick number "tick" >>= (λ n.
        float_at at number "시각" >>= (λ t.
          parse_member node (some t) body >>= (λ m. parsed (record { tick = n; member = m }))))
    role_parts number line parts = malformed "역할 기록 " number line

    unfoldable pub parse_role_log : String → Parsed (List RoleSample)
    unfolding each_line role_parts
    parse_role_log log =
        each_line (λ number line. role_parts number line (split_max 9 3 line)) 1 (splitlines log)

    unfoldable pub parse_recorder_logs : String → String → Parsed RecorderLogs
    unfolding parse_probe_log parse_role_log
    parse_recorder_logs probes roles = parse_probe_log probes >>= (λ attempts.
        parse_role_log roles >>= (λ samples. parsed (record {
          probe_text = probes;
          roles_text = roles;
          attempts = attempts;
          roles = samples;
        })))
