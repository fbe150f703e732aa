-- ===== src/Parse/Watches.antt =====
-- Reading what the watches and the recorder's insert print (ha-test/hatest/parse.py).
use Prim.Native.Char.{code}
use spr1n6_osscontest_server.Common.{
  ℕ, ◌+◌, ◌-◌, String, Bool, true, Option, none, some, List, [], ◌∷◌, ◌&&◌, not, leb, eqb, ◌==◌,
  ◌<>◌, if◌then◌else◌, lookup, take, drop, first, skip, startswith, splitlines, any,
}
use spr1n6_osscontest_server.Common.Int.{ℤ}
use spr1n6_osscontest_server.Common.Split.{split_all, replace}
use spr1n6_osscontest_server.Config.Load.{strip}
use spr1n6_osscontest_server.Cluster.{parse_key_values}
use spr1n6_osscontest_server.Model.{Time, CpuSample, InsertAck}
use spr1n6_osscontest_server.Parse.{Parsed, parsed, parse_error, ◌>>=◌, or_other, natural, words}

abbrev sum : List ℕ → ℕ
sum [] = 0
sum (n ∷ ns) = n + sum ns

-- The variables of the loop of `parse_cpu`.
pub record CpuText : Type 0 where
  pub at : Option Time
  pub fields : Option (List ℕ)

abbrev is_digits : String → Bool
is_digits String.[] = true
is_digits (String.◌∷◌ c s) = leb 48 (code c) && leb (code c) 57 && is_digits s

-- `seen.add(pair)`
abbrev add_pair : ℕ → String → List (ℕ × String) → List (ℕ × String)
add_pair pid at seen = if any (λ p. eqb p.0 pid && p.1 == at) seen then seen else (pid, at) ∷ seen

-- The variables of the loop of `parse_marker_watch`.
pub record Marker : Type 0 where
  pub ready : Option Time
  pub visible : Option Time
  pub row_id : Option ℕ

module _ (read_int : String → Option ℤ) (read_float : String → Option Time) where
  abbrev ints : List String → Parsed (List ℕ)
  ints [] = parsed []
  ints (w ∷ ws) = or_other (natural (read_int w)) >>= (λ n. ints ws >>= (λ rest. parsed (n ∷ rest)))

  abbrev cpu_line : String → CpuText → Parsed CpuText
  cpu_line line v =
      if startswith "ts=" line
      then or_other (read_float (skip 3 line)) >>= (λ t. parsed (record v { at = some t }))
      else if startswith "cpu " line
      then ints (drop 1 (words line)) >>= (λ ns. parsed (record v { fields = some ns }))
      else parsed v

  unfoldable pub cpu_lines : List String → CpuText → Parsed CpuText
  unfolding words
  cpu_lines [] v = parsed v
  cpu_lines (line ∷ lines) v = cpu_line line v >>= cpu_lines lines

  -- The fifth field, where there is one, counts as idle too; the guests are in the first two.
  abbrev cpu_sample : String → String → Time → List ℕ → Parsed CpuSample
  cpu_sample node output at (a ∷ b ∷ c ∷ idle ∷ rest) =
      let total = sum (take 8 (a ∷ b ∷ c ∷ idle ∷ rest)) in
      parsed
        (record { node = node; at = at; busy = total - (idle + sum (take 1 rest)); total = total })
  cpu_sample node output at fields = parse_error (node <> " CPU 출력 형식이 다르다: " <> first 80 output)

  abbrev cpu_found : String → String → CpuText → Parsed CpuSample
  cpu_found node output v = elim v.at [
    | none ↦ parse_error (node <> " CPU 출력 형식이 다르다: " <> first 80 output)
    | some t ↦ elim v.fields [
      | none ↦ parse_error (node <> " CPU 출력 형식이 다르다: " <> first 80 output)
      | some fields ↦ cpu_sample node output t fields
    ]
  ]

  unfoldable pub parse_cpu : String → String → Parsed CpuSample
  unfolding cpu_lines
  parse_cpu node output =
      cpu_lines (splitlines output) (record { at = none; fields = none }) >>= cpu_found node output

  abbrev activity_parts : List String → List (ℕ × String) → Parsed (List (ℕ × String))
  activity_parts (pid ∷ at ∷ []) seen =
      if is_digits pid && not (pid == "")
      then or_other (natural (read_int pid)) >>= (λ n. parsed (add_pair n at seen))
      else parsed seen
  activity_parts parts seen = parsed seen

  unfoldable pub activity_lines : List String → List (ℕ × String) → Parsed (List (ℕ × String))
  activity_lines [] seen = parsed seen
  activity_lines (line ∷ lines) seen =
      activity_parts (split_all 9 (strip line)) seen >>= activity_lines lines

  -- The set of the runs that were seen.
  unfoldable pub parse_activity : String → Parsed (List (ℕ × String))
  unfolding activity_lines
  parse_activity output = activity_lines (splitlines output) []

  abbrev or_malformed : {A : Type 0} → String → Option A → Parsed A
  or_malformed output none = parse_error ("INSERT 응답 형식이 다르다: " <> first 120 output)
  or_malformed output (some a) = parsed a

  abbrev two_parts : List String → Option (String × String)
  two_parts (a ∷ b ∷ []) = some (a, b)
  two_parts parts = none

  unfoldable pub parse_insert : String → String → Parsed InsertAck
  unfolding parse_key_values
  parse_insert tag output =
      let values = parse_key_values output in
      or_malformed output (lookup "row" values) >>= (λ row.
        or_malformed output (two_parts (split_all 9 row)) >>= (λ parts.
          or_malformed output (natural (read_int parts.0)) >>= (λ row_id.
            or_malformed output (read_float parts.1) >>= (λ primary_at.
              or_malformed output (lookup "acked" values) >>= (λ acked.
                or_malformed output (read_float acked) >>= (λ acked_at. parsed (record {
                  tag = tag;
                  row_id = row_id;
                  primary_at = primary_at;
                  acked_at = acked_at;
                })))))))

  abbrev visible_words : List String → Marker → Parsed Marker
  visible_words (word ∷ at ∷ row ∷ rest) m =
      if word == "visible"
      then or_other (read_float at) >>= (λ t.
        or_other (natural (read_int row))
        >>= (λ n. parsed (record m { visible = some t; row_id = some n })))
      else parsed m
  visible_words ws m = parsed m

  abbrev marker_words : List String → Marker → Parsed Marker
  marker_words (word ∷ at ∷ rest) m =
      if word == "ready"
      then or_other (read_float at) >>= (λ t. parsed (record m { ready = some t }))
      else visible_words (word ∷ at ∷ rest) m
  marker_words ws m = parsed m

  unfoldable pub marker_lines : List String → Marker → Parsed Marker
  unfolding words replace
  marker_lines [] m = parsed m
  marker_lines (line ∷ lines) m =
      marker_words (words (replace "NOTICE:" " " line)) m >>= marker_lines lines

  unfoldable pub parse_marker_watch : String → Parsed Marker
  unfolding marker_lines
  parse_marker_watch output =
      marker_lines (splitlines output) (record { ready = none; visible = none; row_id = none })

  -- `float(value) if value else None`, where a ValueError is None too.
  abbrev float_or_none : Option String → Option Time
  float_or_none none = none
  float_or_none (some value) = if value == "" then none else read_float value

  unfoldable pub parse_vip_watch : String → Option Time × Option Time
  unfolding parse_key_values
  parse_vip_watch output =
      let values = parse_key_values output in
      (float_or_none (lookup "os" values), float_or_none (lookup "aws" values))
