-- ===== src/Parse/RoundTrip.antt =====
-- What the simulated probe log writes reads back (ha-test/hatest/simulated.py and
-- ha-test/hatest/parse.py).
use Prim.Native.Char.{Char}
use text.Mathlib.TextLemmas.{nil-append, cons-append}
use spr1n6_osscontest_server.Common.{
  ℕ, ◌+◌, ◌≡◌, refl, ap, ◌∙◌, ◌<◌, String, Bool, true, false, Option, some, List, [], ◌∷◌, ◌&&◌,
  map, ◌<>◌, ◌/◌, ◌%◌, if◌then◌else◌, arith, str, join, lacks, lacks-append, str-lacks, splitlines,
  is_one_line, is_one_line-append, str-is_one_line, All,
}
use spr1n6_osscontest_server.Common.Int.{ℤ, pos}
use spr1n6_osscontest_server.Common.Split.{
  cut, cut-append, split_max, splitlines-append, splitlines-last,
}
use spr1n6_osscontest_server.Model.{Time, ProbeAttempt}
use spr1n6_osscontest_server.Simulated.Texts.{fmt3, probe_line, probe_log_text}
use spr1n6_osscontest_server.Parse.{
  parsed, blank_line, each_line, probe_fields, parse_probe_line, parse_probe_log,
}

abbrev tab : Char
tab = "\t"

abbrev newline : Char
newline = "\n"

tab-append : (s : String) → "\t" <> s ≡ String.◌∷◌ tab s
tab-append s = cons-append tab String.[] s ∙ ap (String.◌∷◌ tab) (nil-append s)

newline-append : (s : String) → "\n" <> s ≡ String.◌∷◌ newline s
newline-append s = cons-append newline String.[] s ∙ ap (String.◌∷◌ newline) (nil-append s)

-- A line of a log that is not passed over.
abbrev IsLine : String → Type 0
IsLine s = (is_one_line s ≡ true) × (blank_line s ≡ false)

splitlines-line : (s : String) → IsLine s → splitlines s ≡ s ∷ []
splitlines-line String.[] h = absurd (ground arith)
splitlines-line (String.◌∷◌ c s) h = splitlines-last c s h.0

splitlines-join : (lines : List String) → All IsLine lines → splitlines (join "\n" lines) ≡ lines
unfolding join
splitlines-join [] h = refl
splitlines-join (line ∷ []) h = splitlines-line line h.0
splitlines-join (line ∷ next ∷ lines) h = rw (newline-append (join "\n" (next ∷ lines))) (
    splitlines-append newline line (join "\n" (next ∷ lines)) refl h.0.0
    ∙ ap (λ r. line ∷ r) (splitlines-join (next ∷ lines) h.1))

blank_line-append : (s t : String) → blank_line (s <> t) ≡ (blank_line s && blank_line t)
blank_line-append String.[] t = rw (nil-append t) refl
blank_line-append (String.◌∷◌ c s) t =
    rw (cons-append c s t) (ground (arith, blank_line-append s t))

fmt3-lacks : (sep t : ℕ) → sep < 46 → lacks sep (fmt3 t) ≡ true
unfolding fmt3
fmt3-lacks sep t h = lacks-append sep (str (t / 1000)) _ (str-lacks sep (t / 1000) (omega arith)) (
    lacks-append sep "." _ (ground arith) (
      lacks-append sep (str (t % 1000 / 100)) _ (str-lacks sep (t % 1000 / 100) (omega arith)) (
        lacks-append sep (str (t % 1000 / 10 % 10)) (str (t % 1000 % 10))
          (str-lacks sep (t % 1000 / 10 % 10) (omega arith))
          (str-lacks sep (t % 1000 % 10) (omega arith)))))

fmt3-is_one_line : (t : ℕ) → is_one_line (fmt3 t) ≡ true
unfolding fmt3
fmt3-is_one_line t =
    let tenths = str (t % 1000 / 100) in
    let hundredths = str (t % 1000 / 10 % 10) in
    let last = str (t % 1000 % 10) in
    let end =
      is_one_line-append hundredths last (str-is_one_line (t % 1000 / 10 % 10))
        (str-is_one_line (t % 1000 % 10)) in
    let fraction =
      is_one_line-append tenths (hundredths <> last) (str-is_one_line (t % 1000 / 100)) end in
    is_one_line-append (str (t / 1000)) ("." <> tenths <> hundredths <> last)
      (str-is_one_line (t / 1000))
      (is_one_line-append "." (tenths <> hundredths <> last) refl fraction)

abbrev result_text : Bool → String
result_text ok = if ok then "ok" else "fail"

result_text-lacks : (sep : ℕ) (ok : Bool) → sep < 46 → lacks sep (result_text ok) ≡ true
result_text-lacks sep true h = ground arith
result_text-lacks sep false h = ground arith

result_text-is_one_line : (ok : Bool) → is_one_line (result_text ok) ≡ true
result_text-is_one_line true = refl
result_text-is_one_line false = refl

cut-tab : (s t : String) → lacks 9 s ≡ true → cut 9 (s <> "\t" <> t) ≡ some (s, t)
cut-tab s t h = rw (tab-append t) (cut-append 9 tab s t refl h)

split-probe_line :
    (a : ProbeAttempt)
    → split_max 9 4 (probe_line a)
      ≡ str a.seq ∷ fmt3 a.start ∷ fmt3 a.end ∷ result_text a.ok ∷ a.detail ∷ []
unfolding probe_line
split-probe_line a =
    rw
      (
        cut-tab (str a.seq) _ (str-lacks 9 a.seq (omega arith)),
        cut-tab (fmt3 a.start) _ (fmt3-lacks 9 a.start (omega arith)),
        cut-tab (fmt3 a.end) _ (fmt3-lacks 9 a.end (omega arith)),
        cut-tab (result_text a.ok) a.detail (result_text-lacks 9 a.ok (omega arith)),
      )
      refl

result_text-blank : (ok : Bool) (s : String) → blank_line (result_text ok <> s) ≡ false
result_text-blank true s = rw (blank_line-append "ok" s) refl
result_text-blank false s = rw (blank_line-append "fail" s) refl

-- A field in front of the rest of a line.
field-IsLine : (s rest : String) → is_one_line s ≡ true → IsLine rest → IsLine (s <> "\t" <> rest)
field-IsLine s rest h k = (
  is_one_line-append s ("\t" <> rest) h (is_one_line-append "\t" rest refl k.0),
  rw (blank_line-append s ("\t" <> rest), blank_line-append "\t" rest, k.1) (ground arith),
)

-- The line from its last field but one on.
abbrev ending : ProbeAttempt → String
ending a = result_text a.ok <> "\t" <> a.detail

ending-IsLine : (a : ProbeAttempt) → is_one_line a.detail ≡ true → IsLine (ending a)
ending-IsLine a h = (
  is_one_line-append (result_text a.ok) ("\t" <> a.detail) (result_text-is_one_line a.ok)
      (is_one_line-append "\t" a.detail refl h),
  result_text-blank a.ok ("\t" <> a.detail),
)

probe_line-IsLine : (a : ProbeAttempt) → is_one_line a.detail ≡ true → IsLine (probe_line a)
unfolding probe_line
probe_line-IsLine a h =
    field-IsLine (str a.seq) (fmt3 a.start <> "\t" <> fmt3 a.end <> "\t" <> ending a)
      (str-is_one_line a.seq)
      (field-IsLine (fmt3 a.start) (fmt3 a.end <> "\t" <> ending a) (fmt3-is_one_line a.start)
        (field-IsLine (fmt3 a.end) (ending a) (fmt3-is_one_line a.end) (ending-IsLine a h)))

module _ (read_int : String → Option ℤ) (read_float : String → Option Time)
    (repr : String → String) where
  -- The numbers of an attempt read back, and its detail stands on one line.
  pub record IsReadable (a : ProbeAttempt) : Type 0 where
    pub seq : read_int (str a.seq) ≡ some (pos a.seq)
    pub start : read_float (fmt3 a.start) ≡ some a.start
    pub end : read_float (fmt3 a.end) ≡ some a.end
    pub detail : is_one_line a.detail ≡ true

  fields-parsed :
      (number seq start end : ℕ) (line detail : String) (ok : Bool)
      → read_int (str seq) ≡ some (pos seq)
      → read_float (fmt3 start) ≡ some start
      → read_float (fmt3 end) ≡ some end
      → probe_fields read_int read_float repr number line
          (str seq)
          (fmt3 start)
          (fmt3 end)
          (result_text ok)
          detail
        ≡ parsed (record { seq = seq; start = start; end = end; ok = ok; detail = detail })
  fields-parsed number seq start end line detail true h k l = rw (h, k, l) refl
  fields-parsed number seq start end line detail false h k l = rw (h, k, l) refl

  parse_probe_line-probe_line :
      (number : ℕ) (a : ProbeAttempt)
      → IsReadable a
      → parse_probe_line read_int read_float repr number (probe_line a) ≡ parsed a
  unfolding parse_probe_line
  parse_probe_line-probe_line number a r =
      rw (split-probe_line a)
        (fields-parsed number a.seq a.start a.end (probe_line a) a.detail a.ok r.seq r.start r.end)

  each_line-probe_line :
      (number : ℕ) (attempts : List ProbeAttempt)
      → All IsReadable attempts
      → each_line (parse_probe_line read_int read_float repr) number (map probe_line attempts)
        ≡ parsed attempts
  unfolding each_line
  each_line-probe_line number [] h = refl
  each_line-probe_line number (a ∷ attempts) h =
      rw
        (
          (probe_line-IsLine a h.0.detail).1,
          parse_probe_line-probe_line number a h.0,
          each_line-probe_line (number + 1) attempts h.1,
        )
        refl

  lines-IsLine :
      (attempts : List ProbeAttempt)
      → All IsReadable attempts
      → All IsLine (map probe_line attempts)
  lines-IsLine [] h = tt
  lines-IsLine (a ∷ attempts) h = (probe_line-IsLine a h.0.detail, lines-IsLine attempts h.1)

  -- The text of a probe log reads back as the attempts that it was written from, if `int` and
  -- `float` read the numbers of these as they were written and no detail has a character that
  -- ends a line (a line feed, a carriage return, or another one of Python's `splitlines`).
  pub parse_probe_log-probe_log_text :
      (attempts : List ProbeAttempt)
      → All IsReadable attempts
      → parse_probe_log read_int read_float repr (probe_log_text attempts) ≡ parsed attempts
  unfolding parse_probe_log probe_log_text
  parse_probe_log-probe_log_text attempts h =
      rw (splitlines-join (map probe_line attempts) (lines-IsLine attempts h))
        (each_line-probe_line 1 attempts h)
