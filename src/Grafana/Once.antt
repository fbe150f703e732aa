-- ===== src/Grafana/Once.antt =====
-- How often a test asks Grafana and warns (ha-test/hatest/grafana.py).
use text.Mathlib.TextLemmas.{nil-append, cons-append}
use mathlib.Core.List.{append_assoc, append-nil}
use Prim.Native.Char.{Char}
use spr1n6_osscontest_server.Common.{
  ◌≡◌, refl, sym, subst, ap, ◌∙◌, String, Bool, true, false, Option, none, some, List, [], ◌∷◌,
  ◌++◌, not, ◌==◌, ◌<>◌, if◌then◌else◌, first, Option-cases, Bool-cases, eq_iff, inl, inr,
}
use spr1n6_osscontest_server.Config.{Config}
use spr1n6_osscontest_server.Model.{Time}
use spr1n6_osscontest_server.Grafana.{
  Post, Notice, made, left_out, Marks, new_marks, is_disabled, warn_once, reason_text, post_of,
  unreached, after_post, mark, mark_all,
}

-- The rest comes only after an answer without an error.
abbrev pub posts_for : Option String → List Post → List Post → List Post
posts_for none now later = later
posts_for (some error) now later = now

abbrev pub shown_for : Config → String → Option String → List Notice → List Notice
shown_for c label none later = made label ∷ later
shown_for c label (some error) later = left_out (unreached c error) ∷ []

module _ (server : List Post → Post → Option String) (c : Config) (tc : String) where
  -- The requests up to the first one that fails, after those that were sent.
  abbrev pub until_failure : List Post → List (Time × String) → List Post
  until_failure sent [] = sent
  until_failure sent ((at, text) ∷ rest) =
      let p = post_of c tc at text in
      let later = until_failure (sent ++ (p ∷ [])) rest in
      posts_for (server sent p) (sent ++ (p ∷ [])) later

  -- Each mark that was made is shown, and the first failure, as the last thing.
  abbrev pub shown_until : List Post → List (Time × String) → List Notice
  shown_until sent [] = []
  shown_until sent ((at, text) ∷ rest) =
      let p = post_of c tc at text in
      let later = shown_until (sent ++ (p ∷ [])) rest in shown_for c p.label (server sent p) later

abbrev has_text : String → Bool
has_text String.[] = false
has_text (String.◌∷◌ d s) = true

cons_append-nonempty : (d : Char) (s t : String) → (String.◌∷◌ d s <> t == "") ≡ false
cons_append-nonempty d s t = elim (Bool-cases (String.◌∷◌ d s <> t == "")) [
  | inl e ↦ absurd (clash (ap has_text ((eq_iff (String.◌∷◌ d s <> t) "").0 e)))
  | inr e ↦ e
]
  where
    clash : has_text (String.◌∷◌ d s <> t) ≡ false → ⊥
    clash h = cc (rw (cons-append d s t) at h)

append-nonempty : (s t : String) → (t == "") ≡ false → (s <> t == "") ≡ false
append-nonempty String.[] t h = rw (nil-append t) h
append-nonempty (String.◌∷◌ d s) t h = cons_append-nonempty d s t

unreached-is_disabled :
    (c : Config) (error : String) → is_disabled (some (unreached c error)) ≡ true
unreached-is_disabled c error = ap not (
    append-nonempty c.grafana_url (" 에 찍지 못했다(" <> first 60 error <> ")")
      (cons_append-nonempty " " "에 찍지 못했다(" (first 60 error <> ")")))

-- Where marks are disabled and this was shown, nothing happens.
mark-disabled :
    (server : List Post → Post → Option String) (c : Config) (m : Marks) (at : Time) (text : String)
    → is_disabled m.disabled_reason ≡ true
    → m.warned ≡ true
    → mark server c m at text ≡ m
unfolding mark
mark-disabled server c m at text h w =
    let p = post_of c m.tc at text in
    ap (λ b. if b then warn_once m else after_post c p (server m.posts p) m) h
    ∙ ap
        (λ b. if b then m else record m {
          warned = true;
          shown = m.shown ++ (left_out (reason_text m.disabled_reason) ∷ []);
        })
        w

mark_all-disabled :
    (server : List Post → Post → Option String) (c : Config) (m : Marks)
    (marks : List (Time × String))
    → is_disabled m.disabled_reason ≡ true
    → m.warned ≡ true
    → mark_all server c m marks ≡ m
mark_all-disabled server c m [] h w = refl
mark_all-disabled server c m ((at, text) ∷ rest) h w =
    ap (λ n. mark_all server c n rest) (mark-disabled server c m at text h w)
    ∙ mark_all-disabled server c m rest h w

module _ (server : List Post → Post → Option String) (c : Config) (tc : String) where
  abbrev enabled : List Post → List Notice → Marks
  enabled posts shown = record {
    tc = tc;
    disabled_reason = none;
    warned = false;
    posts = posts;
    shown = shown;
  }

  abbrev failed : List Post → List Notice → String → Marks
  failed posts shown error = record {
    tc = tc;
    disabled_reason = some (unreached c error);
    warned = true;
    posts = posts;
    shown = shown ++ (left_out (unreached c error) ∷ []);
  }

  mark-made :
      (posts : List Post) (shown : List Notice) (at : Time) (text : String)
      → server posts (post_of c tc at text) ≡ none
      → mark server c (enabled posts shown) at text
        ≡ enabled
            (posts ++ (post_of c tc at text ∷ []))
            (shown ++ (made (post_of c tc at text).label ∷ []))
  unfolding mark
  mark-made posts shown at text e =
      ap (λ r. after_post c (post_of c tc at text) r (enabled posts shown)) e

  mark-failed :
      (posts : List Post) (shown : List Notice) (at : Time) (text error : String)
      → server posts (post_of c tc at text) ≡ some error
      → mark server c (enabled posts shown) at text
        ≡ failed (posts ++ (post_of c tc at text ∷ [])) shown error
  unfolding mark
  mark-failed posts shown at text error e =
      ap (λ r. after_post c (post_of c tc at text) r (enabled posts shown)) e

  abbrev IsOnce : List Post → List Notice → List (Time × String) → Marks → Type 0
  IsOnce posts shown marks m =
      (m.posts ≡ until_failure server c tc posts marks)
      × (m.shown ≡ shown ++ shown_until server c tc posts marks)

  mark_all-enabled :
      (posts : List Post) (shown : List Notice) (marks : List (Time × String))
      → IsOnce posts shown marks (mark_all server c (enabled posts shown) marks)
  mark_all-enabled posts shown [] = (refl, rw (append-nil shown) refl)
  mark_all-enabled posts shown ((at, text) ∷ rest) =
      let p = post_of c tc at text in
      elim (Option-cases (server posts p)) [
        | inl e ↦
            let later = mark_all-enabled (posts ++ (p ∷ [])) (shown ++ (made p.label ∷ [])) rest in
            subst (λ m. IsOnce posts shown ((at, text) ∷ rest) (mark_all server c m rest))
              (sym (mark-made posts shown at text e))
              (
                later.0
                    ∙ ap
                        (λ r.
                          posts_for r (posts ++ (p ∷ []))
                            (until_failure server c tc (posts ++ (p ∷ [])) rest))
                        (sym e),
                later.1
                    ∙ append_assoc shown (made p.label ∷ [])
                        (shown_until server c tc (posts ++ (p ∷ [])) rest)
                    ∙ ap
                        (λ r.
                          shown
                          ++ shown_for c p.label r
                              (shown_until server c tc (posts ++ (p ∷ [])) rest))
                        (sym e),
              )
        | inr (error, e) ↦
            let stays =
              mark_all-disabled server c (failed (posts ++ (p ∷ [])) shown error) rest
                (unreached-is_disabled c error) refl in
            subst (λ m. IsOnce posts shown ((at, text) ∷ rest) (mark_all server c m rest))
              (sym (mark-failed posts shown at text error e))
              (
                ap (λ m. m.posts) stays
                    ∙ ap
                        (λ r.
                          posts_for r (posts ++ (p ∷ []))
                            (until_failure server c tc (posts ++ (p ∷ [])) rest))
                        (sym e),
                ap (λ m. m.shown) stays
                    ∙ ap
                        (λ r.
                          shown
                          ++ shown_for c p.label r
                              (shown_until server c tc (posts ++ (p ∷ [])) rest))
                        (sym e),
              )
      ]

  -- If the URL of Grafana is set, then new marks send their requests up to the first one that fails,
  -- and show each mark that was made, and the failure once.
  pub marks-once :
      (marks : List (Time × String))
      → (c.grafana_url == "") ≡ false
      → ((mark_all server c (new_marks c tc) marks).posts ≡ until_failure server c tc [] marks)
        × ((mark_all server c (new_marks c tc) marks).shown ≡ shown_until server c tc [] marks)
  unfolding new_marks
  marks-once marks h = rw h (mark_all-enabled [] [] marks)
