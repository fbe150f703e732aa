-- ===== src/Eval/Overlap.antt =====
-- How much of a question is copied from its source (`normalize` and `max_shared_ngram` in
-- scripts/eval/build_qa_set.py). A text is the list of its code points.
pub mod Longest
use Prim.Native.Char.{code}
use spr1n6_osscontest_server.Common.{
  ℕ, zero, suc, ◌+◌, String, Bool, true, false, ◌&&◌, ◌||◌, List, [], ◌∷◌, leb, eqb, if◌then◌else◌,
  length, take, filter,
}

abbrev pub codes : String → List ℕ
codes String.[] = []
codes (String.◌∷◌ c s) = code c ∷ codes s

-- `[0-9A-Za-z가-힣]`
abbrev pub is_kept : ℕ → Bool
is_kept c =
    (leb 48 c && leb c 57)
    || (leb 65 c && leb c 90)
    || (leb 97 c && leb c 122)
    || (leb 0xAC00 c && leb c 0xD7A3)

unfoldable pub normalize : String → List ℕ
normalize text = filter is_kept (codes text)

abbrev pub starts_with : List ℕ → List ℕ → Bool
starts_with [] s = true
starts_with (x ∷ w) [] = false
starts_with (x ∷ w) (y ∷ s) = eqb x y && starts_with w s

-- `w in s`
abbrev pub occurs : List ℕ → List ℕ → Bool
occurs w [] = starts_with w []
occurs w (y ∷ s) = starts_with w (y ∷ s) || occurs w s

-- The inner loop at one start, where `rest` is `q[i:]`, `j` is `best + 1`.
unfoldable pub extend : ℕ → List ℕ → List ℕ → ℕ → ℕ
extend zero rest c best = best
extend (suc fuel) rest c best =
    let more = extend fuel rest c (best + 1) in
    if leb (best + 1) (length rest) && occurs (take (best + 1) rest) c then more else best

-- The outer loop. A start has as many rounds as it has characters.
unfoldable pub longest : List ℕ → List ℕ → ℕ → ℕ
unfolding extend
longest [] c best = best
longest (x ∷ rest) c best = longest rest c (extend (suc (length rest)) (x ∷ rest) c best)

abbrev pub is_blank_text : List ℕ → Bool
is_blank_text [] = true
is_blank_text (_ ∷ _) = false

unfoldable pub max_shared_ngram : String → String → ℕ
unfolding normalize longest
max_shared_ngram question content =
    let q = normalize question in
    let c = normalize content in if is_blank_text q || is_blank_text c then 0 else longest q c 0
