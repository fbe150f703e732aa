-- ===== src/Eval/Overlap/Longest.antt =====
-- What `max_shared_ngram` finds (scripts/eval/build_qa_set.py).
use spr1n6_osscontest_server.Common.{
  ℕ, zero, suc, ◌+◌, ◌≤◌, ◌≡◌, refl, sym, ap, subst, ◌∙◌, ◌⊎◌, inl, inr, String, true, false, ◌&&◌,
  ◌||◌, List, [], ◌∷◌, ◌++◌, arith, leb, eqb, if◌then◌else◌, length, length-append, take,
  Bool-cases, eqb_iff, leb_iff, &&-eq-true,
}
use mathlib.Core.List.{append_assoc}
use spr1n6_osscontest_server.Eval.Overlap.{
  starts_with, occurs, extend, longest, max_shared_ngram, normalize, is_blank_text,
}

-- `w` stands in `s` from some place on.
abbrev pub Occurs : List ℕ → List ℕ → Type 0
Occurs w s = (before : List ℕ) × (after : List ℕ) × (s ≡ before ++ (w ++ after))

-- `n` is the length of a text that both share, and no text that both share is longer.
pub record IsLongest (q c : List ℕ) (n : ℕ) : Type 0 where
  pub word : List ℕ
  pub size : length word ≡ n
  pub in_question : Occurs word q
  pub in_content : Occurs word c
  pub bound : (w : List ℕ) → Occurs w q → Occurs w c → length w ≤ n

starts_with→ : (w s : List ℕ) → starts_with w s ≡ true → (after : List ℕ) × (s ≡ w ++ after)
starts_with→ [] s h = (s, refl)
starts_with→ (x ∷ w) [] h = cc
starts_with→ (x ∷ w) (y ∷ s) h =
    let both = &&-eq-true (eqb x y) (starts_with w s) h in
    let (after, e) = starts_with→ w s both.1 in (after, cc (e, (eqb_iff x y).0 both.0))

→starts_with : (w after : List ℕ) → starts_with w (w ++ after) ≡ true
→starts_with [] after = refl
→starts_with (x ∷ w) after = rw ((eqb_iff x x).1 refl) (→starts_with w after)

occurs→ : (w s : List ℕ) → occurs w s ≡ true → Occurs w s
occurs→ w [] h = let (after, e) = starts_with→ w [] h in ([], after, e)
occurs→ w (y ∷ s) h = elim (Bool-cases (starts_with w (y ∷ s))) [
  | inl t ↦ let (after, e) = starts_with→ w (y ∷ s) t in ([], after, e)
  | inr f ↦
      let (before, after, e) = occurs→ w s (rw f at h) in (y ∷ before, after, ap (λ r. y ∷ r) e)
]

occurs-of_start : (w s : List ℕ) → starts_with w s ≡ true → occurs w s ≡ true
occurs-of_start w [] h = h
occurs-of_start w (y ∷ s) h = rw h refl

→occurs : (w before after : List ℕ) → occurs w (before ++ (w ++ after)) ≡ true
→occurs w [] after = occurs-of_start w (w ++ after) (→starts_with w after)
→occurs w (y ∷ before) after = ground (arith, →occurs w before after)

Occurs-occurs : (w s : List ℕ) → Occurs w s → occurs w s ≡ true
Occurs-occurs w s (before, after, e) = rw e (→occurs w before after)

-- A prefix of a text, by its length.
take-append : (w after : List ℕ) → take (length w) (w ++ after) ≡ w
take-append [] after = refl
take-append (x ∷ w) after = ap (λ r. x ∷ r) (take-append w after)

take-split : (n : ℕ) (s : List ℕ) → (after : List ℕ) × (s ≡ take n s ++ after)
take-split zero s = (s, refl)
take-split (suc n) [] = ([], refl)
take-split (suc n) (x ∷ s) = let (after, e) = take-split n s in (after, ap (λ r. x ∷ r) e)

length-take : (n : ℕ) (s : List ℕ) → n ≤ length s → length (take n s) ≡ n
length-take zero s h = refl
length-take (suc n) [] h = omega arith
length-take (suc n) (x ∷ s) h = ap suc (length-take n s (omega arith))

-- A shorter prefix of a word that occurs occurs too.
take-take : (m n : ℕ) (s : List ℕ) → m ≤ n → take m (take n s) ≡ take m s
take-take zero n s h = refl
take-take (suc m) zero s h = absurd (omega arith)
take-take (suc m) (suc n) [] h = refl
take-take (suc m) (suc n) (x ∷ s) h = ap (λ r. x ∷ r) (take-take m n s (omega arith))

occurs-part : (w rest c : List ℕ) → Occurs (w ++ rest) c → occurs w c ≡ true
occurs-part w rest c (before, after, e) =
    rw (e, append_assoc w rest after) (→occurs w before (rest ++ after))

occurs-shorter :
    (m n : ℕ) (s c : List ℕ) → m ≤ n → occurs (take n s) c ≡ true → occurs (take m s) c ≡ true
occurs-shorter m n s c h k =
    let (rest, d) = take-split m (take n s) in
    subst (λ w. occurs w c ≡ true) (take-take m n s h)
      (occurs-part (take m (take n s)) rest c (subst (λ w. Occurs w c) d (occurs→ (take n s) c k)))

-- What the inner loop returns: it does not get smaller, it is the length of a shared prefix if it
-- grew, and no shared prefix is longer.
record IsExtended (rest c : List ℕ) (best n : ℕ) : Type 0 where
  grows : best ≤ n
  shared : (n ≡ best) ⊎ ((n ≤ length rest) × (occurs (take n rest) c ≡ true))
  stops : n + 1 ≤ length rest → occurs (take (n + 1) rest) c ≡ false

extend-IsExtended :
    (fuel : ℕ) (rest c : List ℕ) (best : ℕ)
    → length rest ≤ best + fuel
    → IsExtended rest c best (extend fuel rest c best)
unfolding extend
extend-IsExtended zero rest c best h = record {
  grows = omega arith;
  shared = inl refl;
  stops = λ k. absurd (omega arith);
}
extend-IsExtended (suc fuel) rest c best h =
    elim (Bool-cases (leb (best + 1) (length rest) && occurs (take (best + 1) rest) c)) [
      | inl t ↦
          let both = &&-eq-true (leb (best + 1) (length rest)) _ t in
          let e = extend-IsExtended fuel rest c (best + 1) (omega arith) in
          rw t (record {
            grows = omega (arith, e.grows);
            shared = elim e.shared [
              | inl d ↦ inr (
                omega (arith, (leb_iff (best + 1) (length rest)).0 both.0),
                subst (λ m. occurs (take m rest) c ≡ true) (sym d) both.1,
              )
              | inr d ↦ inr d
            ];
            stops = e.stops;
          })
      | inr f ↦ rw f (record { grows = omega arith; shared = inl refl; stops = λ k. ground arith })
    ]

-- No shared prefix is longer than what the inner loop returns.
prefix-le :
    (w after c : List ℕ) (best n : ℕ)
    → IsExtended (w ++ after) c best n
    → occurs w c ≡ true
    → length w ≤ n
prefix-le w after c best n e h = elim (Bool-cases (leb (length w) n)) [
  | inl t ↦ (leb_iff (length w) n).0 t
  | inr f ↦
      let longer : n + 1 ≤ length w = ground arith in
      absurd (
        clash
          (occurs-shorter (n + 1) (length w) (w ++ after) c longer
            (subst (λ r. occurs r c ≡ true) (sym (take-append w after)) h))
          (e.stops (omega (arith, length-append w after))))
]
  where
    clash :
        occurs (take (n + 1) (w ++ after)) c ≡ true
        → occurs (take (n + 1) (w ++ after)) c ≡ false
        → ⊥
    clash a b = cc

-- What the outer loop returns for the texts that start in `rest`.
record IsLongestFrom (rest c : List ℕ) (best n : ℕ) : Type 0 where
  grows : best ≤ n
  shared : (n ≡ best) ⊎ ((word : List ℕ) × (length word ≡ n) × Occurs word rest × Occurs word c)
  bound : (w : List ℕ) → Occurs w rest → Occurs w c → length w ≤ n

shared-prefix :
    (rest c : List ℕ) (best n : ℕ)
    → IsExtended rest c best n
    → (n ≡ best) ⊎ ((word : List ℕ) × (length word ≡ n) × Occurs word rest × Occurs word c)
shared-prefix rest c best n e = elim e.shared [
  | inl d ↦ inl d
  | inr (k, t) ↦
      let (after, split) = take-split n rest in
      inr (take n rest, length-take n rest k, ([], after, split), occurs→ (take n rest) c t)
]

later-start : (x : ℕ) (rest w : List ℕ) → Occurs w rest → Occurs w (x ∷ rest)
later-start x rest w (before, after, e) = (x ∷ before, after, ap (λ r. x ∷ r) e)

bound-cons :
    (x : ℕ) (rest c : List ℕ) (best m n : ℕ)
    → IsExtended (x ∷ rest) c best m
    → IsLongestFrom rest c m n
    → (w : List ℕ) → Occurs w (x ∷ rest)
    → Occurs w c
    → length w ≤ n
bound-cons x rest c best m n e l w ([], after, split) k = omega (
  arith,
  l.grows,
  prefix-le w after c best m (subst (λ r. IsExtended r c best m) split e) (Occurs-occurs w c k),
)
bound-cons x rest c best m n e l w (y ∷ before, after, split) k = l.bound w (before, after, cc) k

Occurs-empty : (w : List ℕ) (n : ℕ) → Occurs w [] → length w ≤ n
Occurs-empty [] n o = omega arith
Occurs-empty (x ∷ w) n ([], after, e) = cc
Occurs-empty (x ∷ w) n (y ∷ before, after, e) = cc

longest-IsLongestFrom :
    (rest c : List ℕ) (best : ℕ) → IsLongestFrom rest c best (longest rest c best)
unfolding longest
longest-IsLongestFrom [] c best = record {
  grows = omega arith;
  shared = inl refl;
  bound = λ w o k. Occurs-empty w best o;
}
longest-IsLongestFrom (x ∷ rest) c best =
    let m = extend (suc (length rest)) (x ∷ rest) c best in
    let e = extend-IsExtended (suc (length rest)) (x ∷ rest) c best (omega arith) in
    let l = longest-IsLongestFrom rest c m in
    record {
      grows = omega (arith, e.grows, l.grows);
      shared = from l.shared (shared-prefix (x ∷ rest) c best m e);
      bound = bound-cons x rest c best m (longest rest c m) e l;
    }
  where
    from :
        {m n : ℕ}
        → (n ≡ m) ⊎ ((word : List ℕ) × (length word ≡ n) × Occurs word rest × Occurs word c)
        → (m ≡ best)
          ⊎ ((word : List ℕ) × (length word ≡ m) × Occurs word (x ∷ rest) × Occurs word c)
        → (n ≡ best)
          ⊎ ((word : List ℕ) × (length word ≡ n) × Occurs word (x ∷ rest) × Occurs word c)
    from (inr (word, size, o, k)) other = inr (word, size, later-start x rest word o, k)
    from (inl d) (inl b) = inl (d ∙ b)
    from (inl d) (inr (word, size, o, k)) = inr (word, size ∙ sym d, o, k)

-- A shared text of length zero is the empty one.
from_zero :
    (q c : List ℕ) (n : ℕ)
    → (n ≡ 0) ⊎ ((word : List ℕ) × (length word ≡ n) × Occurs word q × Occurs word c)
    → ((w : List ℕ) → Occurs w q → Occurs w c → length w ≤ n)
    → IsLongest q c n
from_zero q c n (inl e) h = record {
  word = [];
  size = sym e;
  in_question = ([], q, refl);
  in_content = ([], c, refl);
  bound = h;
}
from_zero q c n (inr (word, size, o, k)) h = record {
  word = word;
  size = size;
  in_question = o;
  in_content = k;
  bound = h;
}

IsLongest-cases :
    (q c : List ℕ) → IsLongest q c (if is_blank_text q || is_blank_text c then 0 else longest q c 0)
IsLongest-cases [] c = from_zero [] c 0 (inl refl) (λ w o k. Occurs-empty w 0 o)
IsLongest-cases (x ∷ q) [] = from_zero (x ∷ q) [] 0 (inl refl) (λ w o k. Occurs-empty w 0 k)
IsLongest-cases (x ∷ q) (y ∷ c) =
    let l = longest-IsLongestFrom (x ∷ q) (y ∷ c) 0 in
    from_zero (x ∷ q) (y ∷ c) (longest (x ∷ q) (y ∷ c) 0) l.shared l.bound

-- `max_shared_ngram` returns the length of the longest text that the question and the content share
-- once all but letters and digits is dropped.
pub max_shared_ngram-IsLongest :
    (question content : String)
    → IsLongest (normalize question) (normalize content) (max_shared_ngram question content)
unfolding max_shared_ngram
max_shared_ngram-IsLongest question content =
    IsLongest-cases (normalize question) (normalize content)
