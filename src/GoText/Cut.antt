-- ===== src/GoText/Cut.antt =====
-- `strings.Cut`, `strings.Split`, `strings.ContainsAny`, `HasPrefix` and `HasSuffix`: what they find.
use mathlib.Core.List.{reverse, reverse-append, reverse-reverse}
use wbsv.Common.{
  ℕ, ◌≡◌, refl, sym, ap, ◌∙◌, ◌≢◌, ◌↔◌, inl, inr, true, false, none, some, List, [], ◌∷◌, ◌++◌,
  arith, ◌==◌, Bool-cases, Bytes, All, Lacks,
}
use wbsv.GoText.{join, one_of, contains_any, has_prefix, has_suffix, cut, cons_head, split}

-- The separator is not in the text: nothing is cut.
pub cut_of_Lacks : (sep : ℕ) (s : Bytes) → Lacks sep s → cut sep s ≡ none
unfolding cut
cut_of_Lacks sep [] h = refl
cut_of_Lacks sep (c ∷ s) (p, h) = ground (arith, cut_of_Lacks sep s h)

pub cut-append : (sep : ℕ) (a b : Bytes) → Lacks sep a → cut sep (a ++ sep ∷ b) ≡ some (a, b)
unfolding cut
cut-append sep [] b h = ground arith
cut-append sep (c ∷ a) b (p, h) = ground (arith, cut-append sep a b h)

pub cut_sound :
    (sep : ℕ) (s a b : Bytes) → cut sep s ≡ some (a, b) → (s ≡ a ++ sep ∷ b) × Lacks sep a
unfolding cut
cut_sound sep [] a b h = cc
cut_sound sep (c ∷ s) [] b h = ground (arith, cut_sound sep s [] b)
cut_sound sep (c ∷ s) (x ∷ a) b h = ground (arith, cut_sound sep s a b)

pub cut-eq-none : (sep : ℕ) (s : Bytes) → cut sep s ≡ none → Lacks sep s
unfolding cut
cut-eq-none sep [] h = tt
cut-eq-none sep (c ∷ s) h = ground (arith, cut-eq-none sep s)

pub split-append :
    (sep : ℕ) (p rest : Bytes) → Lacks sep p → split sep (p ++ sep ∷ rest) ≡ p ∷ split sep rest
unfolding split
split-append sep [] rest h = ground arith
split-append sep (c ∷ p) rest (q, h) = ground (arith, split-append sep p rest h)

pub split_of_Lacks : (sep : ℕ) (s : Bytes) → Lacks sep s → split sep s ≡ s ∷ []
unfolding split
split_of_Lacks sep [] h = refl
split_of_Lacks sep (c ∷ s) (q, h) = ground (arith, split_of_Lacks sep s h)

pub join-cons_head : (sep c : ℕ) (ps : List Bytes) → join sep (cons_head c ps) ≡ c ∷ join sep ps
unfolding join
join-cons_head sep c [] = refl
join-cons_head sep c (p ∷ []) = refl
join-cons_head sep c (p ∷ q ∷ ps) = refl

pub split-ne-nil : (sep : ℕ) (s : Bytes) → split sep s ≢ []
unfolding split
split-ne-nil sep [] h = cc
split-ne-nil sep (c ∷ s) h = ground arith

join-cons_nil : (sep : ℕ) (ps : List Bytes) → ps ≢ [] → join sep ([] ∷ ps) ≡ sep ∷ join sep ps
unfolding join
join-cons_nil sep [] h = absurd (h refl)
join-cons_nil sep (p ∷ ps) h = refl

join-single : (sep : ℕ) (p : Bytes) → join sep (p ∷ []) ≡ p
unfolding join
join-single sep p = refl

pub join-split : (sep : ℕ) (s : Bytes) → join sep (split sep s) ≡ s
unfolding split
join-split sep [] = join-single sep []
join-split sep (c ∷ s) = ground (
  arith,
  join-split sep s,
  join-cons_head sep c (split sep s),
  join-cons_nil sep (split sep s) (split-ne-nil sep s),
)

All-cons_head :
    (sep c : ℕ) (ps : List Bytes) → c ≢ sep → All (Lacks sep) ps → All (Lacks sep) (cons_head c ps)
All-cons_head sep c [] h k = ((h, tt), tt)
All-cons_head sep c (p ∷ ps) h (k, ks) = ((h, k), ks)

pub split-Lacks : (sep : ℕ) (s : Bytes) → All (Lacks sep) (split sep s)
unfolding split
split-Lacks sep [] = (tt, tt)
split-Lacks sep (c ∷ s) = elim (Bool-cases (c == sep)) [
  | inl here ↦ rw here (tt, split-Lacks sep s)
  | inr later ↦ rw later (All-cons_head sep c (split sep s) (ground arith) (split-Lacks sep s))
]

-- No byte of the set stands in the text.
pub contains_any-eq-false :
    (s set : Bytes) → (contains_any s set ≡ false) ↔ All (λ c. one_of set c ≡ false) s
contains_any-eq-false [] set = (λ _. tt, λ _. refl)
contains_any-eq-false (c ∷ s) set = ground (arith, contains_any-eq-false s set)

pub has_prefix-append : (t s : Bytes) → has_prefix (t ++ s) t ≡ true
unfolding has_prefix
has_prefix-append [] [] = refl
has_prefix-append [] (c ∷ s) = refl
has_prefix-append (x ∷ t) s = ground (arith, has_prefix-append t s)

pub has_prefix_sound : (s t : Bytes) → has_prefix s t ≡ true → (rest : Bytes) × (s ≡ t ++ rest)
unfolding has_prefix
has_prefix_sound s [] h = (s, refl)
has_prefix_sound [] (x ∷ t) h = cc
has_prefix_sound (c ∷ s) (x ∷ t) h =
    let (rest, e) = has_prefix_sound s t (ground arith) in (rest, ground arith)

pub has_suffix-append : (s t : Bytes) → has_suffix (s ++ t) t ≡ true
unfolding has_suffix
has_suffix-append s t = rw (reverse-append s t) (has_prefix-append (reverse t) (reverse s))

pub has_suffix_sound : (s t : Bytes) → has_suffix s t ≡ true → (front : Bytes) × (s ≡ front ++ t)
unfolding has_suffix
has_suffix_sound s t h =
    let (rest, e) = has_prefix_sound (reverse s) (reverse t) h in
    (
      reverse rest,
      sym (reverse-reverse s)
          ∙ ap reverse e
          ∙ reverse-append (reverse t) rest
          ∙ ap (λ v. reverse rest ++ v) (reverse-reverse t),
    )
