-- ===== src/Httpserver/Cache/Tags.antt =====
-- An entity tag that was sent, and comes back in If-None-Match.
use wbsv.Common.{
  ℕ, zero, suc, ◌≡◌, refl, sym, ◌≢◌, inl, inr, Bool, true, false, not, ◌&&◌, ◌||◌, some, List, [],
  ◌∷◌, ◌++◌, arith, Bool-cases, guard-eq-some, Bytes, codes, drop, All, All-map, Lacks, any,
  bytes_eq, bytes_eq_iff,
}
use wbsv.Http1.Header.{line_breaks, is_empty, blanks}
use wbsv.GoText.Trim.{trim-IsTrimmed, trim_of_IsTrimmed, trim-All, EndsClean-append, IsTrimmed}
use wbsv.Httpserver.Cache.{
  etag_headers_match, response_etag_value, request_etag_matches, etag_part_matches, star, quote,
  weak_prefix, has_prefix, etag_value, weak_etag_value,
}
use wbsv.GoText.{split, equal_fold, trim, has_suffix, contains_any, has_prefix}
use mathlib.Core.Path.{subst}
use wbsv.GoText.Cut.{split-Lacks, split_of_Lacks, has_prefix_sound, contains_any-eq-false}

quoted-IsTrimmed : (s : Bytes) → IsTrimmed blanks (b'"' ∷ (s ++ quote))
quoted-IsTrimmed s = (refl, EndsClean-append blanks (b'"' ∷ s) b'"' [] refl)

etag_value-IsTrimmed :
    (etag value : Bytes)
    → IsTrimmed blanks etag
    → etag_value etag ≡ some value
    → IsTrimmed blanks value
unfolding etag_value
etag_value-IsTrimmed etag value t h =
    let (_, h1) =
      guard-eq-some (is_empty etag || bytes_eq etag star || contains_any etag line_breaks) _ h in
    elim (Bool-cases (has_prefix etag (weak_prefix ++ quote) && has_suffix etag quote)) [
      | inl weak ↦ subst (IsTrimmed blanks) (same etag value (rw weak at h1)) t
      | inr not_weak ↦ elim (Bool-cases (has_prefix etag quote && has_suffix etag quote)) [
        | inl strong ↦ subst (IsTrimmed blanks) (same etag value (rw (not_weak, strong) at h1)) t
        | inr bare ↦
            let (_, h2) = guard-eq-some (contains_any etag quote) _ (rw (not_weak, bare) at h1) in
            subst (IsTrimmed blanks) (same (b'"' ∷ (etag ++ quote)) value h2)
              (quoted-IsTrimmed etag)
      ]
    ]
  where
    same : (a b : Bytes) → some a ≡ some b → a ≡ b
    same a b e = ground arith

weak_etag-Lacks : (b : ℕ) (s : Bytes) → Lacks b s → Lacks b (weak_etag_value s)
unfolding weak_etag_value
weak_etag-Lacks b s h = elim (Bool-cases (has_prefix s weak_prefix)) [
  | inl weak ↦ rw weak (drop-Lacks 2 s h)
  | inr strong ↦ rw strong h
]
  where
    drop-Lacks : (n : ℕ) (s : Bytes) → Lacks b s → Lacks b (drop n s)
    drop-Lacks zero s h = h
    drop-Lacks (suc n) [] h = tt
    drop-Lacks (suc n) (c ∷ s) (p, h) = drop-Lacks n s h

weak_etag-Lacks_back : (s : Bytes) → Lacks b',' (weak_etag_value s) → Lacks b',' s
unfolding weak_etag_value
weak_etag-Lacks_back s h = elim (Bool-cases (has_prefix s weak_prefix)) [
  | inl weak ↦
      let (rest, e) = has_prefix_sound s weak_prefix weak in
      let tail : Lacks b',' rest = subst (λ x. Lacks b',' (drop 2 x)) e (rw weak at h) in
      subst (Lacks b',') (sym e) (omega arith, (omega arith, tail))
  | inr strong ↦ rw strong at h
]

abbrev has_comma : Bytes → Bool
has_comma s = contains_any s (b',' ∷ [])

has_comma-Lacks : (s : Bytes) → has_comma s ≡ false → Lacks b',' s
has_comma-Lacks s h = All-map (λ c k. ground arith) s ((contains_any-eq-false s (b',' ∷ [])).0 h)

Lacks-has_comma : (s : Bytes) → Lacks b',' s → has_comma s ≡ false
Lacks-has_comma s h = (contains_any-eq-false s (b',' ∷ [])).1 (All-map (λ c k. ground arith) s h)

-- A part of a list has no comma, so it is no tag with one.
part_differs :
    (value part : Bytes)
    → has_comma value ≡ true
    → Lacks b',' part
    → bytes_eq (weak_etag_value (trim blanks part)) (weak_etag_value value) ≡ false
part_differs value part h k =
    elim (Bool-cases (bytes_eq (weak_etag_value (trim blanks part)) (weak_etag_value value))) [
      | inr differs ↦ differs
      | inl same ↦
          let e =
            (bytes_eq_iff (weak_etag_value (trim blanks part)) (weak_etag_value value)).0 same in
          let clean =
            weak_etag-Lacks b',' (trim blanks part) (trim-All (λ c. c ≢ b',') blanks part k) in
          let none_left =
            Lacks-has_comma value (weak_etag-Lacks_back value (subst (Lacks b',') e clean)) in
          ground (arith, none_left, h)
    ]

abbrev is_star : Bytes → Bool
is_star part = bytes_eq (trim blanks part) star

parts_differ :
    (value : Bytes) (parts : List Bytes)
    → has_comma value ≡ true
    → All (Lacks b',') parts
    → any (etag_part_matches value) parts ≡ any is_star parts
parts_differ value [] h k = refl
parts_differ value (part ∷ parts) h (p, k) =
    rw (part_differs value part h p, parts_differ value parts h k) (ground arith)

-- A client that sends back the entity tag of a response, as it got it, in If-None-Match: the tag is
-- known again exactly when it has no comma, or when one of its parts between commas is an asterisk.
pub request_etag_matches-sent :
    (etag value name : Bytes)
    → response_etag_value etag ≡ some value
    → equal_fold name (codes "If-None-Match") ≡ true
    → request_etag_matches (record { name = name; value = value } ∷ []) etag ≡ (
        not (contains_any value (b',' ∷ []))
        || any (λ part. bytes_eq (trim blanks part) star) (split b',' value))
unfolding request_etag_matches response_etag_value etag_headers_match
request_etag_matches-sent etag value name h e =
    rw (h, e)
      (elim (Bool-cases (has_comma value)) [
        | inr clean ↦
            let whole = split_of_Lacks b',' value (has_comma-Lacks value clean) in
            let trimmed =
              trim_of_IsTrimmed blanks value
                (etag_value-IsTrimmed (trim blanks etag) value (trim-IsTrimmed blanks etag) h) in
            let same = (bytes_eq_iff (weak_etag_value value) (weak_etag_value value)).1 refl in
            rw (whole, trimmed, same, clean) (ground arith)
        | inl comma ↦
            rw (comma, parts_differ value (split b',' value) comma (split-Lacks b',' value))
              (ground arith)
      ])
