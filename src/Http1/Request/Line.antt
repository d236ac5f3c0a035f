-- ===== src/Http1/Request/Line.antt =====
-- `ParseRequestLine` against the form of a request line.
use wbsv.Common.{
  ◌≡◌, refl, ◌≢◌, ◌↔◌, ◌⊎◌, inl, inr, Bool, false, not, ◌&&◌, ◌||◌, List, [], ◌∷◌, ◌++◌, arith,
  Bool-cases, Bytes, All, Lacks, bytes_eq, bytes_eq_iff,
}
use wbsv.GoText.{join, contains_any, split}
use wbsv.GoText.Cut.{split-append, split_of_Lacks, join-split, split-Lacks, contains_any-eq-false}
use wbsv.Http1.Errors.{malformed_request_line, unsupported_version, ok, fail_if-eq-ok}
use wbsv.Http1.Header.{is_empty}
use wbsv.Http1.Header.Field.{Avoids, is_empty-eq-false, is_empty_of_ne_nil}
use wbsv.Http1.Request.{
  RequestLine, http_1_1, http_1_0, control_white, parse_parts, parse_request_line,
}

-- One part of a request line: not empty, with no space, tab or line break.
pub record IsPart (s : Bytes) : Type 0 where
  pub ne_nil : s ≢ []
  pub no_space : Lacks b' ' s
  pub avoids : Avoids control_white s

-- The line is the three parts with one space between them, and the version is one of two.
pub record IsRequestLine (line : Bytes) (q : RequestLine) : Type 0 where
  pub splits : line ≡ q.method ++ (b' ' ∷ (q.request_target ++ (b' ' ∷ q.version)))
  pub method : IsPart q.method
  pub target : IsPart q.request_target
  pub version : IsPart q.version
  pub known : (q.version ≡ http_1_1) ⊎ (q.version ≡ http_1_0)

or-eq-false : (a b c : Bool) → (a || b || c) ≡ false → (a ≡ false) × (b ≡ false) × (c ≡ false)
or-eq-false a b c h = ground arith

known_version :
    (v : Bytes)
    → (not (bytes_eq v http_1_1) && not (bytes_eq v http_1_0)) ≡ false
    → (v ≡ http_1_1) ⊎ (v ≡ http_1_0)
known_version v h = elim (Bool-cases (bytes_eq v http_1_1)) [
  | inl same ↦ inl ((bytes_eq_iff v http_1_1).0 same)
  | inr other ↦ inr ((bytes_eq_iff v http_1_0).0 (ground arith))
]

parse_parts_sound :
    (m t v : Bytes) {q : RequestLine}
    → parse_parts (m ∷ t ∷ v ∷ []) ≡ ok q
    → All (Lacks b' ') (m ∷ t ∷ v ∷ [])
    → IsRequestLine (m ++ (b' ' ∷ (t ++ (b' ' ∷ v)))) q
unfolding parse_parts
parse_parts_sound m t v {q} h (lm, (lt, (lv, _))) =
    let (nonempty, h1) =
      fail_if-eq-ok (is_empty m || is_empty t || is_empty v) malformed_request_line _ h in
    let (clean, h2) =
      fail_if-eq-ok
        (contains_any m control_white
          || contains_any t control_white
          || contains_any v control_white)
        malformed_request_line _ h1 in
    let (known, h3) =
      fail_if-eq-ok (not (bytes_eq v http_1_1) && not (bytes_eq v http_1_0)) unsupported_version _
        h2 in
    let (em, et, ev) = or-eq-false (is_empty m) (is_empty t) (is_empty v) nonempty in
    let (cm, ct, cv) =
      or-eq-false (contains_any m control_white) (contains_any t control_white)
        (contains_any v control_white) clean in
    let same : record { method = m; request_target = t; version = v } ≡ q = ground arith in
    rw (← same) (record {
      splits = refl;
      method = part m em lm cm;
      target = part t et lt ct;
      version = part v ev lv cv;
      known = known_version v known;
    })
  where
    part :
        (s : Bytes)
        → is_empty s ≡ false
        → Lacks b' ' s
        → contains_any s control_white ≡ false
        → IsPart s
    part s e l c = record {
      ne_nil = is_empty-eq-false e;
      no_space = l;
      avoids = (contains_any-eq-false s control_white).0 c;
    }

parse_request_line_sound :
    (line : Bytes) (q : RequestLine) → parse_request_line line ≡ ok q → IsRequestLine line q
unfolding parse_request_line parse_parts join
parse_request_line_sound line q h =
    of_parts (split b' ' line) h (split-Lacks b' ' line) (join-split b' ' line)
  where
    of_parts :
        (parts : List Bytes)
        → parse_parts parts ≡ ok q
        → All (Lacks b' ') parts
        → join b' ' parts ≡ line
        → IsRequestLine line q
    of_parts (m ∷ t ∷ v ∷ []) h l e = rw (← e) (parse_parts_sound m t v h l)
    of_parts [] h l e = cc
    of_parts _ h l e = ground arith

parse_parts_complete :
    (q : RequestLine)
    → IsPart q.method
    → IsPart q.request_target
    → IsPart q.version
    → (q.version ≡ http_1_1) ⊎ (q.version ≡ http_1_0)
    → parse_parts (q.method ∷ q.request_target ∷ q.version ∷ []) ≡ ok q
unfolding parse_parts
parse_parts_complete q m t v known =
    rw
      (
        is_empty_of_ne_nil q.method m.ne_nil,
        is_empty_of_ne_nil q.request_target t.ne_nil,
        is_empty_of_ne_nil q.version v.ne_nil,
        (contains_any-eq-false q.method control_white).1 m.avoids,
        (contains_any-eq-false q.request_target control_white).1 t.avoids,
        (contains_any-eq-false q.version control_white).1 v.avoids,
      )
      (ground (arith, bytes_eq_iff q.version http_1_1, bytes_eq_iff q.version http_1_0))

parse_request_line_complete :
    (line : Bytes) (q : RequestLine) → IsRequestLine line q → parse_request_line line ≡ ok q
unfolding parse_request_line
parse_request_line_complete line q d =
    rw
      (
        d.splits,
        split-append b' ' q.method (q.request_target ++ (b' ' ∷ q.version)) d.method.no_space,
        split-append b' ' q.request_target q.version d.target.no_space,
        split_of_Lacks b' ' q.version d.version.no_space,
      )
      (parse_parts_complete q d.method d.target d.version d.known)

-- `ParseRequestLine` returns a request line exactly for the lines that are a method, a target and a
-- version with single spaces between them: each part is not empty and holds no space, tab or line
-- break, and the version is HTTP/1.1 or HTTP/1.0.
pub parse_request_line_iff :
    (line : Bytes) (q : RequestLine) → (parse_request_line line ≡ ok q) ↔ IsRequestLine line q
parse_request_line_iff line q =
    (parse_request_line_sound line q, parse_request_line_complete line q)
