-- ===== src/Httpserver/HeaderSafety/Clean.antt =====
-- The checked calls of internal/httpserver/response_writer.go keep headers that can be written.
use wbsv.Common.{
  ℕ, ◌≡◌, refl, inl, inr, false, ◌&&◌, ◌||◌, Option, none, some, List, [], ◌∷◌, ◌++◌, arith,
  some-injective, ◌==◌, Bool-cases, guard-eq-some, Bytes, codes, All, All-append, All-map, bytes_eq,
  ℤ, pos,
}
use wbsv.Http1.Response.Head.{IsClean}
use mathlib.Core.Path.{subst}
use wbsv.Httpserver.Cache.{
  not_modified_from, invalid_cache_header_value, write_not_modified, response_etag_value,
  set_cache_control, set_last_modified, set_etag, set_tag, quote, weak_prefix, star, etag_value,
}
use wbsv.Http1.Header.Field.{is_empty-eq-false, Avoids}
use wbsv.Httpserver.ResponseWriter.{
  is_zero, use_chunked_encoding, write_bytes, write_header, add_header, ResponseWriter, set_field,
  set_header,
}
use wbsv.Http1.Header.{blanks, white, line_breaks, is_empty, HeaderField}
use wbsv.GoText.{trim, one_of, has_suffix, has_prefix, equal_fold, contains_any}
use wbsv.GoText.Cut.{contains_any-eq-false}
use wbsv.Httpserver.Cookie.{set_cookie_value, add_cookie, Cookie, set_cookie, cookie_value_breaks}
use wbsv.Httpserver.Events.{encode_server_sent_event, write_encoded, write_event, ServerSentEvent}
use wbsv.Httpserver.Cookie.Attributes.{set_cookie_value-splits}

abbrev field_of : Bytes → Bytes → HeaderField
field_of name value = record { name = name; value = value }

-- A name that the code spells out.
abbrev IsName : Bytes → Type 0
IsName name = (is_empty name ≡ false) × (contains_any name white ≡ false)

named-IsClean :
    (name value : Bytes) → IsName name → Avoids line_breaks value → IsClean (field_of name value)
named-IsClean name value (ne, h) k = record {
  name_ne_nil = is_empty-eq-false ne;
  name_avoids = (contains_any-eq-false name white).0 h;
  value_avoids = k;
}

abbrev pub AllClean : ResponseWriter → Type 0
AllClean w = All IsClean w.headers

set_field-IsClean :
    (hs : List HeaderField) (name value : Bytes)
    → IsName name
    → Avoids line_breaks value
    → All IsClean hs
    → All IsClean (set_field hs name value)
unfolding set_field
set_field-IsClean [] name value n k h = (named-IsClean name value n k, tt)
set_field-IsClean (f ∷ hs) name value n k (c, h) = elim (Bool-cases (equal_fold f.name name)) [
  | inl same ↦
      rw same
        (record { name_ne_nil = c.name_ne_nil; name_avoids = c.name_avoids; value_avoids = k }, h)
  | inr other ↦ rw other (c, set_field-IsClean hs name value n k h)
]

set_header-AllClean :
    (w : ResponseWriter) (name value : Bytes)
    → IsName name
    → Avoids line_breaks value
    → AllClean w
    → AllClean (set_header w name value)
unfolding set_header
set_header-AllClean w name value n k h = set_field-IsClean w.headers name value n k h

pub write_header-AllClean :
    (w : ResponseWriter) (code : ℤ) → AllClean w → AllClean (write_header w code)
unfolding write_header
write_header-AllClean w code h = elim (Bool-cases (is_zero w.status_code)) [
  | inl unset ↦ rw unset h
  | inr set ↦ rw set h
]

etag_value-Avoids : (etag value : Bytes) → etag_value etag ≡ some value → Avoids line_breaks value
unfolding etag_value
etag_value-Avoids etag value h =
    let (tested, h1) =
      guard-eq-some (is_empty etag || bytes_eq etag star || contains_any etag line_breaks) _ h in
    let clean : Avoids line_breaks etag =
      (contains_any-eq-false etag line_breaks).0 (ground (arith, tested)) in
    elim (Bool-cases (has_prefix etag (weak_prefix ++ quote) && has_suffix etag quote)) [
      | inl weak ↦ subst (Avoids line_breaks) (some-injective _ _ (rw weak at h1)) clean
      | inr not_weak ↦ elim (Bool-cases (has_prefix etag quote && has_suffix etag quote)) [
        | inl strong ↦
            subst (Avoids line_breaks) (some-injective _ _ (rw (not_weak, strong) at h1)) clean
        | inr bare ↦
            let (_, h2) = guard-eq-some (contains_any etag quote) _ (rw (not_weak, bare) at h1) in
            subst (Avoids line_breaks) (some-injective _ _ h2)
              (refl, All-append (λ c. one_of line_breaks c ≡ false) etag quote clean (refl, tt))
      ]
    ]

module _ (format_time : ℕ → Bytes)
    (clean : (t : ℕ) → Avoids cookie_value_breaks (format_time t)) where
  pub set_last_modified-AllClean :
      (w : ResponseWriter) (t : ℕ) → AllClean w → AllClean (set_last_modified format_time w t)
  unfolding set_last_modified
  set_last_modified-AllClean w t h = elim (Bool-cases (t == 0)) [
    | inl zero_time ↦ rw zero_time h
    | inr given ↦ rw given (
        set_header-AllClean w (codes "Last-Modified") (format_time t) (refl, refl)
          (All-map (λ c k. ground arith) (format_time t) (clean t)) h)
  ]

  set_tag-AllClean :
      (w w' : ResponseWriter) (o : Option Bytes)
      → ((value : Bytes) → o ≡ some value → Avoids line_breaks value)
      → AllClean w
      → set_tag w o ≡ some w'
      → AllClean w'
  set_tag-AllClean w w' none k h e = cc
  set_tag-AllClean w w' (some value) k h e =
      subst AllClean (some-injective _ _ e)
        (set_header-AllClean w (codes "ETag") value (refl, refl) (k value refl) h)

  pub set_etag-AllClean :
      (w w' : ResponseWriter) (etag : Bytes) → AllClean w → set_etag w etag ≡ some w' → AllClean w'
  unfolding set_etag response_etag_value
  set_etag-AllClean w w' etag h e =
      set_tag-AllClean w w' (response_etag_value etag) (etag_value-Avoids (trim blanks etag)) h e

  pub set_cookie-AllClean :
      (w w' : ResponseWriter) (c : Cookie)
      → AllClean w
      → set_cookie format_time w c ≡ some w'
      → AllClean w'
  unfolding set_cookie
  set_cookie-AllClean w w' c h e =
      added (set_cookie_value format_time c)
        (λ text k. (set_cookie_value-splits format_time c text clean k).2) e
    where
      added :
          (o : Option Bytes)
          → ((text : Bytes) → o ≡ some text → Avoids line_breaks text)
          → add_cookie w o ≡ some w'
          → AllClean w'
      added none k e = cc
      added (some text) k e = subst AllClean (some-injective _ _ e) (
          unfold add_header in
          All-append IsClean w.headers (field_of (codes "Set-Cookie") text ∷ []) h
            (named-IsClean (codes "Set-Cookie") text (refl, refl) (k text refl), tt))

  pub set_cache_control-AllClean :
      (w w' : ResponseWriter) (value : Bytes)
      → AllClean w
      → set_cache_control w value ≡ some w'
      → AllClean w'
  unfolding set_cache_control
  set_cache_control-AllClean w w' value h e =
      let (tested, e1) = guard-eq-some (invalid_cache_header_value value) _ e in
      let no_break : Avoids line_breaks value =
        (contains_any-eq-false value line_breaks).0 (ground (arith, tested)) in
      subst AllClean (some-injective _ _ e1)
        (set_header-AllClean w (codes "Cache-Control") value (refl, refl) no_break h)

  pub write_not_modified-AllClean :
      (w w' : ResponseWriter) (etag : Bytes) (t : ℕ)
      → AllClean w
      → write_not_modified format_time w etag t ≡ some w'
      → AllClean w'
  unfolding write_not_modified
  write_not_modified-AllClean w w' etag t h e = elim (Bool-cases (is_empty etag)) [
    | inl without ↦
        answered (some w) (λ v k. subst AllClean (some-injective _ _ k) h) (rw without at e)
    | inr tagged ↦
        answered (set_etag w etag) (λ v k. set_etag-AllClean w v etag h k) (rw tagged at e)
  ]
    where
      answered :
          (o : Option ResponseWriter)
          → ((v : ResponseWriter) → o ≡ some v → AllClean v)
          → not_modified_from format_time o t ≡ some w'
          → AllClean w'
      answered none k e = cc
      answered (some v) k e = subst AllClean (some-injective _ _ e) (
          write_header-AllClean (set_last_modified format_time v t) (pos 304)
            (set_last_modified-AllClean v t (k v refl)))

  pub write_event-AllClean :
      (w w' : ResponseWriter) (e : ServerSentEvent)
      → AllClean w
      → write_event w e ≡ some w'
      → AllClean w'
  unfolding write_event
  write_event-AllClean w w' e h is = written (encode_server_sent_event e) is
    where
      written : (o : Option Bytes) → write_encoded w o ≡ some w' → AllClean w'
      written none is = cc
      written (some encoded) is = subst AllClean (some-injective _ _ is) (
          unfold write_bytes use_chunked_encoding in
          set_header-AllClean (set_header w (codes "Content-Type") (codes "text/event-stream"))
            (codes "Cache-Control") (codes "no-cache") (refl, refl)
            ((contains_any-eq-false (codes "no-cache") line_breaks).0 refl)
            (set_header-AllClean w (codes "Content-Type") (codes "text/event-stream") (refl, refl)
              ((contains_any-eq-false (codes "text/event-stream") line_breaks).0 refl) h))
