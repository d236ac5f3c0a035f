-- ===== src/Httpserver/Cookie/Attributes.antt =====
-- What a Set-Cookie value holds, read as a client does: parts between semicolons.
use wbsv.Common.{
  ℕ, suc, ◌≡◌, refl, ap, ◌∙◌, inl, inr, Bool, true, false, not, ◌&&◌, ◌||◌, some, List, [], ◌∷◌,
  ◌++◌, append-nil, arith, Bool-cases, guard-eq-some, Bytes, codes, All, All-append, All-map, Lacks,
  ℤ, ltb_ℤ, pos, negsuc,
}
use wbsv.Httpserver.Cookie.{
  invalid_cookie_name, cookie_parts, cookie_text, Cookie, cookie_name_breaks, max_age_value,
  set_cookie_value, invalid_cookie_value, cookie_value_breaks, write_parts,
}
use wbsv.GoText.{cut, format_nat, is_digit, format_int, one_of, split, contains_any}
use wbsv.Http1.Header.Field.{Avoids}
use wbsv.Http1.Header.{line_breaks, is_empty}
use wbsv.GoText.Cut.{cut-append, split-append, split_of_Lacks, contains_any-eq-false}
use wbsv.GoText.Number.{format_nat-IsDigits}
use wbsv.Httpserver.Cookie.Asked.{chosen, chosen-attributes_of, attributes_of}

-- The parts that are there have no byte of the set.
abbrev pub AreClean : Bytes → List (Bool × Bytes) → Type 0
AreClean set [] = Unit
AreClean set ((there, part) ∷ parts) = (there ≡ true → Avoids set part) × AreClean set parts

pub Avoids-Lacks : (s : Bytes) → Avoids cookie_value_breaks s → Lacks b';' s
Avoids-Lacks s = All-map (λ c h. ground arith) s

split_parts :
    (first : Bytes) (parts : List (Bool × Bytes))
    → Lacks b';' first
    → AreClean cookie_value_breaks parts
    → split b';' (first ++ write_parts parts) ≡ first ∷ chosen parts
unfolding write_parts
split_parts first [] h c = rw append-nil (split_of_Lacks b';' first h)
split_parts first ((true, part) ∷ parts) h (k, c) =
    split-append b';' first (b' ' ∷ (part ++ write_parts parts)) h
    ∙ ap (◌∷◌ first) (split_parts (b' ' ∷ part) parts (omega arith, Avoids-Lacks part (k refl)) c)
split_parts first ((false, part) ∷ parts) h (k, c) = split_parts first parts h c

write_parts-Avoids :
    (parts : List (Bool × Bytes))
    → AreClean cookie_value_breaks parts
    → Avoids line_breaks (write_parts parts)
unfolding write_parts
write_parts-Avoids [] c = tt
write_parts-Avoids ((true, part) ∷ parts) (k, c) = (
  refl,
  (
    refl,
    All-append (λ c. one_of line_breaks c ≡ false) part (write_parts parts)
        (All-map (λ c h. ground arith) part (k refl)) (write_parts-Avoids parts c),
  ),
)
write_parts-Avoids ((false, part) ∷ parts) (k, c) = write_parts-Avoids parts c

-- The guards of an attribute that is written.
guarded :
    (value : Bytes)
    → (not (is_empty value) && invalid_cookie_value value) ≡ false
    → not (is_empty value) ≡ true
    → Avoids cookie_value_breaks value
guarded value h k = (contains_any-eq-false value cookie_value_breaks).0 (ground (arith, h, k))

labelled :
    (label value : Bytes)
    → Avoids cookie_value_breaks label
    → Avoids cookie_value_breaks value
    → Avoids cookie_value_breaks (label ++ value)
labelled label value h k = All-append (λ c. one_of cookie_value_breaks c ≡ false) label value h k

clean_label :
    (label : Bytes)
    → contains_any label cookie_value_breaks ≡ false
    → Avoids cookie_value_breaks label
clean_label label h = (contains_any-eq-false label cookie_value_breaks).0 h

digits_clean : (s : Bytes) → All (λ c. is_digit c ≡ true) s → Avoids cookie_value_breaks s
digits_clean s = All-map (λ c h. ground arith) s

pub pair_clean :
    (name value : Bytes)
    → Avoids cookie_name_breaks name
    → Avoids cookie_value_breaks value
    → Avoids cookie_value_breaks (name ++ b'=' ∷ value)
pair_clean name value h k =
    All-append (λ c. one_of cookie_value_breaks c ≡ false) name (b'=' ∷ value)
      (All-map (λ c h. ground arith) name h) (refl, k)

pub format_int-Avoids : (n : ℤ) → Avoids cookie_value_breaks (format_int n)
unfolding format_int
format_int-Avoids (pos n) = digits_clean (format_nat n) (format_nat-IsDigits n)
format_int-Avoids (negsuc n) =
    (refl, digits_clean (format_nat (suc n)) (format_nat-IsDigits (suc n)))

max_age_value-Avoids : (age : ℤ) → Avoids cookie_value_breaks (max_age_value age)
max_age_value-Avoids age = elim (Bool-cases (ltb_ℤ (pos 0) age)) [
  | inl future ↦ rw future (format_int-Avoids age)
  | inr past ↦ rw past (clean_label (codes "0") refl)
]

module _ (format_time : ℕ → Bytes)
    (clean : (t : ℕ) → Avoids cookie_value_breaks (format_time t)) where
  cookie_parts-AreClean :
      (c : Cookie)
      → (not (is_empty c.path) && invalid_cookie_value c.path) ≡ false
      → (not (is_empty c.domain) && invalid_cookie_value c.domain) ≡ false
      → (not (is_empty c.same_site) && invalid_cookie_value c.same_site) ≡ false
      → AreClean cookie_value_breaks (cookie_parts format_time c)
  cookie_parts-AreClean c path domain same_site = (
    λ there.
        labelled (codes "Path=") c.path (clean_label (codes "Path=") refl)
          (guarded c.path path there),
    (
      λ there.
          labelled (codes "Domain=") c.domain (clean_label (codes "Domain=") refl)
            (guarded c.domain domain there),
      (
        λ _.
            labelled (codes "Expires=") (format_time c.expires)
              (clean_label (codes "Expires=") refl) (clean c.expires),
        (
          λ _.
              labelled (codes "Max-Age=") (max_age_value c.max_age)
                (clean_label (codes "Max-Age=") refl) (max_age_value-Avoids c.max_age),
          (
            λ _. clean_label (codes "Secure") refl,
            (
              λ _. clean_label (codes "HttpOnly") refl,
              (
                λ there.
                    labelled (codes "SameSite=") c.same_site (clean_label (codes "SameSite=") refl)
                      (guarded c.same_site same_site there),
                tt,
              ),
            ),
          ),
        ),
      ),
    ),
  )

-- The value of a Set-Cookie header, when there is no error: a client that takes it apart at the
-- semicolons gets the pair of name and value, and then Path, Domain, Expires, Max-Age, Secure, HttpOnly
-- and SameSite, each if its field asks for it and with the value of the field, and nothing else; and
-- the pair taken apart at its first equals sign is the name and the value; nowhere is a line break.
-- Formatted times have no semicolon and no line break.
pub set_cookie_value-splits :
    (format_time : ℕ → Bytes) (c : Cookie) (text : Bytes)
    → ((t : ℕ) → Avoids cookie_value_breaks (format_time t))
    → set_cookie_value format_time c ≡ some text
    → (split b';' text ≡ (c.name ++ b'=' ∷ c.value) ∷ attributes_of format_time c)
      × (cut b'=' (c.name ++ b'=' ∷ c.value) ≡ some (c.name, c.value))
      × Avoids line_breaks text
unfolding set_cookie_value cookie_text
set_cookie_value-splits format_time c text clean h =
    let (pair, h1) =
      guard-eq-some (invalid_cookie_name c.name || invalid_cookie_value c.value) _ h in
    let (path, h2) = guard-eq-some (not (is_empty c.path) && invalid_cookie_value c.path) _ h1 in
    let (domain, h3) =
      guard-eq-some (not (is_empty c.domain) && invalid_cookie_value c.domain) _ h2 in
    let (site, h4) =
      guard-eq-some (not (is_empty c.same_site) && invalid_cookie_value c.same_site) _ h3 in
    let is : cookie_text format_time c ≡ text = ground (arith, h4) in
    let parts = cookie_parts-AreClean format_time clean c path domain site in
    let name : Avoids cookie_name_breaks c.name =
      (contains_any-eq-false c.name cookie_name_breaks).0 (ground (arith, pair)) in
    let value : Avoids cookie_value_breaks c.value =
      (contains_any-eq-false c.value cookie_value_breaks).0 (ground (arith, pair)) in
    let whole = pair_clean c.name c.value name value in
    rw (← is) (
      split_parts (c.name ++ b'=' ∷ c.value) (cookie_parts format_time c)
            (Avoids-Lacks (c.name ++ b'=' ∷ c.value) whole) parts
          ∙ ap (◌∷◌ (c.name ++ b'=' ∷ c.value)) (chosen-attributes_of format_time c),
      cut-append b'=' c.name c.value (All-map (λ c h. ground arith) c.name name),
      All-append (λ c. one_of line_breaks c ≡ false) (c.name ++ b'=' ∷ c.value)
          (write_parts (cookie_parts format_time c))
          (All-map (λ c h. ground arith) (c.name ++ b'=' ∷ c.value) whole)
          (write_parts-Avoids (cookie_parts format_time c) parts),
    )
