-- ===== src/Httpserver/Events/Stream.antt =====
-- A server-sent event as a client reads it from the stream.
use wbsv.Common.{
  zero, suc, ◌≡◌, refl, ap, ◌∙◌, ◌≢◌, inl, inr, Bool, true, false, not, Option, none, some, List,
  [], ◌∷◌, ◌++◌, append_assoc, arith, ◌==◌, if◌then◌else◌, Bool-cases, guard-eq-some, Bytes, codes,
  All, All-append, All-map, Lacks, ℤ, ltb_ℤ, pos, negsuc,
}
use wbsv.Httpserver.Events.{
  replace_crlf, replace_cr, line_breaks, normalize_sse_data, invalid_sse_field_value, event_fields,
  optional, data_fields, write_fields, encode_server_sent_event, split, ServerSentEvent,
}
use wbsv.GoText.{format_nat, cons_head, format_int, split, cut}
use wbsv.GoText.Cut.{split-Lacks, contains_any-eq-false, split-append, cut-append}
use wbsv.Httpserver.Cookie.Attributes.{format_int-Avoids}
use wbsv.Http1.Header.{is_empty, line_breaks}

abbrev drop_blank : Bytes → Bytes
drop_blank [] = []
drop_blank (c ∷ s) = if c == b' ' then s else c ∷ s

abbrev named : Bytes → Option (Bytes × Bytes) → Bytes × Bytes
named line none = (line, [])
named line (some (name, value)) = (name, drop_blank value)

-- A client's view of the lines of a stream: the fields up to the next empty line, and the lines behind
-- it. A field is a name, and behind a colon its value, without one blank at its start.
unfoldable pub read_event : List Bytes → List (Bytes × Bytes) × List Bytes
read_event [] = ([], [])
read_event ([] ∷ lines) = ([], lines)
read_event ((c ∷ line) ∷ lines) =
    let rest = read_event lines in (named (c ∷ line) (cut b':' (c ∷ line)) ∷ rest.0, rest.1)

-- A field that fits one line.
abbrev IsOneLine : Bytes × Bytes → Type 0
IsOneLine (name, value) = (name ≢ []) × Lacks b':' name × Lacks b'\n' name × Lacks b'\n' value

field_line :
    (name value : Bytes)
    → IsOneLine (name, value)
    → (rest : Bytes)
    → split b'\n' (name ++ b':' ∷ b' ' ∷ (value ++ b'\n' ∷ rest))
      ≡ (name ++ b':' ∷ b' ' ∷ value) ∷ split b'\n' rest
field_line name value (ne, colon, h, k) rest =
    rw (← append_assoc name (b':' ∷ b' ' ∷ value) (b'\n' ∷ rest)) (
      split-append b'\n' (name ++ b':' ∷ b' ' ∷ value) rest
        (All-append (λ c. c ≢ b'\n') name (b':' ∷ b' ' ∷ value) h (omega arith, (omega arith, k))))

read_event-field :
    (name value : Bytes) (lines : List Bytes)
    → IsOneLine (name, value)
    → read_event ((name ++ b':' ∷ b' ' ∷ value) ∷ lines)
      ≡ ((name, value) ∷ (read_event lines).0, (read_event lines).1)
unfolding read_event
read_event-field [] value lines (ne, h, _, _) = absurd (ne refl)
read_event-field (c ∷ name) value lines (ne, colon, _, _) =
    rw (cut-append b':' (c ∷ name) (b' ' ∷ value) colon) refl

read_event-write_fields :
    (fields : List (Bytes × Bytes)) (rest : Bytes)
    → All IsOneLine fields
    → read_event (split b'\n' (write_fields fields ++ b'\n' ∷ rest)) ≡ (fields, split b'\n' rest)
unfolding write_fields
read_event-write_fields [] rest h = unfold split read_event in refl
read_event-write_fields ((name, value) ∷ fields) rest (h, hs) =
    rw
      (
        append_assoc name (b':' ∷ b' ' ∷ (value ++ b'\n' ∷ write_fields fields)) (b'\n' ∷ rest),
        append_assoc value (b'\n' ∷ write_fields fields) (b'\n' ∷ rest),
        field_line name value h (write_fields fields ++ b'\n' ∷ rest),
        read_event-field name value (split b'\n' (write_fields fields ++ b'\n' ∷ rest)) h,
        read_event-write_fields fields rest hs,
      )
      refl

optional-IsOneLine :
    (there : Bool) (name value : Bytes)
    → IsOneLine (name, value)
    → All IsOneLine (optional there name value)
optional-IsOneLine true name value h = (h, tt)
optional-IsOneLine false name value h = tt

data_fields-IsOneLine :
    (lines : List Bytes) → All (Lacks b'\n') lines → All IsOneLine (data_fields lines)
data_fields-IsOneLine [] h = tt
data_fields-IsOneLine (line ∷ lines) (k, h) =
    (((λ e. cc), omega arith, omega arith, k), data_fields-IsOneLine lines h)

clean_line : (s : Bytes) → invalid_sse_field_value s ≡ false → Lacks b'\n' s
clean_line s h = All-map (λ c k. ground arith) s ((contains_any-eq-false s line_breaks).0 h)

event_fields-IsOneLine :
    (e : ServerSentEvent)
    → invalid_sse_field_value e.id ≡ false
    → invalid_sse_field_value e.event ≡ false
    → ltb_ℤ e.retry (pos 0) ≡ false
    → All IsOneLine (event_fields e)
unfolding event_fields
event_fields-IsOneLine e id event retry =
    let datas = data_fields (split b'\n' (normalize_sse_data e.text)) in
    let retries = optional (ltb_ℤ (pos 0) e.retry) (codes "retry") (format_int e.retry) in
    let events = optional (not (is_empty e.event)) (codes "event") e.event in
    All-append IsOneLine (optional (not (is_empty e.id)) (codes "id") e.id)
      (events ++ (retries ++ datas))
      (optional-IsOneLine (not (is_empty e.id)) (codes "id") e.id
        ((λ x. cc), omega arith, omega arith, clean_line e.id id))
      (All-append IsOneLine events (retries ++ datas)
        (optional-IsOneLine (not (is_empty e.event)) (codes "event") e.event
          ((λ x. cc), omega arith, omega arith, clean_line e.event event))
        (All-append IsOneLine retries datas
          (optional-IsOneLine (ltb_ℤ (pos 0) e.retry) (codes "retry") (format_int e.retry)
            ((λ x. cc), omega arith, omega arith, digits e.retry))
          (data_fields-IsOneLine (split b'\n' (normalize_sse_data e.text))
            (split-Lacks b'\n' (normalize_sse_data e.text)))))
  where
    digits : (n : ℤ) → Lacks b'\n' (format_int n)
    digits n = All-map (λ c k. ground arith) (format_int n) (format_int-Avoids n)

-- The lines of a text, each ended by CR LF, by CR or by LF; `after_cr` says that a CR stands in front.
unfoldable pub text_lines : Bool → Bytes → List Bytes
text_lines after_cr [] = [] ∷ []
text_lines after_cr (c ∷ s) =
    let rest = text_lines (c == b'\r') s in
    if c == b'\n'
    then (if after_cr then rest else [] ∷ rest)
    else if c == b'\r'
    then [] ∷ rest
    else cons_head c rest

-- How the lines go on behind a CR that is held back.
abbrev behind_cr : Bool → List Bytes → List Bytes
behind_cr true lines = [] ∷ lines
behind_cr false lines = lines

split-replace_cr :
    (held : Bool) (s : Bytes)
    → split b'\n' (replace_cr (replace_crlf held s)) ≡ behind_cr held (text_lines held s)
unfolding split replace_cr replace_crlf text_lines
split-replace_cr true [] = refl
split-replace_cr false [] = refl
split-replace_cr true (c ∷ s) = elim (Bool-cases (c == b'\n')) [
  | inl newline ↦ ground (arith, split-replace_cr (c == b'\r') s)
  | inr other ↦ ground (arith, split-replace_cr (c == b'\r') s)
]
split-replace_cr false (c ∷ s) = elim (Bool-cases (c == b'\n')) [
  | inl newline ↦ ground (arith, split-replace_cr (c == b'\r') s)
  | inr other ↦ ground (arith, split-replace_cr (c == b'\r') s)
]

-- A field that a client gets when its value is given.
abbrev pub given : Bytes → Bytes → List (Bytes × Bytes)
given name [] = []
given name (c ∷ value) = (name, c ∷ value) ∷ []

-- The time to retry, which is given when it is positive.
abbrev pub given_retry : ℤ → List (Bytes × Bytes)
given_retry (pos zero) = []
given_retry (pos (suc n)) = (codes "retry", format_nat (suc n)) ∷ []
given_retry (negsuc n) = []

abbrev pub named_lines : List Bytes → List (Bytes × Bytes)
named_lines [] = []
named_lines (line ∷ lines) = (codes "data", line) ∷ named_lines lines

-- What a client is to get of an event.
abbrev pub fields_of : ServerSentEvent → List (Bytes × Bytes)
fields_of e =
    given (codes "id") e.id
    ++ (given (codes "event") e.event
        ++ (given_retry e.retry ++ named_lines (text_lines false e.text)))

optional-given :
    (name value : Bytes) → optional (not (is_empty value)) name value ≡ given name value
optional-given name [] = refl
optional-given name (c ∷ value) = refl

optional-given_retry :
    (n : ℤ) → optional (ltb_ℤ (pos 0) n) (codes "retry") (format_int n) ≡ given_retry n
unfolding format_int
optional-given_retry (pos zero) = refl
optional-given_retry (pos (suc n)) = ground arith
optional-given_retry (negsuc n) = ground arith

data_fields-named_lines : (lines : List Bytes) → data_fields lines ≡ named_lines lines
data_fields-named_lines [] = refl
data_fields-named_lines (line ∷ lines) =
    ap (◌∷◌ (codes "data", line)) (data_fields-named_lines lines)

event_fields-fields_of : (e : ServerSentEvent) → event_fields e ≡ fields_of e
unfolding event_fields normalize_sse_data
event_fields-fields_of e =
    rw
      (
        optional-given (codes "id") e.id,
        optional-given (codes "event") e.event,
        optional-given_retry e.retry,
        split-replace_cr false e.text,
        data_fields-named_lines (text_lines false e.text),
      )
      refl

-- An event that was encoded, with anything behind it in the stream: a client reads the id and the type,
-- where they are not empty, and the time to retry, where it is positive, then a data field for each line
-- of the text, whether CR LF, CR or LF ends it, and nothing else, and is left with what follows.
pub encode_server_sent_event-reads :
    (e : ServerSentEvent) (encoded rest : Bytes)
    → encode_server_sent_event e ≡ some encoded
    → read_event (split b'\n' (encoded ++ rest)) ≡ (fields_of e, split b'\n' rest)
unfolding encode_server_sent_event
encode_server_sent_event-reads e encoded rest h =
    let (id, h1) = guard-eq-some (invalid_sse_field_value e.id) _ h in
    let (event, h2) = guard-eq-some (invalid_sse_field_value e.event) _ h1 in
    let (retry, h3) = guard-eq-some (ltb_ℤ e.retry (pos 0)) _ h2 in
    let is : write_fields (event_fields e) ++ b'\n' ∷ [] ≡ encoded = ground (arith, h3) in
    rw (← is, append_assoc (write_fields (event_fields e)) (b'\n' ∷ []) rest)
      (read_event-write_fields (event_fields e) rest (event_fields-IsOneLine e id event retry)
        ∙ ap (λ fields. (fields, split b'\n' rest)) (event_fields-fields_of e))
