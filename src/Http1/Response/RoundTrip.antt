-- ===== src/Http1/Response/RoundTrip.antt =====
-- A response of fixed length that was written is read back whole, whatever follows it.
use wbsv.Common.{
  ℕ, ◌+◌, ◌≤◌, ◌≡◌, ap, ◌∙◌, ◌≢◌, ◌⊎◌, inl, inr, Bool, true, false, ◌||◌, none, List, [], ◌∷◌, ◌++◌,
  append_assoc, arith, ltb, Bool-cases, Bytes, codes, length, length-append, take-append,
  drop-append, All-append, All-map, Lacks, any, ◌≤ℤ◌, pos,
}
use wbsv.GoText.{format_nat, format_int}
use wbsv.GoText.Fold.{equal_fold_refl}
use wbsv.GoText.Number.{format_nat-IsDigits}
use wbsv.Http1.Errors.{ok}
use wbsv.Http1.LineReader.{LineReader, read_line}
use wbsv.Http1.LineReader.Lines.{read_line_iff}
use wbsv.Http1.Header.{HeaderField, parse_content_length_value, content_length, read_header_fields}
use wbsv.Http1.Header.Field.{IsField}
use wbsv.Http1.Header.Fields.{read_header_fields_iff}
use wbsv.Http1.Header.Length.{
  is_length, AgreeOn, content_length_iff, parse_content_length_value-format_nat,
}
use wbsv.Http1.Body.{max_alloc, read_fixed_body}
use wbsv.Http1.Body.Exact.{read_fixed_body_lem}
use wbsv.Http1.Request.{http_1_1, http_1_0}
use wbsv.Http1.Sink.{Sink}
use wbsv.Http1.Response.{Response, version_of, reason_of, write_response}
use wbsv.Http1.Response.Head.{kept, block}
use wbsv.Http1.Response.Section.{
  at, IsLine-append, block-IsSection, content_length_field, content_length_field-IsField,
}
use wbsv.Http1.Response.Encoded.{
  IsSendable, encode, write_response-encode, status_line, sent_fields, body_bytes,
}

any-append_right :
    (p : HeaderField → Bool) (fs : List HeaderField) (f : HeaderField)
    → p f ≡ true
    → any p (fs ++ f ∷ []) ≡ true
any-append_right p [] f h = rw h
any-append_right p (g ∷ fs) f h = ground (arith, any-append_right p fs f h)

-- No field that is kept is a Content-Length.
kept-AgreeOn : (n : ℕ) (hs : List HeaderField) → AgreeOn n (kept false hs)
unfolding kept
kept-AgreeOn n [] = tt
kept-AgreeOn n (h ∷ hs) = elim (Bool-cases (is_length h)) [
  | inl framing ↦ rw framing (kept-AgreeOn n hs)
  | inr other ↦ rw other ((λ e. cc (rw other at e)), kept-AgreeOn n hs)
]

sent_fields-length :
    (q : Response)
    → length (body_bytes q) ≤ max_alloc
    → content_length (sent_fields q) ≡ ok (pos (length (body_bytes q)), true)
sent_fields-length q small =
    let n = length (body_bytes q) in
    (content_length_iff (sent_fields q) n).1 (
      any-append_right is_length (kept false q.headers) (content_length_field n)
          (equal_fold_refl (codes "Content-Length")),
      All-append
          (λ (f : HeaderField).
            is_length f ≡ true → parse_content_length_value f.value ≡ ok (pos n))
          (kept false q.headers) (content_length_field n ∷ []) (kept-AgreeOn n q.headers)
          ((λ _. parse_content_length_value-format_nat n (omega (arith, small))), tt),
    )

version-Lacks : (v : Bytes) → (v ≡ http_1_1) ⊎ (v ≡ http_1_0) → Lacks b'\n' v
version-Lacks v (inl e) = rw e (omega arith)
version-Lacks v (inr e) = rw e (omega arith)

digits-Lacks : (n : ℕ) → Lacks b'\n' (format_nat n)
digits-Lacks n = All-map (λ c h. ground arith) (format_nat n) (format_nat-IsDigits n)

status_line-Lacks : (q : Response) (status : ℕ) → IsSendable q status → Lacks b'\n' (status_line q)
unfolding format_int
status_line-Lacks q status d =
    let newline = λ (c : ℕ). c ≢ b'\n' in
    let reason : Lacks b'\n' (reason_of q) = All-map (λ c h. ground arith) (reason_of q) d.reason in
    All-append newline (version_of q) (b' ' ∷ (format_int q.status_code ++ (b' ' ∷ reason_of q)))
      (version-Lacks (version_of q) d.version)
      (
        omega arith,
        All-append newline (format_int q.status_code) (b' ' ∷ reason_of q)
            (rw d.status_is (digits-Lacks status)) (omega arith, reason),
      )

-- What a client reads from the bytes `out` of the response and the bytes `rest` behind them.
pub record ReadsBack (q : Response) (out rest : Bytes) (r : LineReader) : Type 0 where
  pub after_line : LineReader
  pub after_headers : LineReader
  pub line : read_line (at r (out ++ rest)) ≡ ok (status_line q, after_line)
  pub fields : read_header_fields after_line (pos 0) ≡ ok (sent_fields q, after_headers)
  pub length_is : content_length (sent_fields q) ≡ ok (pos (length (body_bytes q)), true)
  pub body :
      read_fixed_body after_headers (pos (length (body_bytes q))) (pos 0)
      ≡ ok (body_bytes q, at r rest)

read_exact :
    (r : LineReader) (body rest : Bytes)
    → length body ≤ max_alloc
    → read_fixed_body (at r (body ++ rest)) (pos (length body)) (pos 0) ≡ ok (body, at r rest)
read_exact r body rest small =
    (read_fixed_body_lem (at r (body ++ rest)) (length body) (pos 0) (omega (arith, small))).0
    ∙ rw (
      held (length body) small,
      enough (length body) (length rest) (length (body ++ rest)) (length-append body rest),
      take-append body rest,
      drop-append body rest,
    )
  where
    enough : (n m k : ℕ) → k ≡ n + m → ltb k n ≡ false
    enough n m k h = ground arith

    held : (n : ℕ) → n ≤ max_alloc → ltb max_alloc n ≡ false
    held n h = ground arith

module _ (q : Response) (status : ℕ) (d : IsSendable q status) where
  pub encode-ReadsBack :
      (r : LineReader) (rest : Bytes) → r.max_line ≤ℤ pos 0 → ReadsBack q (encode q) rest r
  encode-ReadsBack r rest no_limit =
      let tail = b'\r' ∷ b'\n' ∷ (body_bytes q ++ rest) in
      let spelled : encode q ++ rest
          ≡ status_line q ++ (b'\r' ∷ b'\n' ∷ (block (sent_fields q) ++ tail)) =
        simp append_assoc in
      record {
        after_line = at r (block (sent_fields q) ++ tail);
        after_headers = at r (body_bytes q ++ rest);
        line =
            ap (λ i. read_line (at r i)) spelled
            ∙ (read_line_iff
                  (at r (status_line q ++ (b'\r' ∷ b'\n' ∷ (block (sent_fields q) ++ tail))))
                  (status_line q) (at r (block (sent_fields q) ++ tail))).1
                (IsLine-append r no_limit (status_line q) (block (sent_fields q) ++ tail)
                  (status_line-Lacks q status d));
        fields =
            (read_header_fields_iff (at r (block (sent_fields q) ++ tail)) (pos 0) (sent_fields q)
                (at r (body_bytes q ++ rest))).1
              (
                block-IsSection r no_limit (sent_fields q) (body_bytes q ++ rest) (
                    All-append IsField (kept false q.headers)
                      (content_length_field (length (body_bytes q)) ∷ []) d.headers
                      (content_length_field-IsField (length (body_bytes q)), tt)),
                omega arith,
              );
        length_is = sent_fields-length q d.small;
        body = read_exact r (body_bytes q) rest d.small;
      }

  -- A response that can be sent is written in full to a connection that takes everything, and its
  -- closer is called. A client that then reads a line, the header fields, and the body of the length
  -- that they give gets the status line, the fields of the response without its own Content-Length
  -- and with the true one at their end, and the body, and is left with what follows the response.
  pub write_response-ReadsBack :
      (s : Sink) (r : LineReader) (rest : Bytes)
      → s.room ≡ none
      → r.max_line ≤ℤ pos 0
      → (out : Bytes) × (write_response q s ≡ record {
        outcome = ok tt;
        sink = record s { sent = s.sent ++ out; closed = q.body_closer || s.closed };
      })
        × ReadsBack q out rest r
  write_response-ReadsBack s r rest room no_limit =
      (encode q, write_response-encode q status d s room, encode-ReadsBack r rest no_limit)
