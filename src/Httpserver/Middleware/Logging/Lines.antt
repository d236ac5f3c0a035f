-- ===== src/Httpserver/Middleware/Logging/Lines.antt =====
-- What the log says of a response, and what the response is (internal/httpserver/logging.go).
use wbsv.Common.{
  ℕ, ◌+◌, ◌-◌, ◌≡◌, refl, sym, ap, ◌∙◌, inl, inr, true, Option, none, some, List, [], ◌∷◌, ◌++◌,
  some-injective, ◌==◌, if◌then◌else◌, Bool-cases, Bytes, codes, length, length-append, pos,
}
use wbsv.Httpserver.App.{
  record_bytes, record_status, send_bytes, returns, send_header, AppRequest, Recorder, Writer,
  World, LogLine, AppHandler,
}
use wbsv.Httpserver.ResponseWriter.{
  is_zero, or_200, write_bytes, write_header, add_header, set_header, response, new_response_writer,
  ResponseWriter,
}
use wbsv.Httpserver.App.Calls.{calling, call, run_calls, WriterCall}
use wbsv.Httpserver.Middleware.Logging.{new_recorder, logging_middleware}
use wbsv.Httpserver.Cache.{
  response_etag_value, set_etag, not_modified_from, set_last_modified, set_tag, write_not_modified,
}
use mathlib.Core.Path.{subst}
use wbsv.Http1.Header.{is_empty}

-- The recorder says what the buffered writer holds.
abbrev InStep : ResponseWriter → Recorder → Type 0
InStep b r = (r.status_code ≡ b.status_code) × (r.bytes_written ≡ length b.body)

abbrev around : ResponseWriter → Recorder → Writer
around b r = record { buffer = b; recorders = r ∷ [] }

-- What the calls leave behind.
record Recorded (w : Writer) : Type 0 where
  buffer : ResponseWriter
  recorder : Recorder
  is : w ≡ around buffer recorder
  in_step : InStep buffer recorder

call-Recorded :
    (c : WriterCall) (b : ResponseWriter) (r : Recorder)
    → InStep b r
    → Recorded (call (around b r) c)
unfolding call send_header send_bytes set_header add_header write_header write_bytes
call-Recorded (WriterCall.adds name value) b r h = record {
  buffer = add_header b name value;
  recorder = r;
  is = refl;
  in_step = h;
}
call-Recorded (WriterCall.sets name value) b r h = record {
  buffer = set_header b name value;
  recorder = r;
  is = refl;
  in_step = h;
}
call-Recorded (WriterCall.sends_header code) b r (s, n) = record {
  buffer = write_header b code;
  recorder = record_status code r;
  is = refl;
  in_step = elim (Bool-cases (is_zero b.status_code)) [
    | inl first ↦ rw (s, first) (refl, n)
    | inr later ↦ rw (s, later) (refl, n)
  ];
}
call-Recorded (WriterCall.sends_bytes p) b r (s, n) = record {
  buffer = write_bytes b p;
  recorder = record_bytes (length p) r;
  is = refl;
  in_step = (ap or_200 s, rw (n, length-append b.body p) refl);
}

run_calls-Recorded :
    (calls : List WriterCall) (b : ResponseWriter) (r : Recorder)
    → InStep b r
    → Recorded (run_calls calls (around b r))
unfolding run_calls
run_calls-Recorded [] b r h = record { buffer = b; recorder = r; is = refl; in_step = h }
run_calls-Recorded (c ∷ calls) b r h =
    let d = call-Recorded c b r h in
    subst (λ w. Recorded (run_calls calls w)) (sym d.is)
      (run_calls-Recorded calls d.buffer d.recorder d.in_step)

abbrev pub fresh : Writer
fresh = record { buffer = new_response_writer; recorders = [] }

-- The last line of the log gives the method, the target, the status and the length of the body.
pub record IsLogged (request : AppRequest) (before after : List LogLine) (b : ResponseWriter)
    : Type 0 where
  pub elapsed : ℕ
  pub line :
      after
      ≡ before
        ++ LogLine.handled request.http.request_line.method request.http.request_line.request_target
            (response b).status_code
            (length b.body)
            elapsed
          ∷ []

-- The writer behind a call that may have failed.
abbrev pub kept_or : Writer → Option ResponseWriter → Writer
kept_or w none = w
kept_or w (some b) = record w { buffer = b }

-- For a handler that sets headers, a status and a body by calls in any order, the log gets one line, with
-- the status of the response and the length of its body.
pub logging_middleware-IsLogged :
    (calls : List WriterCall) (request : AppRequest) (world : World)
    → let out = logging_middleware true (calling calls) request fresh world in
      IsLogged request world.log out.world.log out.writer.buffer
unfolding logging_middleware response new_response_writer
logging_middleware-IsLogged calls request world =
    let d = run_calls-Recorded calls new_response_writer new_recorder (refl, refl) in
    rw (d.is) (record {
      elapsed = world.clock (world.readings + 1) - world.clock world.readings;
      line = rw (d.in_step.0, d.in_step.1) refl;
    })

-- The handler that answers with `WriteNotModified`, and leaves the writer as it is on its error.
abbrev pub not_modified_handler : (ℕ → Bytes) → Bytes → ℕ → AppHandler
not_modified_handler format_time etag last_modified request w world =
    returns (kept_or w (write_not_modified format_time w.buffer etag last_modified)) world

set_tag-status :
    (w b : ResponseWriter) (o : Option Bytes) → set_tag w o ≡ some b → b.status_code ≡ w.status_code
unfolding set_header
set_tag-status w b none h = cc
set_tag-status w b (some value) h =
    ap (λ (x : ResponseWriter). x.status_code)
      (sym (some-injective (set_header w (codes "ETag") value) b h))

set_last_modified-status :
    (format_time : ℕ → Bytes) (w : ResponseWriter) (t : ℕ)
    → (set_last_modified format_time w t).status_code ≡ w.status_code
unfolding set_last_modified set_header
set_last_modified-status format_time w t = elim (Bool-cases (t == 0)) [
  | inl never ↦ rw never refl
  | inr known ↦ rw known refl
]

not_modified_from-status :
    (format_time : ℕ → Bytes) (o : Option ResponseWriter) (t : ℕ) (b : ResponseWriter)
    → ((w : ResponseWriter) → o ≡ some w → w.status_code ≡ pos 0)
    → not_modified_from format_time o t ≡ some b
    → b.status_code ≡ pos 304
unfolding write_header
not_modified_from-status format_time none t b fresh h = cc
not_modified_from-status format_time (some w) t b fresh h =
    let zero_status = set_last_modified-status format_time w t ∙ fresh w refl in
    let is = some-injective (write_header (set_last_modified format_time w t) (pos 304)) b h in
    sym (ap (λ (x : ResponseWriter). x.status_code) is) ∙ rw zero_status refl

write_not_modified-status :
    (format_time : ℕ → Bytes) (w : ResponseWriter) (etag : Bytes) (t : ℕ) (b : ResponseWriter)
    → w.status_code ≡ pos 0
    → write_not_modified format_time w etag t ≡ some b
    → b.status_code ≡ pos 304
unfolding write_not_modified set_etag
write_not_modified-status format_time w etag t b z h =
    not_modified_from-status format_time (if is_empty etag then some w else set_etag w etag) t b
      (λ w' e. elim (Bool-cases (is_empty etag)) [
        | inl untagged ↦
            sym
              (ap (λ (x : ResponseWriter). x.status_code) (some-injective w w' (rw untagged at e)))
            ∙ z
        | inr tagged ↦ set_tag-status w w' (response_etag_value etag) (rw tagged at e) ∙ z
      ])
      h

-- A handler that answers with `WriteNotModified` sends the status 304, but the log says 200: the call is
-- one that the logging writer passes on without looking at it.
pub log_of_not_modified :
    (format_time : ℕ → Bytes) (etag : Bytes) (last_modified : ℕ) (b : ResponseWriter)
    (request : AppRequest) (world : World)
    → write_not_modified format_time new_response_writer etag last_modified ≡ some b
    → let out =
        logging_middleware true
          (not_modified_handler format_time etag last_modified)
          request
          fresh
          world in
      ((response out.writer.buffer).status_code ≡ pos 304)
      × ((elapsed : ℕ) × (out.world.log
            ≡ world.log
              ++ LogLine.handled request.http.request_line.method
                  request.http.request_line.request_target
                  (pos 200)
                  0
                  elapsed
                ∷ []))
unfolding logging_middleware response
log_of_not_modified format_time etag last_modified b request world h =
    let status =
      write_not_modified-status format_time new_response_writer etag last_modified b start h in
    rw h (rw status refl, (world.clock (world.readings + 1) - world.clock world.readings, refl))
  where
    start : new_response_writer.status_code ≡ pos 0
    start = unfold new_response_writer in refl
