-- ===== src/Http1/Errors.antt =====
-- The sentinel errors of internal/http1, and results. `fmt.Errorf` with `%w` keeps the sentinel and
-- adds text for people: the text is left out.
use wbsv.Common.{◌≡◌, refl, Bool, true, false}

-- How the transport ends: with EOF, or with an error of the connection.
pub data Ending : Type 0 where
  eof timeout broken : Ending

-- `make_panics` is no error that is returned: it is the run-time panic of a `make` that asks for more
-- memory than there are addresses, and ends the program.
pub data Error : Type 0 where
  line_too_long line_ending unexpected_eof : Error
  malformed_header too_many_headers invalid_content_length conflicting_header : Error
  malformed_request_line unsupported_version : Error
  missing_host unsupported_transfer_encoding : Error
  body_too_large unexpected_body_eof : Error
  invalid_status_code malformed_response : Error
  net_timeout net_broken : Error
  body_ended body_timeout body_broken : Error
  make_panics : Error

pub data Result {ℓ} (A : Type ℓ) : Type ℓ where
  ok : A → Result A
  err : Error → Result A

-- The steps of a function that returns early on an error.
infixl 5 ◌>>=◌ ◌>>◌
abbrev pub ◌>>=◌ {ℓ κ} : {A : Type ℓ} {B : Type κ} → Result A → (A → Result B) → Result B
err why >>= next = err why
ok result >>= next = next result

abbrev pub ◌>>◌ {κ} : {B : Type κ} → Result (Unit {0}) → Result B → Result B
check >> next = check >>= λ _. next

-- An early `return` of the error, when the test holds.
abbrev pub fail_if : Bool → Error → Result (Unit {0})
fail_if true why = err why
fail_if false why = ok tt

-- A successful chain had a successful first step.
pub >>=-eq-ok {ℓ κ} :
    {A : Type ℓ} {B : Type κ} (step : Result A) (next : A → Result B) {out : B}
    → (step >>= next) ≡ ok out
    → (mid : A) × (step ≡ ok mid) × (next mid ≡ ok out)
>>=-eq-ok (err why) next h = cc
>>=-eq-ok (ok mid) next h = (mid, refl, h)

-- A guard that was passed did not hold.
pub fail_if-eq-ok {κ} :
    {B : Type κ} (test : Bool) (why : Error) (next : Result B) {out : B}
    → (fail_if test why >> next) ≡ ok out
    → (test ≡ false) × (next ≡ ok out)
fail_if-eq-ok true why next h = cc
fail_if-eq-ok false why next h = (refl, h)

-- The result is not a panic.
abbrev pub Calm {ℓ} : {A : Type ℓ} → Result A → Type 0
Calm (ok a) = Unit
Calm (err make_panics) = ⊥
Calm (err _) = Unit

pub Calm->>= {ℓ κ} :
    {A : Type ℓ} {B : Type κ} (step : Result A) (next : A → Result B)
    → Calm step
    → ((mid : A) → Calm (next mid))
    → Calm (step >>= next)
Calm->>= (ok mid) next h k = k mid
Calm->>= (err make_panics) next h k = absurd h
Calm->>= (err _) next h k = tt

pub Calm-fail_if {κ} :
    {B : Type κ} (test : Bool) (why : Error) (next : Result B)
    → Calm {A = B} (err why)
    → Calm next
    → Calm (fail_if test why >> next)
Calm-fail_if true why next h k = h
Calm-fail_if false why next h k = k
