-- ===== src/Shared/Errors.antt =====
-- src/shared/errors: the application errors and the envelope that a client sees.
use dpdpos_backend.Prelude.{ℕ, JsText, literal, ◌≡◌, refl}

pub data AppErrorCode : Type 0 where
  validation_error unauthorized forbidden not_found conflict : AppErrorCode
  rate_limited internal_error service_unavailable : AppErrorCode

-- `details` and the class name carry nothing that the modelled code reads.
pub record AppError : Type 0 where
  pub code : AppErrorCode
  pub message : JsText
  pub status_code : ℕ

unfoldable pub validation_failed : JsText → AppError
validation_failed m = record { code = validation_error; message = m; status_code = 400 }

unfoldable pub unauthorized_request : JsText → AppError
unauthorized_request m = record { code = unauthorized; message = m; status_code = 401 }

unfoldable pub forbidden_request : JsText → AppError
forbidden_request m = record { code = forbidden; message = m; status_code = 403 }

unfoldable pub missing_resource : JsText → AppError
missing_resource m = record { code = not_found; message = m; status_code = 404 }

unfoldable pub conflicting_state : JsText → AppError
conflicting_state m = record { code = conflict; message = m; status_code = 409 }

-- What may be thrown: an application error, or anything else.
pub data Thrown : Type 0 where
  app : AppError → Thrown
  unexpected : Thrown

pub record ErrorEnvelope : Type 0 where
  pub status : ℕ
  pub error_code : AppErrorCode
  pub error_message : JsText

unfoldable pub to_error_envelope : Thrown → ErrorEnvelope
to_error_envelope (app e) = record {
  status = e.status_code;
  error_code = e.code;
  error_message = e.message;
}
to_error_envelope unexpected = record {
  status = 500;
  error_code = internal_error;
  error_message = literal "An unexpected error occurred";
}

-- What an asynchronous function settles to.
pub data Result {i} (Value : Type i) : Type i where
  err : Thrown → Result Value
  ok : Value → Result Value

-- `await`, and then the rest of the body.
infixl 5 ◌>>=◌
abbrev pub ◌>>=◌ {i j} :
    {Value : Type i} {Next : Type j} → Result Value → (Value → Result Next) → Result Next
err thrown >>= rest = err thrown
ok v >>= rest = rest v

-- `await` of a check, which has no value.
infixl 5 ◌>>◌
abbrev pub ◌>>◌ {j} : {Next : Type j} → Result (Unit {0}) → Result Next → Result Next
check >> rest = check >>= λ passed. rest

-- Inversion of a chain that succeeded.
pub bind_ok {i j} :
    {Value : Type i} {Next : Type j} (first : Result Value) (rest : Value → Result Next) {w : Next}
    → (first >>= rest) ≡ ok w
    → (v : Value) × (first ≡ ok v) × (rest v ≡ ok w)
bind_ok (err thrown) rest settled = cc
bind_ok (ok v) rest settled = (v, refl, settled)
