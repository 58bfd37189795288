-- ===== src/Platform/Errors.antt =====
-- internal/platform/apperr/apperr.go: application errors with an HTTP status and a stable code.
use octo_doc.Base.{ℕ, String, Option, none, some, List, [], ◌∷◌, ◌==◌, if◌then◌else◌}
use octo_doc.Base.Text.{concat}

-- `cause` is the text of the wrapped error; `details` pairs of a key and its value's text.
pub record AppError : Type 0 where
  pub status : ℕ
  pub code : String
  pub msg : String
  pub retry_after : ℕ
  pub details : List (String × String)
  pub hint : String
  pub cause : Option String

unfoldable pub new_err : ℕ → String → String → AppError
new_err status code msg = record {
  status = status;
  code = code;
  msg = msg;
  retry_after = 0;
  details = [];
  hint = "";
  cause = none;
}

unfoldable pub with_details : AppError → List (String × String) → AppError
with_details e details = record e { details = details }

unfoldable pub with_hint : AppError → String → AppError
with_hint e hint = record e { hint = hint }

abbrev pub default : String → String → String
default s d = if s == "" then d else s

unfoldable pub validation : String → String → AppError
unfolding new_err
validation msg code = new_err 400 (default code "invalid_request") msg

unfoldable pub unauthorized : String → String → AppError
unfolding new_err
unauthorized msg code = new_err 401 (default code "unauthorized") (default msg "unauthorized")

unfoldable pub forbidden : String → String → AppError
unfolding new_err
forbidden msg code = new_err 403 (default code "forbidden") (default msg "forbidden")

unfoldable pub not_found : String → AppError
unfolding new_err
not_found msg = new_err 404 "not_found" (default msg "not found")

unfoldable pub conflict : String → String → AppError
unfolding new_err
conflict msg code = new_err 409 (default code "conflict") msg

unfoldable pub payload_too_large : String → String → AppError
unfolding new_err
payload_too_large msg code = new_err 413 (default code "payload_too_large") msg

unfoldable pub rate_limited : ℕ → AppError
unfolding new_err
rate_limited seconds = record (new_err 429 "rate_limited" "rate limit exceeded") {
  retry_after = seconds;
}

unfoldable pub upstream : String → String → Option String → AppError
unfolding new_err
upstream msg code cause = record (new_err 502 (default code "upstream_error") msg) { cause = cause }

unfoldable pub wrap : AppError → String → AppError
wrap e cause = record e { cause = some cause; msg = concat (e.msg ∷ ": " ∷ cause ∷ []) }
