-- ===== src/Server.antt =====
-- The hooks of apps/api/src/server.ts that decide about a request: the test of its origin, and the
-- status and code of an error's answer.
use awg_control.Base.{
  ℕ, String, str_eq, Bool, true, false, not, ◌&&◌, ◌||◌, Option, none, some, Text, codes, on_some,
  or_else, ◌==◌, if◌then◌else◌,
}
use awg_control.Exec.{Failure, app_error, transport_error, other_error, Result, ok, err}
use awg_control.Helper.Transport.{after_prefix}

pub record HttpRequest : Type 0 where
  pub method : String
  pub url : Text
  pub origin : Option String
  pub protocol : String
  pub hostname : String

-- `requestOrigin`; `join_origin` is `${protocol}://${hostname}`.
unfoldable pub request_origin : (String → String → String) → HttpRequest → String
request_origin join_origin request = join_origin request.protocol request.hostname

abbrev starts_with : Text → Text → Bool
starts_with prefix s = elim (after_prefix prefix s) [ none ↦ false | some rest ↦ true ]

abbrev is_unsafe : String → Bool
is_unsafe method = not (str_eq method "GET" || str_eq method "HEAD" || str_eq method "OPTIONS")

unfoldable pub check_origin :
    (String → String → String) → Option String → HttpRequest → Result (Unit {0})
unfolding request_origin
check_origin join_origin public_origin request =
    if is_unsafe request.method
      && starts_with (codes "/api/") request.url
      && not (
          on_some false (str_eq (or_else public_origin (request_origin join_origin request)))
            request.origin)
    then err (app_error 403 "CSRF_REJECTED")
    else ok tt

-- An error as the error handler sees it: one of the program's, or the framework's, which may be a
-- failed validation and may name a status.
pub data ServerError : Type 0 where
  failure : Failure → ServerError
  framework : Bool → Option ℕ → ServerError

abbrev code_for : ℕ → String
code_for status = if status == 429 then "RATE_LIMITED" else "INTERNAL_ERROR"

-- The status and the code of the answer.
unfoldable pub problem : ServerError → ℕ × String
problem (failure (app_error status code)) = (status, code)
problem (failure (transport_error code)) = (500, "INTERNAL_ERROR")
problem (failure (other_error message)) = (500, "INTERNAL_ERROR")
problem (framework true status) = (400, "VALIDATION_FAILED")
problem (framework false none) = (500, "INTERNAL_ERROR")
problem (framework false (some status)) = (status, code_for status)
