-- ===== src/Http.antt =====
-- What the handlers of apps/api/src/http share: the authenticated request and its idempotency key
-- (`operationId` of apps/api/src/http/routes.ts and of apps/api/src/http/auth.ts).
use awg_control.Base.{
  ℕ, String, Bool, ◌&&◌, ◌||◌, Option, none, some, leb, ◌==◌, all, length, codes, Text,
  if◌then◌else◌,
}
use awg_control.Exec.{ok, err, app_error}
use awg_control.Panel.{Action}

-- `key` is the Idempotency-Key header; `admin_id` the administrator of the session.
pub record Request : Type 0 where
  pub key : Option String
  pub admin_id : ℕ
  pub ip : Text

-- [A-Za-z0-9._:-]
abbrev is_key_char : ℕ → Bool
is_key_char c =
    leb b'A' c && leb c b'Z'
    || leb b'a' c && leb c b'z'
    || leb b'0' c && leb c b'9'
    || c == b'.'
    || c == b'_'
    || c == b':'
    || c == b'-'

unfoldable pub operation_id : Request → Action String
operation_id request s = elim request.key [
  | none ↦ (err (app_error 400 "VALIDATION_FAILED"), s)
  | some value ↦
      if leb 1 (length (codes value))
        && leb (length (codes value)) 128
        && all is_key_char (codes value)
      then (ok value, s)
      else (err (app_error 400 "VALIDATION_FAILED"), s)
]
