-- ===== src/Auth/Login.antt =====
-- `POST /api/v1/auth/login` of apps/api/src/http/auth.ts. The verification of the password, which the
-- code awaits, is one step here: what other requests change meanwhile is not modelled.
pub mod Factors
pub mod Soundness
use awg_control.Base.{
  ℕ, ◌+◌, ◌*◌, min, String, Bool, true, false, not, ◌&&◌, ◌||◌, Option, none, some, [], Text,
  if◌then◌else◌, on_some, is_some,
}
use awg_control.Contracts.{SessionKind, is_active_admin}
use awg_control.Contracts.Entities.{Admin}
use awg_control.Crypto.{Hashes}
use awg_control.Exec.{
  Failure, app_error, other_error, pure, throw, gets, require, read, run, guard, modify, ◌>>=◌,
  ◌>>◌,
}
use awg_control.Panel.{Panel, Action, Readings, AuditResult}
use awg_control.Store.Audit.{AuditInput, add_audit}
use awg_control.Store.Admins.{
  AdminSecretRecord, find_admin_secret_by_username, consume_recovery_code, update_admin_login,
  get_admin,
}
use awg_control.Store.Sessions.{NewSession, create_session}
use awg_control.Auth.{Credentials, AuthConfig}

pub record LoginBody : Type 0 where
  pub username : String
  pub password : String
  pub totp : Option String
  pub recovery_code : Option String
  pub remember_device : Bool
  pub device_label : Option String

abbrev pub login_event : Option ℕ → AuditResult → Option String → Text → AuditInput
login_event admin_id result code ip = record {
  admin_id = admin_id;
  action = "auth.login";
  target_type = "admin";
  target_id = admin_id;
  node_id = none;
  operation_id = none;
  result = result;
  error_code = code;
  remote_address = some ip;
  details = [];
}

abbrev pub invalid_credentials : Failure
invalid_credentials = app_error 401 "INVALID_CREDENTIALS"

module _ (credentials : Credentials) (hashes : Hashes) (config : AuthConfig) (r : Readings)
    (ip : Text) (body : LoginBody) where
  -- The audit event of a rejected login, and the error.
  unfoldable pub reject : {A : Type 0} → Option ℕ → String → ℕ → Failure → Action A
  reject admin_id code k error = do
    modify (
        add_audit (login_event admin_id AuditResult.rejected (some code) ip) (r.uuid k) (r.clock k))
    throw error

  unfoldable pub password_valid : AdminSecretRecord → Bool
  password_valid admin =
      credentials.verify_password body.password admin.password_hash && is_active_admin admin.status

  -- The account, if the name and the password are those of an active administrator.
  unfoldable pub first_factor : Option AdminSecretRecord → Action AdminSecretRecord
  first_factor none = reject none "INVALID_CREDENTIALS" 0 invalid_credentials
  first_factor (some admin) =
      if password_valid admin
      then pure admin
      else reject none "INVALID_CREDENTIALS" 0 invalid_credentials

  unfoldable pub totp_valid : AdminSecretRecord → String → Bool
  totp_valid admin secret =
      on_some false (λ code. credentials.verify_totp secret admin.username code (r.clock 1))
        body.totp

  -- `consumeRecoveryCode`, for a code that was sent.
  unfoldable pub use_recovery_code : ℕ → Option String → Action Bool
  use_recovery_code id none = pure false
  use_recovery_code id (some code) =
      run (consume_recovery_code id (credentials.recovery_hash code) (r.clock 2))

  unfoldable pub fall_back : AdminSecretRecord → Bool → Action Bool
  fall_back admin true = pure true
  fall_back admin false = do
    recovered ← use_recovery_code admin.id body.recovery_code
    if recovered
        then pure false
        else reject (some admin.id) "INVALID_CREDENTIALS" 3 invalid_credentials

  -- `totpVerified`, once a one-time code or a recovery code has been accepted, where TOTP is on.
  unfoldable pub second_factor : AdminSecretRecord → Bool → Action Bool
  second_factor admin false = pure false
  second_factor admin true = do
    encrypted ← require admin.totp_secret_encrypted (app_error 500 "INTERNAL_ERROR")
    secret ← require (credentials.decrypt_totp admin.id encrypted) (other_error "Error")
    fall_back admin (totp_valid admin secret)

  abbrev pub new_session : AdminSecretRecord → String → NewSession
  new_session admin token = record {
    admin_id = admin.id;
    token = token;
    kind = (if body.remember_device then SessionKind.remembered else SessionKind.short);
    expires_at = expires;
    idle_expires_at =
        (if body.remember_device
          then some (min expires (r.clock 5 + config.remembered_session_idle_ttl_seconds * 1000))
          else none);
    remote_address = some ip;
    device_label = body.device_label;
  }
    where
      expires : ℕ
      expires =
          r.clock 4
          + (if body.remember_device
              then config.remembered_session_ttl_seconds
              else config.session_ttl_seconds)
            * 1000

  unfoldable pub open_session : AdminSecretRecord → String → Action Admin
  open_session admin token = do
    create_session hashes (new_session admin token) (r.clock 6) (r.uuid 6)
    modify (update_admin_login admin.id (r.clock 7))
    modify
        (add_audit (login_event (some admin.id) AuditResult.success none ip) (r.uuid 8) (r.clock 8))
    read (get_admin admin.id) (other_error "TypeError")

  abbrev pub may_remember : AdminSecretRecord → Bool → Bool
  may_remember admin totp_verified =
      not (body.remember_device && (not admin.totp_enabled || not totp_verified))

  unfoldable pub finish_login : String → AdminSecretRecord → Bool → Action Admin
  finish_login token admin totp_verified =
      if may_remember admin totp_verified
      then open_session admin token
      else reject (some admin.id) "REMEMBERED_SESSION_REQUIRES_TOTP" 9
          (app_error 403 "REMEMBERED_SESSION_REQUIRES_TOTP")

  unfoldable pub enter : String → Option AdminSecretRecord → Action Admin
  enter token found = do
    admin ← first_factor found
    totp_verified ← second_factor admin admin.totp_enabled
    finish_login token admin totp_verified

  -- `token` is the random token of the new session, which the answer's cookie carries.
  unfoldable pub login : String → Action Admin
  login token = do
    found ← gets (find_admin_secret_by_username credentials.same_name body.username)
    enter token found
