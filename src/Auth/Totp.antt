-- ===== src/Auth/Totp.antt =====
-- `POST /auth/totp/enroll` and `POST /auth/totp/confirm` of apps/api/src/http/auth.ts. The random
-- secret and the random recovery codes are arguments.
pub mod Confirmed
use awg_control.Base.{String, Option, none, some, List, [], map, ℕ, Text}
use awg_control.Crypto.{Hashes, hash_opaque}
use awg_control.Exec.{
  app_error, other_error, conflict, pure, gets, read, require, guard, modify, ◌>>=◌, ◌>>◌,
}
use awg_control.Panel.{Panel, Action, Readings, AuditResult}
use awg_control.Store.Admins.{enable_totp}
use awg_control.Store.Audit.{AuditInput, add_audit}
use awg_control.Store.Sessions.{get_session, SessionRecord, set_pending_totp}
use awg_control.Auth.{Credentials}
use awg_control.Auth.Sessions.{Identity, require_admin}

abbrev pending_of : Option SessionRecord → Option String
pending_of none = none
pending_of (some session) = session.pending_totp_secret_encrypted

abbrev totp_event : ℕ → Text → AuditInput
totp_event admin_id ip = record {
  admin_id = some admin_id;
  action = "auth.totp-enabled";
  target_type = "admin";
  target_id = some admin_id;
  node_id = none;
  operation_id = none;
  result = AuditResult.success;
  error_code = none;
  remote_address = some ip;
  details = [];
}

module _ (credentials : Credentials) (hashes : Hashes) (r : Readings) where
  -- `encrypt_pending` is `encryptSecret` for the purpose `pending-totp:<id>`.
  unfoldable pub enroll : (ℕ → String → String) → Option Identity → String → Action String
  enroll encrypt_pending found secret = do
    identity ← require_admin found
    modify (
        set_pending_totp hashes identity.session_token
          (some (encrypt_pending identity.admin.id secret)))
    pure secret

  -- The pending secret of the session that the request came with.
  unfoldable pub pending_secret : Identity → Panel → Option String
  pending_secret identity db = pending_of (get_session hashes identity.session_token (r.clock 0) db)

  -- What follows a code that was accepted.
  unfoldable pub turn_on : Identity → Text → String → List String → Action (List String)
  turn_on identity ip secret recovery_codes = do
    modify (
        enable_totp identity.admin.id (credentials.encrypt_totp identity.admin.id secret)
          (map (hash_opaque hashes) recovery_codes) (r.clock 2))
    modify (set_pending_totp hashes identity.session_token none)
    modify (add_audit (totp_event identity.admin.id ip) (r.uuid 0) (r.clock 3))
    pure recovery_codes

  unfoldable pub confirm : Option Identity → Text → String → List String → Action (List String)
  confirm found ip token recovery_codes = do
    identity ← require_admin found
    encrypted ← read (pending_secret identity) (conflict "CONFLICT")
    secret ← require (credentials.decrypt_pending identity.admin.id encrypted) (other_error "Error")
    guard (credentials.verify_totp secret identity.admin.username token (r.clock 1))
        (app_error 400 "VALIDATION_FAILED")
    turn_on identity ip secret recovery_codes
