-- ===== src/Auth/Sessions.antt =====
-- The session hooks of apps/api/src/http/auth.ts, and the routes on sessions: logout, me, the list,
-- and the revocation of one session or of all others.
use awg_control.Base.{
  ℕ, ◌==◌, String, str_eq, if◌then◌else◌, Bool, Option, none, some, List, [], ◌∷◌, or_else,
}
use awg_control.Contracts.Entities.{Admin, AdminSession}
use awg_control.Crypto.{Hashes, hash_opaque, obj, member, end, uuid, str, request_fingerprint}
use awg_control.Exec.{app_error, conflict, pure, throw, gets, require, run, modify, ◌>>=◌, ◌>>◌}
use awg_control.Panel.{Panel, Action, Readings, Scope, IdempotencyStatus, AuditResult, Detail}
use awg_control.Store.Admins.{count_admins}
use awg_control.Store.Audit.{AuditInput, add_audit}
use awg_control.Store.Sessions.{
  get_session, SessionRecord, touch_session, delete_session, list_sessions, revoke_session,
  revoke_other_sessions,
}
use awg_control.Store.Idempotency.{
  Start, new, repeat, conflict as clash, begin_idempotency, finish_idempotency, idempotency_result,
  IdempotencyResult,
}
use awg_control.Http.{Request, operation_id}
use awg_control.Auth.{AuthConfig}

-- `request.admin` and `request.sessionToken`, which are set together.
pub record Identity : Type 0 where
  pub admin : Admin
  pub session_token : String

abbrev identity_of : String → Option SessionRecord → Option Identity
identity_of token none = none
identity_of token (some session) = some (record { admin = session.admin; session_token = token })

module _ (hashes : Hashes) where
  -- The hook `onRequest`, of the cookie's token.
  unfoldable pub authenticate : Option String → ℕ → Panel → Option Identity
  authenticate none now db = none
  authenticate (some token) now db =
      if str_eq token "" then none else identity_of token (get_session hashes token now db)

  -- The hook `onResponse`.
  unfoldable pub on_response : AuthConfig → Option Identity → ℕ → Panel → Panel
  on_response config none now db = db
  on_response config (some identity) now db =
      touch_session hashes identity.session_token config.remembered_session_idle_ttl_seconds
        config.session_activity_write_interval_seconds now db

  unfoldable pub logout : Option Identity → Panel → Panel
  logout none db = db
  logout (some identity) db = delete_session hashes identity.session_token db

unfoldable pub bootstrap_required : Panel → Bool
bootstrap_required db = count_admins db == 0

unfoldable pub require_admin : Option Identity → Action Identity
require_admin found = require found (app_error 401 "AUTHENTICATION_REQUIRED")

unfoldable pub me : Option Identity → Action Admin
me found = do identity ← require_admin found; pure identity.admin

unfoldable pub sessions_of : Hashes → Readings → Option Identity → Action (List AdminSession)
sessions_of hashes r found = do
  identity ← require_admin found
  gets (list_sessions hashes identity.admin.id identity.session_token (r.clock 0))

abbrev revoke_scope : ℕ → Scope
revoke_scope admin_id = record { prefix = "auth.sessions.revoke"; subject = some admin_id }

abbrev others_scope : ℕ → Scope
others_scope admin_id = record { prefix = "auth.sessions.revoke-others"; subject = some admin_id }

-- `Number(result?.resultId ?? 0)`
abbrev revoked_before : Option IdempotencyResult → ℕ
revoked_before none = 0
revoked_before (some prior) = or_else prior.result_id 0

abbrev pub session_event : Request → ℕ → String → String → Option ℕ → ℕ → AuditInput
session_event request admin_id op action target_id revoked = record {
  admin_id = some admin_id;
  action = action;
  target_type = "session";
  target_id = target_id;
  node_id = none;
  operation_id = some op;
  result = AuditResult.success;
  error_code = none;
  remote_address = some request.ip;
  details = ("revoked", Detail.num revoked) ∷ [];
}

module _ (hashes : Hashes) (r : Readings) (request : Request) where
  unfoldable pub proceed_revoke : ℕ → ℕ → String → Start → Action ℕ
  proceed_revoke admin_id id op clash = throw (conflict "IDEMPOTENCY_CONFLICT")
  proceed_revoke admin_id id op repeat = do
    prior ← gets (idempotency_result (revoke_scope admin_id) op)
    pure (revoked_before prior)
  proceed_revoke admin_id id op new = do
    revoked ← run (revoke_session admin_id id (r.clock 1))
    modify (
        finish_idempotency (revoke_scope admin_id) op IdempotencyStatus.succeeded (some revoked)
          none (r.clock 2))
    modify (
        add_audit (session_event request admin_id op "auth.session-revoked" (some id) revoked)
          (r.uuid 0) (r.clock 3))
    pure revoked

  -- `DELETE /auth/sessions/:id`.
  unfoldable pub revoke : Option Identity → ℕ → Action ℕ
  revoke found id = do
    identity ← require_admin found
    op ← operation_id request
    start ← run (
        begin_idempotency (revoke_scope identity.admin.id) op
          (request_fingerprint hashes (obj (member "id" (uuid id) end))) (r.clock 0))
    proceed_revoke identity.admin.id id op start

  unfoldable pub proceed_others : Identity → String → Start → Action ℕ
  proceed_others identity op clash = throw (conflict "IDEMPOTENCY_CONFLICT")
  proceed_others identity op repeat = do
    prior ← gets (idempotency_result (others_scope identity.admin.id) op)
    pure (revoked_before prior)
  proceed_others identity op new = do
    revoked ←
        run (revoke_other_sessions hashes identity.admin.id identity.session_token (r.clock 1))
    modify (
        finish_idempotency (others_scope identity.admin.id) op IdempotencyStatus.succeeded
          (some revoked) none (r.clock 2))
    modify (
        add_audit
          (session_event request identity.admin.id op "auth.sessions-revoked-others" none revoked)
          (r.uuid 0) (r.clock 3))
    pure revoked

  -- `POST /auth/sessions/revoke-others`.
  unfoldable pub revoke_others : Option Identity → Action ℕ
  revoke_others found = do
    identity ← require_admin found
    op ← operation_id request
    start ← run (
        begin_idempotency (others_scope identity.admin.id) op
          (request_fingerprint hashes
            (obj (member "current" (str (hash_opaque hashes identity.session_token)) end)))
          (r.clock 0))
    proceed_others identity op start
