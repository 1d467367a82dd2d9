-- ===== src/Routes/Registration.antt =====
-- `POST /users` of apps/api/src/http/routes.ts, and what the registrations share.
pub mod Nodes
pub mod Quotas
use awg_control.Base.{ℕ, String, Option, none, some, []}
use awg_control.Contracts.Entities.{VpnUser}
use awg_control.Crypto.{
  Hashes, Json, null, obj, member, end, uuid, str, Members, request_fingerprint,
}
use awg_control.Exec.{conflict, not_found, pure, throw, gets, read, run, modify, ◌>>=◌, ◌>>◌}
use awg_control.Panel.{Panel, Action, Readings, Scope, IdempotencyStatus, AuditResult}
use awg_control.Store.Audit.{AuditInput, add_audit}
use awg_control.Store.Nodes.{get_node}
use awg_control.Store.Users.{create_user, get_user}
use awg_control.Store.Idempotency.{
  Start, new, repeat, conflict as clash, begin_idempotency, finish_idempotency, idempotency_result,
  IdempotencyResult,
}
use awg_control.Http.{Request, operation_id}

-- A scope of the whole collection.
abbrev pub whole : String → Scope
whole prefix = record { prefix = prefix; subject = none }

pub record UserBody : Type 0 where
  pub node_id : ℕ
  pub display_name : String
  pub external_reference : Option (Option String)
  pub notes : Option (Option String)

abbrev pub optional : String → Option (Option String) → Members → Members
optional key none rest = rest
optional key (some none) rest = member key null rest
optional key (some (some v)) rest = member key (str v) rest

abbrev pub flatten : Option (Option String) → Option String
flatten none = none
flatten (some v) = v

abbrev user_json : UserBody → Json
user_json body = obj (
    member "nodeId" (uuid body.node_id) (
      member "displayName" (str body.display_name)
        (optional "externalReference" body.external_reference (optional "notes" body.notes end))))

-- The result of a repeated creation: `record.resultId`, looked up.
abbrev pub repeated :
    {A : Type 0}
    → (ℕ → Panel → Option A)
    → (Option String → String)
    → Option IdempotencyResult
    → Action A
repeated find code none = throw (conflict (code none))
repeated find code (some prior) = elim prior.result_id [
  | some id ↦ read (find id) not_found
  | none ↦ throw (conflict (code prior.error_code))
]

abbrev pub in_progress : Option String → String
in_progress _ = "CONFLICT"

abbrev pub success : Request → String → String → String → ℕ → ℕ → AuditInput
success request op action target_type target_id node_id = record {
  admin_id = some request.admin_id;
  action = action;
  target_type = target_type;
  target_id = some target_id;
  node_id = some node_id;
  operation_id = some op;
  result = AuditResult.success;
  error_code = none;
  remote_address = some request.ip;
  details = [];
}

module _ (hashes : Hashes) (r : Readings) (request : Request) where
  module _ (body : UserBody) where
    unfoldable pub proceed_user : String → Start → Action VpnUser
    proceed_user op clash = throw (conflict "IDEMPOTENCY_CONFLICT")
    proceed_user op repeat = do
      prior ← gets (idempotency_result (whole "users.create") op)
      repeated get_user in_progress prior
    proceed_user op new = do
      user ←
          create_user
            (record {
              node_id = body.node_id;
              display_name = body.display_name;
              external_reference = flatten body.external_reference;
              notes = flatten body.notes;
            })
            (r.uuid 0) (r.clock 1)
      modify (
          finish_idempotency (whole "users.create") op IdempotencyStatus.succeeded (some user.id)
            none (r.clock 2))
      modify (
          add_audit (success request op "user.create" "vpn-user" user.id user.node_id) (r.uuid 1)
            (r.clock 3))
      pure user

    unfoldable pub register_user : Action VpnUser
    register_user = do
      read (get_node body.node_id) not_found
      op ← operation_id request
      start ← run (
          begin_idempotency (whole "users.create") op (request_fingerprint hashes (user_json body))
            (r.clock 0))
      proceed_user op start
