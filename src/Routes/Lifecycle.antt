-- ===== src/Routes/Lifecycle.antt =====
-- `POST /connections/:id/suspend`, `/resume` and `/revoke` of apps/api/src/http/routes.ts.
pub mod Machine
pub mod Refinement
pub mod Safety
use awg_control.Base.{
  ℕ, String, Bool, true, false, not, ◌&&◌, ◌||◌, Option, none, some, List, [], ◌∷◌, if◌then◌else◌,
}
use awg_control.Contracts.{ConnectionStatus, ◌is◌, is_managed, can_transition_connection}
use awg_control.Contracts.Entities.{Connection, NodeRecord}
use awg_control.Contracts.Instances.{InstanceRecord}
use awg_control.Crypto.{Hashes, Json, obj, member, end, uuid, str, bool, request_fingerprint}
use awg_control.Exec.{
  Failure, other_error, conflict, not_found, pure, throw, gets, read, run, guard, modify, try_catch,
  ◌>>=◌, ◌>>◌,
}
use awg_control.Panel.{Panel, Action, Readings, Scope, IdempotencyStatus, AuditResult, Detail}
use awg_control.Store.Audit.{AuditInput, add_audit}
use awg_control.Store.Nodes.{NodeSecretRecord, get_node_secret}
use awg_control.Store.Instances.{get_instance, update_instance_fingerprint}
use awg_control.Store.Connections.{
  get_connection, update_connection_status, apply_connection_override,
}
use awg_control.Store.Idempotency.{
  Start, new, repeat, conflict as clash, begin_idempotency, finish_idempotency, idempotency_result,
  IdempotencyResult,
}
use awg_control.Helper.{
  HelperClient, HelperAction, HelperRequest, Parameters, of_mutation, accept, handle_helper_error,
  app_code, MutationParameters,
}
use awg_control.Http.{Request, operation_id}

pub data LifecycleAction : Type 0 where
  suspend resume revoke : LifecycleAction

abbrev pub is_resume : LifecycleAction → Bool
is_resume resume = true
is_resume suspend = false
is_resume revoke = false

abbrev pub target : LifecycleAction → ConnectionStatus
target suspend = ConnectionStatus.suspended
target resume = ConnectionStatus.active
target revoke = ConnectionStatus.revoked

abbrev rpc_action : LifecycleAction → HelperAction
rpc_action suspend = HelperAction.disable
rpc_action resume = HelperAction.enable
rpc_action revoke = HelperAction.revoke

abbrev pub scope_of : LifecycleAction → ℕ → Scope
scope_of suspend id = record { prefix = "connections.suspend"; subject = some id }
scope_of resume id = record { prefix = "connections.resume"; subject = some id }
scope_of revoke id = record { prefix = "connections.revoke"; subject = some id }

abbrev action_name : LifecycleAction → String
action_name suspend = "suspend"
action_name resume = "resume"
action_name revoke = "revoke"

abbrev audit_action : LifecycleAction → String
audit_action suspend = "connection.suspend"
audit_action resume = "connection.resume"
audit_action revoke = "connection.revoke"

-- Expired and quota-enforced connections are resumed by an explicit override only.
abbrev pub requires_override : LifecycleAction → ConnectionStatus → Bool
requires_override action status =
    is_resume action
    && (status is ConnectionStatus.expired || status is ConnectionStatus.quota_exceeded)

-- The answer to a repeated request, from its record in the journal.
unfoldable pub repeat_outcome : ℕ → Option IdempotencyResult → Action (Option Connection)
repeat_outcome id none = throw (conflict "CONFLICT")
repeat_outcome id (some prior) = elim prior.status [
  | IdempotencyStatus.succeeded ↦ gets (get_connection id)
  | IdempotencyStatus.failed ↦ throw (conflict (code_of prior.error_code))
  | IdempotencyStatus.started ↦ throw (conflict "CONFLICT")
]
  where
    code_of : Option String → String
    code_of none = "CONFLICT"
    code_of (some c) = c

-- `{ id, action, override }`
abbrev change_body : ℕ → LifecycleAction → Bool → Json
change_body id action override = obj (
    member "id" (uuid id)
      (member "action" (str (action_name action)) (member "override" (bool override) end)))

module _ (helper : HelperClient) (hashes : Hashes) (r : Readings) (request : Request)
    (action : LifecycleAction) where
  abbrev outcome : ℕ → String → InstanceRecord → Bool → AuditResult → Option String → AuditInput
  outcome id op instance override result code = record {
    admin_id = some request.admin_id;
    action = audit_action action;
    target_type = "connection";
    target_id = some id;
    node_id = some instance.node_id;
    operation_id = some op;
    result = result;
    error_code = code;
    remote_address = some request.ip;
    details = ("override", Detail.flag override) ∷ [];
  }

  unfoldable pub mutation_request : String → Connection → InstanceRecord → Bool → HelperRequest
  mutation_request op connection instance override = record {
    request_id = r.uuid 0;
    operation_id = op;
    action = rpc_action action;
    parameters = of_mutation (record {
      instance_id = instance.id;
      expected_fingerprint = instance.source_fingerprint;
      connection_id = connection.id;
      public_key = connection.public_key;
      override = override;
    });
  }

  unfoldable pub perform :
      ℕ
      → String
      → Connection
      → InstanceRecord
      → NodeSecretRecord
      → Bool
      → Action (Option Connection)
  perform id op connection instance node override =
      try_catch
        (do
          response ← helper.mutate node (mutation_request op connection instance override)
          result ← accept 409 response
          modify (update_instance_fingerprint instance.id result.source_fingerprint (r.clock 1))
          updated ←
              (if override
                then apply_connection_override id connection.status (r.clock 2)
                else update_connection_status id (target action) (r.clock 2))
          modify (
              finish_idempotency (scope_of action id) op IdempotencyStatus.succeeded (some id) none
                (r.clock 3))
          modify (
              add_audit (outcome id op instance override AuditResult.success none) (r.uuid 1)
                (r.clock 4))
          pure updated)
        λ error. do
          modify (
              finish_idempotency (scope_of action id) op IdempotencyStatus.failed (some id)
                (some (app_code "HELPER_UNAVAILABLE" error)) (r.clock 5))
          modify (
              add_audit
                (outcome id op instance override AuditResult.failure
                  (some (app_code "HELPER_UNAVAILABLE" error)))
                (r.uuid 2) (r.clock 6))
          handle_helper_error error

  unfoldable pub proceed :
      ℕ
      → String
      → Connection
      → InstanceRecord
      → NodeSecretRecord
      → Bool
      → Start
      → Action (Option Connection)
  proceed id op connection instance node override clash = throw (conflict "IDEMPOTENCY_CONFLICT")
  proceed id op connection instance node override repeat =
      λ s. repeat_outcome id (idempotency_result (scope_of action id) op s) s
  proceed id op connection instance node override new =
      perform id op connection instance node override

  -- `id` is the connection in the path and `body_override` the body's `override`. The foreign keys
  -- of the tables provide the instance and the node (`!` in the source).
  unfoldable pub change_connection : ℕ → Bool → Action (Option Connection)
  change_connection id body_override = do
    connection ← read (get_connection id) not_found
    guard (is_managed connection.management_mode) (conflict "ADAPTER_READ_ONLY")
    guard (can_transition_connection connection.status (target action)) (conflict "CONFLICT")
    let override = is_resume action && body_override
    guard (not (requires_override action connection.status && not override)) (conflict "CONFLICT")
    instance ← read (get_instance connection.instance_id) (other_error "TypeError")
    node ← read (get_node_secret instance.node_id) (other_error "TypeError")
    op ← operation_id request
    start ← run (
        begin_idempotency (scope_of action id) op
          (request_fingerprint hashes (change_body id action override)) (r.clock 0))
    proceed id op connection instance node override start
