-- ===== src/Routes/Adoption.antt =====
-- `POST /connections/:id/adopt` of apps/api/src/http/routes.ts.
use awg_control.Base.{ℕ, String, ◌&&◌, Option, none, some, []}
use awg_control.Contracts.{is_imported, is_managed_mode}
use awg_control.Contracts.Entities.{Connection}
use awg_control.Crypto.{Hashes, obj, member, end, uuid, str, request_fingerprint}
use awg_control.Exec.{conflict, not_found, pure, throw, gets, read, run, guard, modify, ◌>>=◌, ◌>>◌}
use awg_control.Panel.{Action, Readings, Scope, IdempotencyStatus, AuditResult}
use awg_control.Store.Audit.{AuditInput, add_audit}
use awg_control.Store.Instances.{get_instance}
use awg_control.Store.Connections.{get_connection, adopt_connection}
use awg_control.Store.Idempotency.{
  Start, new, repeat, conflict as clash, begin_idempotency, finish_idempotency,
}
use awg_control.Http.{Request, operation_id}

abbrev pub adopt_scope : ℕ → Scope
adopt_scope id = record { prefix = "connections.adopt"; subject = some id }

module _ (hashes : Hashes) (r : Readings) (request : Request) (id : ℕ) where
  abbrev adopted : String → AuditInput
  adopted op = record {
    admin_id = some request.admin_id;
    action = "connection.adopt";
    target_type = "connection";
    target_id = some id;
    node_id = none;
    operation_id = some op;
    result = AuditResult.success;
    error_code = none;
    remote_address = some request.ip;
    details = [];
  }

  unfoldable pub proceed_adopt : String → Start → Action (Option Connection)
  proceed_adopt op clash = throw (conflict "IDEMPOTENCY_CONFLICT")
  proceed_adopt op repeat = gets (get_connection id)
  proceed_adopt op new = do
    updated ← adopt_connection id (r.clock 1)
    modify (
        finish_idempotency (adopt_scope id) op IdempotencyStatus.succeeded (some id) none
          (r.clock 2))
    modify (add_audit (adopted op) (r.uuid 0) (r.clock 3))
    pure updated

  unfoldable pub adopt : Action (Option Connection)
  adopt = do
    op ← operation_id request
    connection ← read (get_connection id) not_found
    guard (is_imported connection.source) (conflict "CONFLICT")
    instance ← read (get_instance connection.instance_id) (conflict "ADAPTER_READ_ONLY")
    guard (is_managed_mode instance.mode && instance.capabilities.create)
        (conflict "ADAPTER_READ_ONLY")
    start ← run (
        begin_idempotency (adopt_scope id) op
          (request_fingerprint hashes
            (obj (member "id" (uuid id) (member "action" (str "adopt") end))))
          (r.clock 0))
    proceed_adopt op start
