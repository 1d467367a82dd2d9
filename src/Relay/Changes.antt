-- ===== src/Relay/Changes.antt =====
-- `RelayService.mutate` and `reconcile` of apps/api/src/relay/service.ts: an operation on a relay is
-- planned, stored in the journal, carried out by the relay's helper, verified, and committed.
pub mod Exclusion
pub mod Outcomes
pub mod Serial
use awg_control.Base.{
  ℕ, ◌+◌, String, str_eq, Bool, true, false, not, ◌&&◌, ◌||◌, Option, none, some, List, [], ◌∷◌,
  ◌++◌, map, ltb, leb, ◌==◌, if◌then◌else◌, on_some, or_else, any, is_some,
}
use awg_control.Base.Tables.{find_where, delete_where, update_where}
use awg_control.Contracts.{protocol_index, adapter_index}
use awg_control.Contracts.Instances.{InstanceRecord, supports_relay}
use awg_control.Crypto.{
  Hashes, Json, obj, Members, member, end, uuid, str, num, request_fingerprint,
}
use awg_control.Exec.{
  Failure, app_error, transport_error, other_error, Result, ok, err, conflict, not_found, pure,
  throw, gets, read, run, guard, modify, try_catch, ◌>>=◌, ◌>>◌,
}
use awg_control.Panel.{
  Panel, Action, Readings, AuditResult, RelayServerStatus, RelayRoute, RelayChange, RelayBody,
  RelayParameters, StoredRequest, RelayOperationStatus, install, update, uninstall, apply, disable,
  remove,
}
use awg_control.Store.Audit.{AuditInput, add_audit}
use awg_control.Store.Instances.{get_instance}
use awg_control.Store.Nodes.{NodeSecretRecord, get_node_secret}
use awg_control.Helper.{
  HelperClient, HelperAction, HelperRequest, DiscoveredInstance, DiscoveryResult, Response, accept,
  no_parameters as no_helper_parameters,
}
use awg_control.Relay.Address.{public_ipv4}
use awg_control.Relay.Store.{
  RelayServer, get_relay, routes, get_route, instance_route, RelayOperation, StoredRelayOperation,
  get_operation, pending,
}
use awg_control.Relay.Plans.{Plan, plan}
use awg_control.Relay.Journal.{begin, finish, health, commit}
use awg_control.Relay.Service.{
  RelayStatus, RelayClient, status, change, is_fingerprint, wire_route, no_parameters,
  routes_fingerprint, code_of, exclusively, call,
}

abbrev change_name : RelayChange → String
change_name install = "install"
change_name update = "update"
change_name (apply i port) = "apply"
change_name (disable id) = "disable"
change_name (remove id) = "remove"
change_name uninstall = "uninstall"

abbrev audit_name : RelayChange → String
audit_name install = "relay.install"
audit_name update = "relay.update"
audit_name (apply i port) = "relay.apply"
audit_name (disable id) = "relay.disable"
audit_name (remove id) = "relay.remove"
audit_name uninstall = "relay.uninstall"

abbrev change_members : RelayChange → Members
change_members install = end
change_members update = end
change_members uninstall = end
change_members (apply i none) = member "instanceId" (uuid i) end
change_members (apply i (some port)) =
    member "instanceId" (uuid i) (member "listenPort" (num port) end)
change_members (disable id) = member "routeId" (uuid id) end
change_members (remove id) = member "routeId" (uuid id) end

-- `{ action, ...body }`
unfoldable pub change_json : RelayBody → Json
change_json body = obj (
    member "action" (str (change_name body.change))
      (member "expectedFingerprint" (str body.expected_fingerprint) (change_members body.change)))

-- `!relay.sourceFingerprint || body.expectedFingerprint !== relay.sourceFingerprint`, negated.
unfoldable pub expects : String → Option String → Bool
expects expected known = on_some false (λ f. not (str_eq f "") && str_eq expected f) known

-- The codes that leave the outcome of an operation uncertain.
abbrev pub is_uncertain_code : String → Bool
is_uncertain_code code =
    str_eq code "RELAY_STATE_CONFLICT"
    || str_eq code "RELAY_ROLLBACK_FAILED"
    || str_eq code "RELAY_STATE_FAILED"
    || str_eq code "INVALID_HELPER_RESPONSE"

-- `definite`: the relay itself has refused the operation.
unfoldable pub is_definite : Failure → Bool
is_definite (app_error http code) = not (is_uncertain_code code)
is_definite (transport_error code) = false
is_definite (other_error message) = false

abbrev outcome_of : Failure → RelayOperationStatus
outcome_of error =
    if is_definite error then RelayOperationStatus.failed else RelayOperationStatus.uncertain

abbrev as_app_error : Failure → Failure
as_app_error (app_error http code) = app_error http code
as_app_error (transport_error code) = app_error 502 code
as_app_error (other_error message) = other_error message

abbrev event : ℕ → RelayChange → String → AuditResult → Option String → AuditInput
event id action op result code = record {
  admin_id = none;
  action = audit_name action;
  target_type = "relay";
  target_id = some id;
  node_id = none;
  operation_id = some op;
  result = result;
  error_code = code;
  remote_address = none;
  details = [];
}

module _ (client : RelayClient) (helper : HelperClient) (is_ipv4 : String → Bool) (hashes : Hashes)
    (r : Readings) (id : ℕ) where
  -- The branch of `perform` for an operation id that is not in the journal.
  unfoldable pub store : RelayServer → String → RelayBody → Action StoredRelayOperation
  store relay op body = do
    busy ← gets (pending id)
    guard (not busy) (conflict "RELAY_BUSY")
    guard (expects body.expected_fingerprint relay.source_fingerprint)
        (conflict "SOURCE_FINGERPRINT_CONFLICT")
    rs ← gets (routes id)
    p ← plan helper is_ipv4 r id body body.change rs
    begin id op (request_fingerprint hashes (change_json body))
        (record { parameters = p.parameters; routes = p.routes; body = body }) (r.uuid 5)
        (r.clock 2)

  -- The `try` of `perform`: the call, the verification of its result, and the commit.
  unfoldable pub carry_out : RelayChange → String → StoredRelayOperation → Action RelayOperation
  carry_out action op stored = do
    result ← call client is_ipv4 id (record {
      request_id = r.uuid 6;
      operation_id = op;
      action = change action;
      parameters = stored.request.parameters;
    })
    current ← call client is_ipv4 id (record {
      request_id = r.uuid 7;
      operation_id = r.uuid_text 8;
      action = status;
      parameters = no_parameters;
    })
    guard (str_eq current.source_fingerprint result.source_fingerprint)
        (conflict "RELAY_STATE_CONFLICT")
    guard
        (str_eq (routes_fingerprint hashes (map wire_route stored.request.routes))
          (routes_fingerprint hashes result.routes))
        (conflict "RELAY_STATE_CONFLICT")
    commit id op stored.request.routes result.source_fingerprint result.helper_version
        result.installed result.active (λ k. r.clock (3 + k))
    modify (add_audit (event id action op AuditResult.success none) (r.uuid 9) (r.clock 6))
    done ← read (get_operation id op) (other_error "TypeError")
    pure done.state

  -- The `catch` of `perform`.
  unfoldable pub settle : RelayChange → String → Failure → Action RelayOperation
  settle action op error = do
    finish id op (outcome_of error) (some (code_of "INTERNAL_ERROR" error)) (r.clock 7)
    modify (
        health id RelayServerStatus.offline none none (some (code_of "INTERNAL_ERROR" error))
          (r.clock 8) (r.clock 9))
    modify (
        add_audit (event id action op AuditResult.failure (some (code_of "INTERNAL_ERROR" error)))
          (r.uuid 10) (r.clock 10))
    throw (as_app_error error)

  unfoldable pub attempt : RelayChange → String → StoredRelayOperation → Action RelayOperation
  attempt action op stored = try_catch (carry_out action op stored) (settle action op)

  -- An operation that the journal holds: its outcome, or another attempt while it is open.
  unfoldable pub resume :
      RelayBody → String → StoredRelayOperation → RelayOperationStatus → Action RelayOperation
  resume body op stored RelayOperationStatus.succeeded = pure stored.state
  resume body op stored RelayOperationStatus.failed =
      throw (conflict (or_else stored.state.error_code "RELAY_APPLY_FAILED"))
  resume body op stored RelayOperationStatus.pending = attempt body.change op stored
  resume body op stored RelayOperationStatus.uncertain = attempt body.change op stored

  unfoldable pub proceed :
      RelayServer → String → RelayBody → Option StoredRelayOperation → Action RelayOperation
  proceed relay op body none = do stored ← store relay op body; attempt body.change op stored
  proceed relay op body (some stored) = do
    guard (str_eq stored.request_hash (request_fingerprint hashes (change_json body)))
        (conflict "IDEMPOTENCY_CONFLICT")
    resume body op stored stored.state.status

  unfoldable pub perform : String → RelayBody → Action RelayOperation
  perform op body = do
    relay ← read (get_relay id) not_found
    prior ← gets (get_operation id op)
    proceed relay op body prior

  unfoldable pub mutate : String → RelayBody → Action RelayOperation
  mutate op body = exclusively id (perform op body)

  -- `replay`, of an operation that is still open.
  unfoldable pub replay :
      String → StoredRelayOperation → RelayOperationStatus → Action RelayOperation
  replay op stored RelayOperationStatus.succeeded = pure stored.state
  replay op stored RelayOperationStatus.failed = pure stored.state
  replay op stored RelayOperationStatus.pending = perform op stored.request.body
  replay op stored RelayOperationStatus.uncertain = perform op stored.request.body

  unfoldable pub reconcile : String → Action RelayOperation
  reconcile op = do
    stored ← read (get_operation id op) not_found
    exclusively id (replay op stored stored.state.status)
