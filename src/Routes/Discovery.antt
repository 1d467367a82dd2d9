-- ===== src/Routes/Discovery.antt =====
-- `POST /nodes/:id/discover`, `POST /instances/:id/manage` and `GET /instances/:id/peers` of
-- apps/api/src/http/routes.ts.
pub mod Modes
use awg_control.Base.{
  ℕ, suc, ◌==◌, String, Bool, true, false, not, ◌&&◌, Option, none, some, List, [], ◌∷◌, map, all,
  length, or_else, if◌then◌else◌,
}
use awg_control.Contracts.{
  NodeStatus, InstanceMode, Adapter, ProtocolVersion, adapter_index, protocol_index,
}
use awg_control.Contracts.Instances.{InstanceRecord, conforms}
use awg_control.Crypto.{Hashes, obj, member, end, uuid, request_fingerprint}
use awg_control.Exec.{
  Failure, app_error, other_error, conflict, not_found, pure, throw, gets, read, run, guard, modify,
  try_catch, ◌>>=◌, ◌>>◌,
}
use awg_control.Panel.{Action, Readings, Scope, IdempotencyStatus, AuditResult, Detail}
use awg_control.Store.Audit.{AuditInput, add_audit}
use awg_control.Store.Nodes.{NodeSecretRecord, get_node_secret, update_node_health}
use awg_control.Store.Instances.{
  get_instance, upsert_instances, enable_instance_management, is_read_only,
}
use awg_control.Store.Idempotency.{
  Start, new, repeat, conflict as clash, begin_idempotency, finish_idempotency,
}
use awg_control.Helper.{
  HelperClient, HelperAction, Parameters, no_parameters, of_instance, HelperRequest,
  DiscoveredInstance, PeerListResult, accept, handle_helper_error, app_code,
}
use awg_control.Http.{Request, operation_id}

abbrev default_version : Adapter → ProtocolVersion
default_version adapter =
    if adapter_index adapter == adapter_index Adapter.awg2
    then ProtocolVersion.v2
    else ProtocolVersion.legacy

-- `instance.udpPort || null`
abbrev real_port : Option ℕ → Option ℕ
real_port none = none
real_port (some p) = if p == 0 then none else some p

unfoldable pub to_observed : ℕ → DiscoveredInstance → ℕ → InstanceRecord
to_observed node_id d now = record {
  id = d.id;
  node_id = node_id;
  display_name = d.display_name;
  adapter = d.adapter;
  protocol_version = or_else d.protocol_version (default_version d.adapter);
  container_ref = d.container_ref;
  interface_name = d.interface_name;
  config_ref = d.config_ref;
  capabilities = d.capabilities;
  source_fingerprint = d.source_fingerprint;
  mode = (if d.read_only then InstanceMode.read_only else InstanceMode.observed);
  last_discovered_at = now;
  udp_port = real_port d.udp_port;
}

-- `response.result.instances.map(…)`, with one reading of the clock for each.
unfoldable pub observe : ℕ → (ℕ → ℕ) → ℕ → List DiscoveredInstance → List InstanceRecord
unfolding to_observed
observe node_id clock k [] = []
observe node_id clock k (d ∷ ds) =
    to_observed node_id d (clock k) ∷ observe node_id clock (suc k) ds

abbrev pub success : Request → String → String → String → ℕ → ℕ → AuditInput
success request op action target_type target_id node_id = record {
  admin_id = some request.admin_id;
  action = action;
  target_type = target_type;
  target_id = some target_id;
  node_id = some node_id;
  operation_id = some op;
  result = AuditResult.success;
  error_code = none;
  remote_address = some request.ip;
  details = [];
}

module _ (helper : HelperClient) (r : Readings) (request : Request) where
  abbrev pub ask : HelperAction → String → Parameters → HelperRequest
  ask action op parameters = record {
    request_id = r.uuid 0;
    operation_id = op;
    action = action;
    parameters = parameters;
  }

  -- What follows the answer of the helper.
  unfoldable pub store_discovery :
      ℕ → String → String → List InstanceRecord → Action (List InstanceRecord)
  store_discovery id op helper_version discovered = do
    guard (all conforms discovered) (app_error 502 "INVALID_HELPER_RESPONSE")
    instances ← upsert_instances id discovered
    modify (
        update_node_health id NodeStatus.discovered (some helper_version) none (r.clock 0)
          (r.clock 1))
    modify (
        add_audit
          (record (success request op "node.discover" "node" id id) {
            details = ("instances", Detail.num (length instances)) ∷ [];
          })
          (r.uuid 1) (r.clock 2))
    pure instances

  unfoldable pub discovery_failed : {A : Type 0} → ℕ → Failure → Action A
  discovery_failed id error = do
    modify (
        update_node_health id NodeStatus.degraded none (some (app_code "HELPER_UNAVAILABLE" error))
          (r.clock 3) (r.clock 4))
    handle_helper_error error

  unfoldable pub discover : ℕ → Action (List InstanceRecord)
  discover id = do
    node ← read (get_node_secret id) not_found
    op ← operation_id request
    try_catch
        (do
          response ← helper.discover node (ask HelperAction.discover op no_parameters)
          result ← accept 502 response
          store_discovery id op result.helper_version (observe id r.clock 5 result.instances))
        (discovery_failed id)

  unfoldable pub list_peers : ℕ → Action PeerListResult
  list_peers id = do
    instance ← read (get_instance id) not_found
    try_catch
        (do
          node ← read (get_node_secret instance.node_id) (other_error "TypeError")
          response ← helper.list node (ask HelperAction.list (r.uuid_text 0) (of_instance id))
          accept 502 response)
        handle_helper_error

abbrev pub manage_scope : ℕ → Scope
manage_scope id = record { prefix = "instances.manage"; subject = some id }

-- The code of the refusal: the protocol is not confirmed, or the adapter only reads.
abbrev refusal : ProtocolVersion → String
refusal version =
    if protocol_index version == protocol_index ProtocolVersion.unknown
    then "PROTOCOL_UNCONFIRMED"
    else "ADAPTER_READ_ONLY"

module _ (hashes : Hashes) (r : Readings) (request : Request) (id : ℕ) where
  unfoldable pub proceed_manage : String → InstanceRecord → Start → Action (Option InstanceRecord)
  proceed_manage op instance clash = throw (conflict "IDEMPOTENCY_CONFLICT")
  proceed_manage op instance repeat = gets (get_instance id)
  proceed_manage op instance new = do
    managed ← run (enable_instance_management id)
    modify (
        finish_idempotency (manage_scope id) op IdempotencyStatus.succeeded (some id) none
          (r.clock 1))
    modify (
        add_audit (success request op "instance.management-enable" "instance" id instance.node_id)
          (r.uuid 0) (r.clock 2))
    pure managed

  unfoldable pub manage : Action (Option InstanceRecord)
  manage = do
    instance ← read (get_instance id) not_found
    op ← operation_id request
    guard (instance.capabilities.create && not (is_read_only instance.mode))
        (conflict (refusal instance.protocol_version))
    start ← run (
        begin_idempotency (manage_scope id) op
          (request_fingerprint hashes (obj (member "id" (uuid id) end))) (r.clock 0))
    proceed_manage op instance start
