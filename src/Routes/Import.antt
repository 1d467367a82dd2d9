-- ===== src/Routes/Import.antt =====
-- `POST /instances/:id/import` of apps/api/src/http/routes.ts: peers that the node's helper lists
-- become observed connections, all of them or none.
pub mod Atomic
use awg_control.Base.{
  ℕ, ◌+◌, String, str_eq, Bool, true, false, not, ◌&&◌, Option, none, some, List, [], ◌∷◌, map,
  length, or_else, ◌==◌, on_some, if◌then◌else◌,
}
use awg_control.Base.Tables.{find_last}
use awg_control.Contracts.Entities.{Connection, VpnUser}
use awg_control.Contracts.Instances.{InstanceRecord}
use awg_control.Crypto.{
  Hashes, Json, arr, obj, Items, nil, item, member, end, uuid, str, request_fingerprint,
}
use awg_control.Exec.{
  Failure, app_error, other_error, conflict, not_found, pure, throw, gets, read, run, guard, modify,
  try_catch, ◌>>=◌, ◌>>◌,
}
use awg_control.Panel.{Action, Readings, Scope, IdempotencyStatus, AuditResult, Detail}
use awg_control.Store.Audit.{AuditInput, add_audit}
use awg_control.Store.Nodes.{get_node_secret}
use awg_control.Store.Users.{get_user}
use awg_control.Store.Instances.{get_instance}
use awg_control.Store.Connections.{ImportInput, import_connections, connections_by_public_keys}
use awg_control.Store.Idempotency.{
  Start, new, repeat, conflict as clash, begin_idempotency, finish_idempotency, idempotency_result,
  IdempotencyResult,
}
use awg_control.Helper.{
  HelperClient, HelperAction, HelperRequest, Peer, PeerListResult, of_instance, accept,
  handle_helper_error, app_code,
}
use awg_control.Http.{Request, operation_id}

pub record ImportPeer : Type 0 where
  pub vpn_user_id : ℕ
  pub name : String
  pub public_key : String
  pub address_cidr : String

abbrev peers_json : List ImportPeer → Items
peers_json [] = nil
peers_json (p ∷ ps) =
    item
      (obj (
        member "vpnUserId" (uuid p.vpn_user_id) (
          member "name" (str p.name) (
            member "publicKey" (str p.public_key)
              (member "addressCidr" (str p.address_cidr) end)))))
      (peers_json ps)

abbrev pub import_scope : ℕ → Scope
import_scope id = record { prefix = "instances.import"; subject = some id }

-- The peer is still listed by the helper, with the same address.
unfoldable pub still_matches : List Peer → ImportPeer → Bool
still_matches observed p =
    on_some false (λ actual. str_eq actual.address_cidr p.address_cidr)
      (find_last (λ actual. str_eq actual.public_key p.public_key) observed)

-- The loop over `body.peers`.
unfoldable pub check_peers : ℕ → List Peer → List ImportPeer → Action (Unit {0})
check_peers node_id observed [] = pure tt
check_peers node_id observed (p ∷ ps) = do
  user ← read (get_user p.vpn_user_id) (app_error 400 "VALIDATION_FAILED")
  guard (user.node_id == node_id) (app_error 400 "VALIDATION_FAILED")
  guard (still_matches observed p) (app_error 409 "FINGERPRINT_CONFLICT")
  check_peers node_id observed ps

unfoldable pub to_import : ℕ → ImportPeer → ImportInput
to_import id p = record {
  vpn_user_id = p.vpn_user_id;
  instance_id = id;
  name = p.name;
  public_key = p.public_key;
  address_cidr = p.address_cidr;
}

module _ (helper : HelperClient) (hashes : Hashes) (r : Readings) (request : Request) (id : ℕ)
    (peers : List ImportPeer) where
  abbrev import_event :
      String → ℕ → AuditResult → Option String → List (String × Detail) → AuditInput
  import_event op node_id result code details = record {
    admin_id = some request.admin_id;
    action = "instance.import";
    target_type = "instance";
    target_id = some id;
    node_id = some node_id;
    operation_id = some op;
    result = result;
    error_code = code;
    remote_address = some request.ip;
    details = details;
  }

  unfoldable pub list_request : String → HelperRequest
  list_request op = record {
    request_id = r.uuid 0;
    operation_id = op;
    action = HelperAction.list;
    parameters = of_instance id;
  }

  unfoldable pub earlier_outcome : IdempotencyStatus → Option String → Action (List Connection)
  earlier_outcome IdempotencyStatus.succeeded code =
      gets (connections_by_public_keys id (map (λ p. p.public_key) peers))
  earlier_outcome IdempotencyStatus.failed code = throw (conflict (or_else code "CONFLICT"))
  earlier_outcome IdempotencyStatus.started code = throw (conflict (or_else code "CONFLICT"))

  unfoldable pub earlier_import : Option IdempotencyResult → Action (List Connection)
  earlier_import none = throw (conflict "CONFLICT")
  earlier_import (some prior) = earlier_outcome prior.status prior.error_code

  -- What stands in the `try`, once the peers are listed.
  unfoldable pub store_import : String → InstanceRecord → PeerListResult → Action (List Connection)
  store_import op instance result = do
    guard (str_eq result.source_fingerprint instance.source_fingerprint)
        (conflict "FINGERPRINT_CONFLICT")
    check_peers instance.node_id result.peers peers
    imported ← import_connections (map (to_import id) peers) (λ k. r.uuid (10 + k)) (r.clock 1)
    modify (
        finish_idempotency (import_scope id) op IdempotencyStatus.succeeded (some id) none
          (r.clock 2))
    modify (
        add_audit
          (import_event op instance.node_id AuditResult.success none (
            ("connections", Detail.num (length imported))
            ∷ ("managementMode", Detail.text "observed")
            ∷ []))
          (r.uuid 1) (r.clock 3))
    pure imported

  unfoldable pub import_failed : String → InstanceRecord → Failure → Action (List Connection)
  import_failed op instance error = do
    modify (
        finish_idempotency (import_scope id) op IdempotencyStatus.failed (some id)
          (some (app_code "HELPER_UNAVAILABLE" error)) (r.clock 4))
    modify (
        add_audit
          (import_event op instance.node_id AuditResult.failure
            (some (app_code "HELPER_UNAVAILABLE" error)) [])
          (r.uuid 2) (r.clock 5))
    handle_helper_error error

  unfoldable pub proceed_import : String → InstanceRecord → Start → Action (List Connection)
  proceed_import op instance clash = throw (conflict "IDEMPOTENCY_CONFLICT")
  proceed_import op instance repeat = do
    prior ← gets (idempotency_result (import_scope id) op)
    earlier_import prior
  proceed_import op instance new =
      try_catch
        (do
          node ← read (get_node_secret instance.node_id) (other_error "TypeError")
          response ← helper.list node (list_request op)
          result ← accept 502 response
          store_import op instance result)
        (import_failed op instance)

  unfoldable pub import_peers : Action (List Connection)
  import_peers = do
    instance ← read (get_instance id) not_found
    op ← operation_id request
    start ← run (
        begin_idempotency (import_scope id) op
          (request_fingerprint hashes (obj (member "peers" (arr (peers_json peers)) end)))
          (r.clock 0))
    proceed_import op instance start
