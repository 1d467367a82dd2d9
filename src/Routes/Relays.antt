-- ===== src/Routes/Relays.antt =====
-- apps/api/src/http/relay-routes.ts: registration, inspection, changes and deletion of relays.
pub mod Deletion
use awg_control.Base.{
  ℕ, String, Bool, true, false, not, ◌&&◌, ◌||◌, Option, none, some, List, [], or_else, ◌==◌,
  length, on_some,
}
use awg_control.Crypto.{
  Hashes, Json, Members, obj, member, end, uuid, str, num, request_fingerprint, hash_opaque,
}
use awg_control.Exec.{
  app_error, conflict, not_found, pure, throw, gets, read, run, guard, modify, ◌>>=◌, ◌>>◌,
}
use awg_control.Panel.{
  Panel, Action, Readings, Scope, IdempotencyStatus, AuditResult, RelayChange, RelayBody,
  RelayRoute, install, update, apply, disable, remove, uninstall,
}
use awg_control.Store.Audit.{AuditInput, add_audit}
use awg_control.Store.Idempotency.{
  Start, new, repeat, conflict as clash, begin_idempotency, finish_idempotency, idempotency_result,
  IdempotencyResult,
}
use awg_control.Helper.{HelperClient}
use awg_control.Http.{Request}
use awg_control.Relay.Address.{public_ipv4}
use awg_control.Relay.Store.{
  RelayServer, RelayOperation, NewRelay, get_relay, create_relay, routes, operations, pending,
}
use awg_control.Relay.Journal.{delete_relay}
use awg_control.Relay.Service.{RelayClient, RelayStatus, check_status}
use awg_control.Relay.Changes.{mutate}

-- `String(request.headers["idempotency-key"])`
abbrev pub op : Request → String
op request = or_else request.key "undefined"

pub record RelayMetadata : Type 0 where
  pub relay : RelayServer
  pub routes : List RelayRoute
  pub operations : List RelayOperation

unfoldable pub metadata : ℕ → Action RelayMetadata
metadata id = do
  relay ← read (get_relay id) not_found
  rs ← gets (routes id)
  history ← gets (operations id)
  pure (record { relay = relay; routes = rs; operations = history })

pub record RegisterRelay : Type 0 where
  pub name : String
  pub host : String
  pub public_ipv4 : String
  pub port : Option ℕ
  pub host_key_fingerprint : String
  pub transport_private_key : String

abbrev given_port : Option ℕ → Members → Members
given_port none rest = rest
given_port (some p) rest = member "port" (num p) rest

abbrev relay_json : Hashes → RegisterRelay → Json
relay_json hashes body = obj (
    member "name" (str body.name) (
      member "host" (str body.host) (
        member "publicIpv4" (str body.public_ipv4) (
          given_port body.port (
            member "hostKeyFingerprint" (str body.host_key_fingerprint) (
              member "transportPrivateKey" (str (hash_opaque hashes body.transport_private_key))
                end))))))

abbrev relay_event : Request → String → ℕ → AuditInput
relay_event request action id = record {
  admin_id = some request.admin_id;
  action = action;
  target_type = "relay";
  target_id = some id;
  node_id = none;
  operation_id = some (op request);
  result = AuditResult.success;
  error_code = none;
  remote_address = some request.ip;
  details = [];
}

abbrev pub register_scope : Scope
register_scope = record { prefix = "relays.register"; subject = none }

unfoldable pub registered : Option IdempotencyResult → Action RelayServer
registered none = throw (conflict "RELAY_BUSY")
registered (some prior) = elim prior.result_id [
  | some id ↦ read (get_relay id) not_found
  | none ↦ throw (conflict "RELAY_BUSY")
]

-- `encrypt` is `encryptSecret` with the master key, for the purpose `relay-transport-key:<id>`.
module _ (encrypt : ℕ → String → String) (is_ipv4 : String → Bool) (hashes : Hashes) (r : Readings)
    (request : Request) (body : RegisterRelay) where
  unfoldable pub new_relay : NewRelay
  new_relay = record {
    id = r.uuid 0;
    name = body.name;
    host = body.host;
    public_ipv4 = body.public_ipv4;
    port = or_else body.port 22;
    host_key_fingerprint = body.host_key_fingerprint;
    encrypted_key = encrypt (r.uuid 0) body.transport_private_key;
  }

  unfoldable pub proceed_register : Start → Action RelayServer
  proceed_register clash = throw (conflict "IDEMPOTENCY_CONFLICT")
  proceed_register repeat = do
    prior ← gets (idempotency_result register_scope (op request))
    registered prior
  proceed_register new = do
    relay ← create_relay new_relay (r.clock 1)
    modify (
        finish_idempotency register_scope (op request) IdempotencyStatus.succeeded (some (r.uuid 0))
          none (r.clock 2))
    modify (add_audit (relay_event request "relay.register" (r.uuid 0)) (r.uuid 1) (r.clock 3))
    pure relay

  unfoldable pub register_relay : Action RelayServer
  register_relay = do
    guard (public_ipv4 is_ipv4 body.host && public_ipv4 is_ipv4 body.public_ipv4)
        (app_error 400 "VALIDATION_FAILED")
    start ← run (
        begin_idempotency register_scope (op request)
          (request_fingerprint hashes (relay_json hashes body)) (r.clock 0))
    proceed_register start

abbrev request_name : RelayChange → String
request_name install = "relay.install.request"
request_name update = "relay.update.request"
request_name (apply i port) = "relay.apply.request"
request_name (disable id) = "relay.disable.request"
request_name (remove id) = "relay.remove.request"
request_name uninstall = "relay.uninstall.request"

abbrev pub delete_scope : ℕ → Scope
delete_scope id = record { prefix = "relays.delete"; subject = some id }

-- `status.installed || status.active || status.routes.length`, negated.
abbrev pub is_gone : RelayStatus → Bool
is_gone s = not (s.installed || s.active || not (length s.routes == 0))

abbrev pub was_deleted : Option IdempotencyResult → Bool
was_deleted none = false
was_deleted (some prior) = elim prior.status [
  | IdempotencyStatus.succeeded ↦ true
  | IdempotencyStatus.failed ↦ false
  | IdempotencyStatus.started ↦ false
]

module _ (client : RelayClient) (helper : HelperClient) (is_ipv4 : String → Bool) (hashes : Hashes)
    (r : Readings) (request : Request) (id : ℕ) where
  -- `POST /relays/:id/<action>`; `r'` are the readings of `RelayService.mutate`.
  unfoldable pub change_relay : Readings → RelayBody → Action RelayOperation
  change_relay r' body = do
    modify (add_audit (relay_event request (request_name body.change) id) (r.uuid 0) (r.clock 0))
    mutate client helper is_ipv4 hashes r' id (op request) body

module _ (client : RelayClient) (is_ipv4 : String → Bool) (hashes : Hashes) (r : Readings)
    (request : Request) (id : ℕ) where
  unfoldable pub delete_checked : Readings → Action (Unit {0})
  delete_checked r' = do
    read (get_relay id) not_found
    busy ← gets (pending id)
    guard (not busy) (conflict "RELAY_BUSY")
    s ← check_status client is_ipv4 hashes r' id
    guard (is_gone s) (conflict "RELAY_NOT_UNINSTALLED")
    run (
        begin_idempotency (delete_scope id) (op request)
          (request_fingerprint hashes (obj (member "id" (uuid id) end))) (r.clock 0))
    modify (delete_relay id)
    modify (
        finish_idempotency (delete_scope id) (op request) IdempotencyStatus.succeeded (some id) none
          (r.clock 1))
    modify (add_audit (relay_event request "relay.delete" id) (r.uuid 0) (r.clock 2))

  unfoldable pub unless_deleted : Readings → Bool → Action (Unit {0})
  unless_deleted r' true = pure tt
  unless_deleted r' false = delete_checked r'

  unfoldable pub delete_registration : Readings → Action (Unit {0})
  delete_registration r' = do
    prior ← gets (idempotency_result (delete_scope id) (op request))
    unless_deleted r' (was_deleted prior)
