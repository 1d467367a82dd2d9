-- ===== src/Routes/Issuance.antt =====
-- `POST /users/:id/connections` of apps/api/src/http/routes.ts: one peer is created on the node, its
-- metadata is stored, and the client configuration is handed out once.
pub mod Atomic
pub mod Once
use awg_control.Base.{
  or_else, ℕ, String, Bool, true, false, ◌&&◌, Option, none, some, [], ◌∷◌, if◌then◌else◌, ◌==◌,
  on_some,
}
use awg_control.Contracts.{ConnectionStatus, ConnectionSource, ManagementMode, is_managed_mode}
use awg_control.Contracts.Entities.{Connection, VpnUser}
use awg_control.Contracts.Instances.{InstanceRecord, supports_relay}
use awg_control.Crypto.{
  Hashes, Json, null, obj, member, end, uuid, str, num, Members, request_fingerprint,
}
use awg_control.Exec.{
  Failure, app_error, other_error, conflict, not_found, pure, throw, gets, read, run, guard, modify,
  try_catch, ◌>>=◌, ◌>>◌,
}
use awg_control.Panel.{Panel, Action, Readings, Scope, IdempotencyStatus, AuditResult, Detail}
use awg_control.Store.Nodes.{NodeSecretRecord, get_node_secret}
use awg_control.Store.Users.{get_user, get_quota}
use awg_control.Store.Instances.{get_instance, update_instance_fingerprint}
use awg_control.Store.Connections.{Issuance, complete_connection_issuance}
use awg_control.Store.Idempotency.{
  Start, new, repeat, conflict as clash, begin_idempotency, finish_idempotency, idempotency_result,
  IdempotencyResult,
}
use awg_control.Helper.{
  HelperClient, HelperAction, HelperRequest, of_create, of_mutation, CreateResult, accept,
  handle_helper_error, app_code,
}
use awg_control.Relay.Store.{RelayEndpoint, endpoint}
use awg_control.Http.{Request, operation_id}

pub record ConnectionBody : Type 0 where
  pub instance_id : ℕ
  pub name : String
  pub expires_at : Option (Option ℕ)
  pub quota_policy_id : Option (Option ℕ)

-- An optional member: absent, null or a value.
abbrev optional : String → (ℕ → Json) → Option (Option ℕ) → Members → Members
optional key print none rest = rest
optional key print (some none) rest = member key null rest
optional key print (some (some v)) rest = member key (print v) rest

abbrev body_json : ConnectionBody → Json
body_json body = obj (
    member "instanceId" (uuid body.instance_id) (
      member "name" (str body.name) (
        optional "expiresAt" num body.expires_at
          (optional "quotaPolicyId" uuid body.quota_policy_id end))))

-- `value ?? null`.
abbrev pub flatten : Option (Option ℕ) → Option ℕ
flatten none = none
flatten (some v) = v

pub record Issued : Type 0 where
  pub connection : Connection
  pub client_config : String
  pub relay_endpoint : Option RelayEndpoint

abbrev pub issue_scope : ℕ → Scope
issue_scope user_id = record { prefix = "connections.create"; subject = some user_id }

-- `if (body.quotaPolicyId) …`: the policy, if one is named, belongs to the user's node.
unfoldable pub quota_fits : ℕ → Option ℕ → Panel → Bool
quota_fits node_id none db = true
quota_fits node_id (some id) db = on_some false (λ q. q.node_id == node_id) (get_quota id db)

-- The failure carries its code, and not its detail, the connection.
unfoldable pub earlier_outcome : IdempotencyStatus → Option String → Action Issued
earlier_outcome IdempotencyStatus.succeeded code = throw (conflict "CONFIG_ALREADY_ISSUED")
earlier_outcome IdempotencyStatus.failed code = throw (conflict (or_else code "CONFLICT"))
earlier_outcome IdempotencyStatus.started code = throw (conflict "CONFLICT")

unfoldable pub repeated_issue : Option IdempotencyResult → Action Issued
repeated_issue none = throw (conflict "CONFLICT")
repeated_issue (some prior) = earlier_outcome prior.status prior.error_code

module _ (helper : HelperClient) (hashes : Hashes) (r : Readings) (request : Request) (user_id : ℕ)
    (body : ConnectionBody) where
  unfoldable pub create_request : String → InstanceRecord → NodeSecretRecord → HelperRequest
  create_request op instance node = record {
    request_id = r.uuid 1;
    operation_id = op;
    action = HelperAction.create;
    parameters = of_create (record {
      instance_id = instance.id;
      expected_fingerprint = instance.source_fingerprint;
      connection_id = r.uuid 0;
      name = body.name;
      endpoint_host = node.node.host;
      expires_at = flatten body.expires_at;
    });
  }

  unfoldable pub issuance : String → VpnUser → InstanceRecord → CreateResult → Issuance
  issuance op user instance result = record {
    connection = record {
      id = r.uuid 0;
      vpn_user_id = user_id;
      instance_id = instance.id;
      name = body.name;
      public_key = result.public_key;
      address_cidr = result.address_cidr;
      source = ConnectionSource.created;
      management_mode = ManagementMode.managed;
      status = ConnectionStatus.active;
      expires_at = flatten body.expires_at;
      quota_policy_id = flatten body.quota_policy_id;
    };
    source_fingerprint = result.source_fingerprint;
    idempotency_scope = issue_scope user_id;
    operation_id = op;
    audit = record {
      admin_id = some request.admin_id;
      action = "connection.issue";
      target_type = "connection";
      target_id = some (r.uuid 0);
      node_id = some user.node_id;
      operation_id = some op;
      result = AuditResult.success;
      error_code = none;
      remote_address = some request.ip;
      details = ("instanceId", Detail.num instance.id) ∷ ("configIssued", Detail.flag true) ∷ [];
    };
  }

  unfoldable pub revoke_request : InstanceRecord → CreateResult → HelperRequest
  revoke_request instance result = record {
    request_id = r.uuid 3;
    operation_id = r.uuid_text 0;
    action = HelperAction.revoke;
    parameters = of_mutation (record {
      instance_id = instance.id;
      expected_fingerprint = result.source_fingerprint;
      connection_id = r.uuid 0;
      public_key = result.public_key;
      override = false;
    });
  }

  -- The peer exists and its metadata could not be stored: revoke the peer, then throw the error of
  -- the database, or a 500 if the peer could not be revoked.
  unfoldable pub compensate :
      InstanceRecord → NodeSecretRecord → CreateResult → Failure → Action Connection
  compensate instance node result persistence_error = do
    try_catch
        (do
          compensation ← helper.mutate node (revoke_request instance result)
          revoked ← accept 502 compensation
          modify (update_instance_fingerprint instance.id revoked.source_fingerprint (r.clock 2)))
        λ compensation_error. throw (app_error 500 "INTERNAL_ERROR")
    throw persistence_error

  unfoldable pub issue :
      String → VpnUser → InstanceRecord → NodeSecretRecord → Option RelayEndpoint → Action Issued
  issue op user instance node relay_endpoint =
      try_catch
        (do
          response ← helper.create node (create_request op instance node)
          result ← accept 409 response
          connection ←
              try_catch
                (complete_connection_issuance (issuance op user instance result) (r.clock 1)
                  (r.uuid 2))
                (compensate instance node result)
          pure (record {
            connection = connection;
            client_config = result.client_config;
            relay_endpoint = relay_endpoint;
          }))
        λ error. do
          modify (
              finish_idempotency (issue_scope user_id) op IdempotencyStatus.failed none
                (some (app_code "INTERNAL_ERROR" error)) (r.clock 3))
          handle_helper_error error

  unfoldable pub proceed_issue : String → VpnUser → InstanceRecord → Start → Action Issued
  proceed_issue op user instance clash = throw (conflict "IDEMPOTENCY_CONFLICT")
  proceed_issue op user instance repeat = do
    prior ← gets (idempotency_result (issue_scope user_id) op)
    repeated_issue prior
  proceed_issue op user instance new = do
    node ← read (get_node_secret user.node_id) (other_error "TypeError")
    relay_endpoint ←
        gets λ db. if supports_relay instance then endpoint instance.id (r.clock 4) db else none
    issue op user instance node relay_endpoint

  unfoldable pub issue_connection : Action Issued
  issue_connection = do
    user ← read (get_user user_id) not_found
    instance ← read (get_instance body.instance_id) (app_error 400 "VALIDATION_FAILED")
    guard (instance.node_id == user.node_id) (app_error 400 "VALIDATION_FAILED")
    guard (is_managed_mode instance.mode && instance.capabilities.create)
        (conflict "ADAPTER_READ_ONLY")
    fits ← gets (quota_fits user.node_id (flatten body.quota_policy_id))
    guard fits (app_error 400 "VALIDATION_FAILED")
    op ← operation_id request
    start ← run (
        begin_idempotency (issue_scope user_id) op (request_fingerprint hashes (body_json body))
          (r.clock 0))
    proceed_issue op user instance start
