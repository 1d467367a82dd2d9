-- ===== src/Routes/Registration/Nodes.antt =====
-- `POST /nodes` and `POST /nodes/:id/verify-host-key` of apps/api/src/http/routes.ts.
use awg_control.Base.{ℕ, String, Option, none, some, [], ◌∷◌, true, or_else}
use awg_control.Contracts.Entities.{NodeRecord}
use awg_control.Crypto.{
  Hashes, Json, obj, Members, member, end, str, num, request_fingerprint, hash_opaque,
}
use awg_control.Exec.{conflict, not_found, pure, throw, gets, read, run, modify, ◌>>=◌, ◌>>◌}
use awg_control.Panel.{Action, Readings, IdempotencyStatus, Detail}
use awg_control.Store.Audit.{add_audit}
use awg_control.Store.Nodes.{NewNode, create_node, get_node}
use awg_control.Store.Idempotency.{
  Start, new, repeat, conflict as clash, begin_idempotency, finish_idempotency, idempotency_result,
}
use awg_control.Http.{Request, operation_id}
use awg_control.Routes.Registration.{whole, optional, flatten, repeated, in_progress, success}

pub record NodeBody : Type 0 where
  pub name : String
  pub description : Option (Option String)
  pub host : String
  pub port : Option ℕ
  pub ssh_username : Option String
  pub host_key_fingerprint : String
  pub transport_private_key : String
  pub poll_interval_seconds : Option ℕ

abbrev given : {A : Type 0} → String → (A → Json) → Option A → Members → Members
given key print none rest = rest
given key print (some v) rest = member key (print v) rest

-- `{ ...body, transportPrivateKey: hashOpaque(…) }`
abbrev node_json : Hashes → NodeBody → Json
node_json hashes body = obj (
    member "name" (str body.name) (
      optional "description" body.description (
        member "host" (str body.host) (
          given "port" num body.port (
            given "sshUsername" str body.ssh_username (
              member "hostKeyFingerprint" (str body.host_key_fingerprint) (
                member "transportPrivateKey" (str (hash_opaque hashes body.transport_private_key))
                  (given "pollIntervalSeconds" num body.poll_interval_seconds end))))))))

module _ (r : Readings) (request : Request) where
  unfoldable pub verify_host_key : ℕ → Action NodeRecord
  verify_host_key id = do
    node ← read (get_node id) not_found
    op ← operation_id request
    modify (
        add_audit
          (record (success request op "node.host-key-confirm" "node" id id) {
            details = ("fingerprintConfirmed", Detail.flag true) ∷ [];
          })
          (r.uuid 0) (r.clock 0))
    pure node

  -- `encrypt` is `encryptSecret` with the master key, for the purpose `transport-key:<id>`.
  module _ (encrypt : ℕ → String → String) (hashes : Hashes) (body : NodeBody) where
    unfoldable pub new_node : NewNode
    new_node = record {
      id = r.uuid 0;
      name = body.name;
      description = flatten body.description;
      host = body.host;
      port = or_else body.port 22;
      ssh_username = or_else body.ssh_username "awg-control-agent";
      host_key_fingerprint = body.host_key_fingerprint;
      transport_private_key_encrypted = encrypt (r.uuid 0) body.transport_private_key;
      poll_interval_seconds = or_else body.poll_interval_seconds 60;
    }

    unfoldable pub proceed_node : String → Start → Action NodeRecord
    proceed_node op clash = throw (conflict "IDEMPOTENCY_CONFLICT")
    proceed_node op repeat = do
      prior ← gets (idempotency_result (whole "nodes.create") op)
      repeated get_node in_progress prior
    proceed_node op new = do
      node ← create_node new_node (r.clock 1)
      modify (
          finish_idempotency (whole "nodes.create") op IdempotencyStatus.succeeded (some node.id)
            none (r.clock 2))
      modify (
          add_audit (success request op "node.register" "node" node.id node.id) (r.uuid 1)
            (r.clock 3))
      pure node

    unfoldable pub register_node : Action NodeRecord
    register_node = do
      op ← operation_id request
      start ← run (
          begin_idempotency (whole "nodes.create") op
            (request_fingerprint hashes (node_json hashes body)) (r.clock 0))
      proceed_node op start
