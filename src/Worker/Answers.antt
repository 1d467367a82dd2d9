-- ===== src/Worker/Answers.antt =====
-- What the worker of apps/api/src/worker.ts does with the answers of a node: errors, counters of
-- traffic and the statuses that the node has enforced.
use awg_control.Base.{
  ℕ, suc, String, str_eq, Bool, ◌&&◌, ◌||◌, Option, none, some, List, [], ◌∷◌, all, length, leb,
  codes, ◌==◌, if◌then◌else◌,
}
use awg_control.Base.Tables.{find_last}
use awg_control.Contracts.{ConnectionStatus, ◌is◌}
use awg_control.Contracts.Entities.{Connection}
use awg_control.Exec.{
  Failure, app_error, transport_error, other_error, pure, throw, gets, modify, ◌>>=◌, ◌>>◌,
}
use awg_control.Panel.{Panel, Action, Readings, AuditResult, Detail}
use awg_control.Store.Audit.{AuditInput, add_audit}
use awg_control.Store.Connections.{get_connection, update_connection_status}
use awg_control.Store.Traffic.{update_traffic}
use awg_control.Helper.{
  HelperAction, HelperRequest, Parameters, Response, accepted, refused, PeerStats, PolicyStatus,
}

-- `if (!response.ok) throw new Error(response.error.code)`.
unfoldable pub accept_plain : {A : Type 0} → Response A → Action A
accept_plain (accepted a) = pure a
accept_plain (refused code) = throw (other_error code)

-- `request(action, parameters)`: one new UUID is the id of the request and of the operation.
unfoldable pub worker_request : Readings → HelperAction → Parameters → HelperRequest
worker_request r action parameters = record {
  request_id = r.uuid 0;
  operation_id = r.uuid_text 0;
  action = action;
  parameters = parameters;
}

-- /^[A-Z0-9_]+$/
unfoldable pub is_error_code : String → Bool
is_error_code s =
    leb 1 (length (codes s))
    && all (λ c. leb b'A' c && leb c b'Z' || leb b'0' c && leb c b'9' || c == b'_') (codes s)

-- The code that is stored for an error. The messages of AppError and of HelperTransportError are
-- sentences, which are no codes.
unfoldable pub offline_code : Failure → String
unfolding is_error_code
offline_code (other_error message) = if is_error_code message then message else "HELPER_UNAVAILABLE"
offline_code (app_error status code) = "HELPER_UNAVAILABLE"
offline_code (transport_error code) = "HELPER_UNAVAILABLE"

-- A peer's counters, added to the connection with its key, if there is one.
unfoldable pub count_for : PeerStats → ℕ → Option Connection → Panel → Panel
count_for peer now none db = db
count_for peer now (some connection) db =
    update_traffic
      (record {
        connection_id = connection.id;
        rx = peer.rx_bytes;
        tx = peer.tx_bytes;
        last_handshake_at = peer.last_handshake_at;
      })
      now db

unfoldable pub count_peer : List Connection → PeerStats → ℕ → Panel → Panel
unfolding count_for
count_peer connections peer now =
    count_for peer now (find_last (λ c. str_eq c.public_key peer.public_key) connections)

unfoldable pub count_peers : List Connection → List PeerStats → (ℕ → ℕ) → ℕ → Panel → Panel
count_peers connections [] clock k db = db
count_peers connections (peer ∷ peers) clock k db =
    count_peers connections peers clock (suc k) (count_peer connections peer (clock k) db)

abbrev pub is_enforced_status : ConnectionStatus → Bool
is_enforced_status s = s is ConnectionStatus.expired || s is ConnectionStatus.quota_exceeded

abbrev status_text : ConnectionStatus → String
status_text ConnectionStatus.active = "active"
status_text ConnectionStatus.suspended = "suspended"
status_text ConnectionStatus.expired = "expired"
status_text ConnectionStatus.quota_exceeded = "quota-exceeded"
status_text ConnectionStatus.revoked = "revoked"
status_text ConnectionStatus.error = "error"

abbrev pub enforcement : ℕ → Connection → ConnectionStatus → AuditInput
enforcement node_id connection status = record {
  admin_id = none;
  action = "policy.enforce";
  target_type = "connection";
  target_id = some connection.id;
  node_id = some node_id;
  operation_id = none;
  result = AuditResult.success;
  error_code = none;
  remote_address = none;
  details =
      ("status", Detail.text (status_text status))
      ∷ ("source", Detail.text "node-enforcement")
      ∷ [];
}

module _ (node_id : ℕ) (r : Readings) where
  unfoldable pub enforce_found : ℕ → ConnectionStatus → Option Connection → Action (Unit {0})
  enforce_found k status none = pure tt
  enforce_found k status (some connection) = if connection.status is status then pure tt else do
    update_connection_status connection.id status (r.clock k)
    modify (add_audit (enforcement node_id connection status) (r.uuid k) (r.clock (suc k)))

  unfoldable pub enforce_one : ℕ → PolicyStatus → Action (Unit {0})
  enforce_one k policy =
      if is_enforced_status policy.status
      then (do
        connection ← gets (get_connection policy.connection_id)
        enforce_found k policy.status connection)
      else pure tt

  -- The loop over the statuses; the readings of each are two clocks apart.
  unfoldable pub enforce : ℕ → List PolicyStatus → Action (Unit {0})
  enforce k [] = pure tt
  enforce k (policy ∷ policies) = do enforce_one k policy; enforce (suc (suc k)) policies
