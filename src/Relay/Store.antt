-- ===== src/Relay/Store.antt =====
-- `RelayRepository` of apps/api/src/relay/repository.ts: the registration of relays and the queries.
-- `now` is the clock's reading.
pub mod Availability
use awg_control.Base.{
  ℕ, ◌+◌, String, str_eq, Bool, true, false, not, ◌&&◌, ◌||◌, Option, none, some, List, [], ◌∷◌,
  ◌++◌, map, ltb, leb, ◌==◌, if◌then◌else◌, is_some, on_some, any, take,
}
use awg_control.Base.Tables.{find_where, select_where, update_where, delete_where, order_by}
use awg_control.Exec.{
  Result, ok, err, Exec, other_error, pure, run, modify, transaction, ◌>>=◌, ◌>>◌,
}
use awg_control.Panel.{
  Panel, Action, RelayServerStatus, RelayServerRow, RelayRoute, RelayOperationStatus, StoredRequest,
  RelayBody, RelayOperationRow,
}

pub record RelayServer : Type 0 where
  pub id : ℕ
  pub name : String
  pub host : String
  pub public_ipv4 : String
  pub port : ℕ
  pub host_key_fingerprint : String
  pub status : RelayServerStatus
  pub source_fingerprint : Option String
  pub helper_version : Option String
  pub last_checked_at : Option ℕ
  pub last_error_code : Option String
  pub created_at : ℕ
  pub updated_at : ℕ

-- `server`; the constant `sshUsername` is left out.
unfoldable pub server : RelayServerRow → RelayServer
server row = record {
  id = row.id;
  name = row.name;
  host = row.host;
  public_ipv4 = row.public_ipv4;
  port = row.port;
  host_key_fingerprint = row.host_key_fingerprint;
  status = row.status;
  source_fingerprint = row.source_fingerprint;
  helper_version = row.helper_version;
  last_checked_at = row.last_checked_at;
  last_error_code = row.last_error_code;
  created_at = row.created_at;
  updated_at = row.updated_at;
}

pub record RelaySecret : Type 0 where
  pub relay : RelayServer
  pub transport_private_key_encrypted : String

pub record RelayEndpoint : Type 0 where
  pub route_id : ℕ
  pub host : String
  pub port : ℕ

abbrev pub is_relay : ℕ → RelayServerRow → Bool
is_relay id row = row.id == id

abbrev pub is_ready : RelayServerStatus → Bool
is_ready RelayServerStatus.ready = true
is_ready _ = false

-- status IN ('pending', 'uncertain')
abbrev pub is_open : RelayOperationStatus → Bool
is_open RelayOperationStatus.pending = true
is_open RelayOperationStatus.uncertain = true
is_open RelayOperationStatus.succeeded = false
is_open RelayOperationStatus.failed = false

-- `list`, by the order of names, a parameter.
unfoldable pub list_relays : (String → String → Bool) → Panel → List RelayServer
unfolding server
list_relays le db = map server (order_by (λ a b. le a.name b.name) db.relay_servers)

unfoldable pub get_relay : ℕ → Panel → Option RelayServer
unfolding server
get_relay id db = elim (find_where (is_relay id) db.relay_servers) [
  | none ↦ none
  | some row ↦ some (server row)
]

unfoldable pub relay_secret : ℕ → Panel → Option RelaySecret
unfolding server
relay_secret id db = elim (find_where (is_relay id) db.relay_servers) [
  | none ↦ none
  | some row ↦ some (record {
    relay = server row;
    transport_private_key_encrypted = row.transport_private_key_encrypted;
  })
]

pub record NewRelay : Type 0 where
  pub id : ℕ
  pub name : String
  pub host : String
  pub public_ipv4 : String
  pub port : ℕ
  pub host_key_fingerprint : String
  pub encrypted_key : String

abbrev new_relay_row : NewRelay → ℕ → RelayServerRow
new_relay_row input now = record {
  id = input.id;
  name = input.name;
  host = input.host;
  public_ipv4 = input.public_ipv4;
  port = input.port;
  host_key_fingerprint = input.host_key_fingerprint;
  transport_private_key_encrypted = input.encrypted_key;
  status = RelayServerStatus.pending;
  source_fingerprint = none;
  helper_version = none;
  last_checked_at = none;
  last_error_code = none;
  created_at = now;
  updated_at = now;
}

-- PRIMARY KEY (id), and the CHECK of the port.
unfoldable pub create_relay : NewRelay → ℕ → Action RelayServer
unfolding server
create_relay input now db =
    if any (is_relay input.id) db.relay_servers || not (leb 1 input.port && leb input.port 65535)
    then (err (other_error "SQLITE_CONSTRAINT"), db)
    else (
      ok (server (new_relay_row input now)),
      record db { relay_servers = db.relay_servers ++ new_relay_row input now ∷ [] },
    )

abbrev pub on_relay : ℕ → RelayRoute → Bool
on_relay relay_id r = r.relay_id == relay_id

unfoldable pub routes : ℕ → Panel → List RelayRoute
routes relay_id db =
    order_by (λ a b. leb a.listen_port b.listen_port)
      (select_where (on_relay relay_id) db.relay_routes)

unfoldable pub get_route : ℕ → Panel → Option RelayRoute
get_route id db = find_where (λ r. r.id == id) db.relay_routes

unfoldable pub instance_route : ℕ → Panel → Option RelayRoute
instance_route instance_id db = find_where (λ r. r.instance_id == instance_id) db.relay_routes

-- `operation`, whose `action` is the change of the stored body.
pub record RelayOperation : Type 0 where
  pub id : ℕ
  pub relay_id : ℕ
  pub operation_id : String
  pub status : RelayOperationStatus
  pub error_code : Option String
  pub created_at : ℕ
  pub updated_at : ℕ

unfoldable pub operation : RelayOperationRow → RelayOperation
operation row = record {
  id = row.id;
  relay_id = row.relay_id;
  operation_id = row.operation_id;
  status = row.status;
  error_code = row.error_code;
  created_at = row.created_at;
  updated_at = row.updated_at;
}

pub record StoredRelayOperation : Type 0 where
  pub state : RelayOperation
  pub request_hash : String
  pub request : StoredRequest

abbrev pub stored_of : RelayOperationRow → StoredRelayOperation
stored_of row = record {
  state = operation row;
  request_hash = row.request_hash;
  request = row.request;
}

abbrev pub is_operation : ℕ → String → RelayOperationRow → Bool
is_operation relay_id operation_id row =
    row.relay_id == relay_id && str_eq row.operation_id operation_id

unfoldable pub operations : ℕ → Panel → List RelayOperation
unfolding operation
operations relay_id db = map operation (
    take 50 (
      order_by (λ a b. leb b.created_at a.created_at)
        (select_where (λ row. row.relay_id == relay_id) db.relay_operations)))

unfoldable pub get_operation : ℕ → String → Panel → Option StoredRelayOperation
unfolding operation
get_operation relay_id operation_id db =
    elim (find_where (is_operation relay_id operation_id) db.relay_operations) [
      | none ↦ none
      | some row ↦ some (stored_of row)
    ]

-- An operation of the relay that is pending or uncertain.
abbrev pub is_open_on : ℕ → RelayOperationRow → Bool
is_open_on relay_id row = row.relay_id == relay_id && is_open row.status

unfoldable pub pending : ℕ → Panel → Bool
pending relay_id db = any (is_open_on relay_id) db.relay_operations

-- `r?.enabled`, then the relay, which must be ready, checked in the last two minutes and free of
-- open operations.
unfoldable pub is_available : ℕ → Panel → RelayServer → Bool
unfolding pending
is_available now db s =
    is_ready s.status
    && on_some false (λ t. leb now (t + 120_000)) s.last_checked_at
    && not (pending s.id db)

abbrev pub to_endpoint : ℕ → Panel → RelayRoute → Option RelayServer → Option RelayEndpoint
to_endpoint now db r none = none
to_endpoint now db r (some s) =
    if is_available now db s
    then some (record { route_id = r.id; host = s.public_ipv4; port = r.listen_port })
    else none

unfoldable pub endpoint : ℕ → ℕ → Panel → Option RelayEndpoint
unfolding instance_route get_relay is_available
endpoint instance_id now db = elim (instance_route instance_id db) [
  | none ↦ none
  | some r ↦ if r.enabled then to_endpoint now db r (get_relay r.relay_id db) else none
]
