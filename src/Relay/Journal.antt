-- ===== src/Relay/Journal.antt =====
-- `RelayRepository` of apps/api/src/relay/repository.ts: the journal of operations, the health of a
-- relay, and the commit of its routes. SQLite refuses a row that breaks a constraint of the tables.
pub mod Serial
use awg_control.Base.{
  ℕ, String, str_eq, Bool, true, false, not, ◌&&◌, ◌||◌, Option, none, some, List, [], ◌∷◌, ◌++◌,
  leb, ◌==◌, if◌then◌else◌, or_else, is_some, any,
}
use awg_control.Base.Tables.{find_where, update_where, delete_where}
use awg_control.Exec.{
  Result, ok, err, other_error, pure, run, modify, transaction, read, ◌>>=◌, ◌>>◌,
}
use awg_control.Panel.{
  Panel, Action, RelayServerStatus, RelayServerRow, RelayRoute, RelayOperationStatus, StoredRequest,
  RelayOperationRow,
}
use awg_control.Relay.Store.{
  is_relay, on_relay, is_open, is_open_on, is_operation, StoredRelayOperation, get_operation,
}

abbrev pub pending_row : ℕ → String → String → StoredRequest → ℕ → ℕ → RelayOperationRow
pending_row relay_id operation_id request_hash request id now = record {
  id = id;
  relay_id = relay_id;
  operation_id = operation_id;
  request_hash = request_hash;
  request = request;
  status = RelayOperationStatus.pending;
  error_code = none;
  created_at = now;
  updated_at = now;
}

-- PRIMARY KEY (id), UNIQUE (relay_id, operation_id), and the index relay_one_pending_operation.
unfoldable pub blocks_begin : ℕ → String → ℕ → RelayOperationRow → Bool
blocks_begin relay_id operation_id id row =
    row.id == id || is_operation relay_id operation_id row || is_open_on relay_id row

unfoldable pub begin : ℕ → String → String → StoredRequest → ℕ → ℕ → Action StoredRelayOperation
unfolding blocks_begin get_operation
begin relay_id operation_id request_hash request id now db =
    if any (blocks_begin relay_id operation_id id) db.relay_operations
      || not (any (is_relay relay_id) db.relay_servers)
    then (err (other_error "SQLITE_CONSTRAINT"), db)
    else let db' : Panel = record db {
      relay_operations =
          db.relay_operations ++ pending_row relay_id operation_id request_hash request id now ∷ [];
    } in
      read (get_operation relay_id operation_id) (other_error "TypeError") db'

abbrev pub settled :
    RelayOperationStatus → Option String → ℕ → RelayOperationRow → RelayOperationRow
settled status error_code now row = record row {
  status = status;
  error_code = error_code;
  updated_at = now;
}

-- Another operation of the relay that is open.
abbrev pub is_other_open : ℕ → String → RelayOperationRow → Bool
is_other_open relay_id operation_id row =
    is_open_on relay_id row && not (is_operation relay_id operation_id row)

-- The index relay_one_pending_operation holds for the updated row too.
unfoldable pub finish : ℕ → String → RelayOperationStatus → Option String → ℕ → Action (Unit {0})
finish relay_id operation_id status error_code now db =
    if is_open status
      && any (is_operation relay_id operation_id) db.relay_operations
      && any (is_other_open relay_id operation_id) db.relay_operations
    then (err (other_error "SQLITE_CONSTRAINT"), db)
    else (
      ok tt,
      record db {
        relay_operations =
            update_where (is_operation relay_id operation_id) (settled status error_code now)
              db.relay_operations;
      },
    )

-- COALESCE(?, column)
abbrev pub coalesce : Option String → Option String → Option String
coalesce none old = old
coalesce (some v) old = some v

abbrev pub checked :
    RelayServerStatus
    → Option String
    → Option String
    → Option String
    → ℕ
    → ℕ
    → RelayServerRow
    → RelayServerRow
checked status fingerprint helper_version error_code checked_at now row = record row {
  status = status;
  source_fingerprint = coalesce fingerprint row.source_fingerprint;
  helper_version = coalesce helper_version row.helper_version;
  last_checked_at = some checked_at;
  last_error_code = error_code;
  updated_at = now;
}

unfoldable pub health :
    ℕ → RelayServerStatus → Option String → Option String → Option String → ℕ → ℕ → Panel → Panel
health id status fingerprint helper_version error_code checked_at now db = record db {
  relay_servers =
      update_where (is_relay id)
        (checked status fingerprint helper_version error_code checked_at now) db.relay_servers;
}

-- PRIMARY KEY (id), UNIQUE (instance_id), UNIQUE (relay_id, listen_port).
unfoldable pub route_collides : RelayRoute → RelayRoute → Bool
route_collides new r =
    r.id == new.id
    || r.instance_id == new.instance_id
    || r.relay_id == new.relay_id && r.listen_port == new.listen_port

-- The CHECKs of the ports, and the foreign keys.
unfoldable pub route_fits : RelayRoute → Panel → Bool
route_fits new db =
    leb 1024 new.listen_port
    && leb new.listen_port 65535
    && leb 1 new.upstream_port
    && leb new.upstream_port 65535
    && any (is_relay new.relay_id) db.relay_servers
    && any (λ i. i.id == new.instance_id) db.instances

unfoldable pub insert_route : RelayRoute → Action (Unit {0})
unfolding route_collides route_fits
insert_route new db =
    if not (route_fits new db) || any (route_collides new) db.relay_routes
    then (err (other_error "SQLITE_CONSTRAINT"), db)
    else (ok tt, record db { relay_routes = db.relay_routes ++ new ∷ [] })

-- Each route is stored under the relay of the commit.
unfoldable pub insert_routes : ℕ → List RelayRoute → Action (Unit {0})
insert_routes relay_id [] = pure tt
insert_routes relay_id (r ∷ rs) =
    insert_route (record r { relay_id = relay_id }) >> insert_routes relay_id rs

abbrev pub status_of : Bool → Bool → RelayServerStatus
status_of installed active =
    if installed
    then if active then RelayServerStatus.ready else RelayServerStatus.offline
    else RelayServerStatus.uninstalled

unfoldable pub commit :
    ℕ → String → List RelayRoute → String → String → Bool → Bool → (ℕ → ℕ) → Action (Unit {0})
commit relay_id operation_id rs fingerprint helper_version installed active clock = transaction do
  modify λ db. record db { relay_routes = delete_where (on_relay relay_id) db.relay_routes }
  insert_routes relay_id rs
  modify (
      health relay_id (status_of installed active) (some fingerprint) (some helper_version) none
        (clock 0) (clock 1))
  finish relay_id operation_id RelayOperationStatus.succeeded none (clock 2)

-- `delete`: the operations, the routes, and the relay.
unfoldable pub delete_relay : ℕ → Panel → Panel
delete_relay id db = record db {
  relay_operations = delete_where (λ row. row.relay_id == id) db.relay_operations;
  relay_routes = delete_where (on_relay id) db.relay_routes;
  relay_servers = delete_where (is_relay id) db.relay_servers;
}
