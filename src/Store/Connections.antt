-- ===== src/Store/Connections.antt =====
-- The connections in apps/api/src/repository.ts.
use awg_control.Base.{
  ℕ, ◌+◌, String, str_eq, Bool, true, not, ◌&&◌, ◌||◌, Option, none, some, List, [], ◌∷◌, ◌++◌, map,
  any, leb, ◌==◌, if◌then◌else◌, on_some,
}
use awg_control.Base.Tables.{find_where, select_where, update_where, order_by}
use awg_control.Contracts.{ConnectionStatus, ConnectionSource, ManagementMode, ◌is◌, is_imported}
use awg_control.Contracts.Entities.{Connection}
use awg_control.Exec.{ok, err, other_error, transaction, pure, modify, ◌>>=◌, ◌>>◌}
use awg_control.Panel.{Panel, Action, ConnectionRow, Scope, IdempotencyStatus}
use awg_control.Store.Instances.{update_instance_fingerprint}
use awg_control.Store.Idempotency.{finish_idempotency}
use awg_control.Store.Audit.{AuditInput, add_audit}

-- `toConnection`.
unfoldable pub to_connection : ConnectionRow → Connection
to_connection row = record {
  id = row.id;
  vpn_user_id = row.vpn_user_id;
  instance_id = row.instance_id;
  name = row.name;
  public_key = row.public_key;
  address_cidr = row.address_cidr;
  source = row.source;
  management_mode = row.management_mode;
  status = row.status;
  expires_at = row.expires_at;
  quota_policy_id = row.quota_policy_id;
  quota_override_at = row.quota_override_at;
  last_handshake_at = row.last_handshake_at;
  rx_bytes_total = row.rx_bytes_total;
  tx_bytes_total = row.tx_bytes_total;
  created_at = row.created_at;
  updated_at = row.updated_at;
  revoked_at = row.revoked_at;
}

abbrev found : Option ConnectionRow → Option Connection
found none = none
found (some row) = some (to_connection row)

abbrev pub has_id : ℕ → ConnectionRow → Bool
has_id id c = c.id == id

unfoldable pub get_connection : ℕ → Panel → Option Connection
unfolding to_connection
get_connection id db = found (find_where (has_id id) db.connections)

unfoldable pub list_connections_for_user : ℕ → Panel → List Connection
unfolding to_connection
list_connections_for_user user_id db = map to_connection (
    order_by (λ a b. leb b.created_at a.created_at)
      (select_where (λ c. c.vpn_user_id == user_id) db.connections))

unfoldable pub list_connections_for_instance : ℕ → Panel → List Connection
unfolding to_connection
list_connections_for_instance instance_id db = map to_connection (
    select_where (λ c. c.instance_id == instance_id && not (c.status is ConnectionStatus.revoked))
      db.connections)

pub record NewConnection : Type 0 where
  pub id : ℕ
  pub vpn_user_id : ℕ
  pub instance_id : ℕ
  pub name : String
  pub public_key : String
  pub address_cidr : String
  pub source : ConnectionSource
  pub management_mode : ManagementMode
  pub status : ConnectionStatus
  pub expires_at : Option ℕ
  pub quota_policy_id : Option ℕ

unfoldable pub new_row : NewConnection → ℕ → ConnectionRow
new_row input now = record {
  id = input.id;
  vpn_user_id = input.vpn_user_id;
  instance_id = input.instance_id;
  name = input.name;
  public_key = input.public_key;
  address_cidr = input.address_cidr;
  source = input.source;
  management_mode = input.management_mode;
  status = input.status;
  expires_at = input.expires_at;
  quota_policy_id = input.quota_policy_id;
  last_handshake_at = none;
  rx_bytes_total = 0;
  tx_bytes_total = 0;
  last_counter_rx = 0;
  last_counter_tx = 0;
  counter_epoch = 0;
  created_at = now;
  updated_at = now;
  revoked_at = none;
  quota_override_at = none;
  quota_override_used_bytes = 0;
}

-- PRIMARY KEY (id), UNIQUE (instance_id, public_key), and UNIQUE (instance_id, address_cidr) among
-- the connections that are not revoked.
unfoldable pub collides : ConnectionRow → ConnectionRow → Bool
collides new c =
    c.id == new.id
    || c.instance_id == new.instance_id
      && (str_eq c.public_key new.public_key
          || str_eq c.address_cidr new.address_cidr
            && not (c.status is ConnectionStatus.revoked)
            && not (new.status is ConnectionStatus.revoked))

-- The foreign keys of a connection.
unfoldable pub has_parents : NewConnection → Panel → Bool
has_parents input db =
    any (λ u. u.id == input.vpn_user_id) db.vpn_users
    && any (λ i. i.id == input.instance_id) db.instances
    && on_some true (λ q. any (λ p. p.id == q) db.quota_policies) input.quota_policy_id

unfoldable pub create_connection : NewConnection → ℕ → Action Connection
unfolding to_connection new_row collides has_parents
create_connection input now db =
    if not (has_parents input db) || any (collides (new_row input now)) db.connections
    then (err (other_error "SQLITE_CONSTRAINT"), db)
    else (
      ok (to_connection (new_row input now)),
      record db { connections = db.connections ++ new_row input now ∷ [] },
    )

pub record Issuance : Type 0 where
  pub connection : NewConnection
  pub source_fingerprint : String
  pub idempotency_scope : Scope
  pub operation_id : String
  pub audit : AuditInput

-- One transaction: the connection, the instance's fingerprint, the journal and the audit event. The
-- statements after the insert break no constraint that the model has.
unfoldable pub complete_connection_issuance : Issuance → ℕ → ℕ → Action Connection
unfolding create_connection update_instance_fingerprint finish_idempotency add_audit
complete_connection_issuance input now audit_id = transaction do
  connection ← create_connection input.connection now
  modify (update_instance_fingerprint input.connection.instance_id input.source_fingerprint now)
  modify (
      finish_idempotency input.idempotency_scope input.operation_id IdempotencyStatus.succeeded
        (some connection.id) none now)
  modify (add_audit input.audit audit_id now)
  pure connection

abbrev pub set_status : ConnectionStatus → ℕ → ConnectionRow → ConnectionRow
set_status status now c = record c {
  status = status;
  revoked_at = (if status is ConnectionStatus.revoked then some now else c.revoked_at);
  updated_at = now;
}

-- UPDATE … WHERE id = ?, then the row as it is read back. SQLite refuses an update that makes the
-- row collide with another one.
unfoldable pub update_connection : ℕ → (ConnectionRow → ConnectionRow) → Action (Option Connection)
unfolding get_connection collides
update_connection id f db = elim (find_where (has_id id) db.connections) [
  | none ↦ (ok none, db)
  | some row ↦
      let db' : Panel = record db { connections = update_where (has_id id) f db.connections } in
      if any (λ c. not (has_id id c) && collides (f row) c) db.connections
      then (err (other_error "SQLITE_CONSTRAINT"), db)
      else (ok (get_connection id db'), db')
]

unfoldable pub update_connection_status : ℕ → ConnectionStatus → ℕ → Action (Option Connection)
unfolding update_connection
update_connection_status id status now = update_connection id (set_status status now)

-- What an override does to a connection, by the status that it had.
unfoldable pub overridden : ConnectionStatus → ℕ → ConnectionRow → ConnectionRow
overridden ConnectionStatus.quota_exceeded now c = record c {
  status = ConnectionStatus.active;
  quota_override_at = some now;
  quota_override_used_bytes = 0;
  updated_at = now;
}
overridden ConnectionStatus.expired now c = record c {
  status = ConnectionStatus.active;
  expires_at = none;
  updated_at = now;
}
overridden _ now c = set_status ConnectionStatus.active now c

unfoldable pub apply_connection_override : ℕ → ConnectionStatus → ℕ → Action (Option Connection)
unfolding update_connection overridden
apply_connection_override id previous_status now =
    update_connection id (overridden previous_status now)

abbrev adopted : ℕ → ConnectionRow → ConnectionRow
adopted now c =
    if is_imported c.source
    then record c { management_mode = ManagementMode.managed; updated_at = now }
    else c

-- The WHERE clause also asks that the connection is imported.
unfoldable pub adopt_connection : ℕ → ℕ → Action (Option Connection)
unfolding update_connection
adopt_connection id now = update_connection id (adopted now)

pub record ImportInput : Type 0 where
  pub vpn_user_id : ℕ
  pub instance_id : ℕ
  pub name : String
  pub public_key : String
  pub address_cidr : String

unfoldable pub import_connection : ImportInput → ℕ → ℕ → Action Connection
unfolding create_connection
import_connection input id now =
    create_connection
      (record {
        id = id;
        vpn_user_id = input.vpn_user_id;
        instance_id = input.instance_id;
        name = input.name;
        public_key = input.public_key;
        address_cidr = input.address_cidr;
        source = ConnectionSource.imported;
        management_mode = ManagementMode.observed;
        status = ConnectionStatus.active;
        expires_at = none;
        quota_policy_id = none;
      })
      now

-- `ids` gives the UUID of each row that is left to import.
unfoldable pub import_all : List ImportInput → (ℕ → ℕ) → ℕ → ℕ → Action (List Connection)
unfolding import_connection
import_all [] ids k now = pure []
import_all (input ∷ rest) ids k now = do
  connection ← import_connection input (ids k) now
  connections ← import_all rest ids (k + 1) now
  pure (connection ∷ connections)

unfoldable pub import_connections : List ImportInput → (ℕ → ℕ) → ℕ → Action (List Connection)
unfolding import_all
import_connections inputs ids now = transaction (import_all inputs ids 0 now)

unfoldable pub connections_by_public_keys : ℕ → List String → Panel → List Connection
unfolding to_connection
connections_by_public_keys instance_id public_keys db = map to_connection (
    order_by (λ a b. leb a.created_at b.created_at)
      (select_where
        (λ c. c.instance_id == instance_id && any (λ k. str_eq k c.public_key) public_keys)
        db.connections))
