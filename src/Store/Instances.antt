-- ===== src/Store/Instances.antt =====
-- The instances in apps/api/src/repository.ts.
pub mod Modes
use awg_control.Base.{
  ℕ, String, str_eq, Bool, true, false, not, ◌&&◌, ◌||◌, Option, none, some, List, [], ◌∷◌, ◌++◌,
  map, any, codes, ◌==◌, if◌then◌else◌,
}
use awg_control.Base.Tables.{find_where, select_where, update_where, order_by}
use awg_control.Contracts.{
  InstanceMode, Adapter, ProtocolVersion, mode_index, adapter_index, protocol_index,
}
use awg_control.Contracts.Instances.{InstanceRecord}
use awg_control.Crypto.{text_le}
use awg_control.Exec.{Result, ok, err, other_error, transaction, ◌>>=◌, ◌>>◌, modify, pure, gets}
use awg_control.Panel.{Panel, Action, InstanceRow}

-- `toInstance`.
unfoldable pub to_instance : InstanceRow → InstanceRecord
to_instance row = record {
  id = row.id;
  node_id = row.node_id;
  display_name = row.display_name;
  adapter = row.adapter;
  protocol_version = row.protocol_version;
  container_ref = row.container_ref;
  interface_name = row.interface_name;
  config_ref = row.config_ref;
  capabilities = row.capabilities;
  source_fingerprint = row.source_fingerprint;
  mode = row.mode;
  last_discovered_at = row.last_discovered_at;
  udp_port = row.udp_port;
}

abbrev pub is_read_only : InstanceMode → Bool
is_read_only m = mode_index m == mode_index InstanceMode.read_only

-- The CASE of the upsert: what was stored, then what was discovered (`excluded`).
unfoldable pub next_mode : InstanceRow → InstanceRow → InstanceMode
next_mode old excluded =
    if not (adapter_index old.adapter == adapter_index excluded.adapter)
      || not (protocol_index old.protocol_version == protocol_index excluded.protocol_version)
    then (if is_read_only excluded.mode then InstanceMode.read_only else InstanceMode.observed)
    else if is_read_only excluded.mode
    then InstanceMode.read_only
    else if is_read_only old.mode
    then InstanceMode.observed
    else old.mode

-- UNIQUE (node_id, container_ref, interface_name)
abbrev pub same_key : InstanceRow → InstanceRow → Bool
same_key new old =
    old.node_id == new.node_id
    && str_eq old.container_ref new.container_ref
    && str_eq old.interface_name new.interface_name

unfoldable pub merge : InstanceRow → InstanceRow → InstanceRow
unfolding next_mode
merge new old = record new { id = old.id; mode = next_mode old new }

-- INSERT … ON CONFLICT (node_id, container_ref, interface_name) DO UPDATE.
unfoldable pub upsert_instance : InstanceRow → Action (Unit {0})
unfolding merge
upsert_instance new db =
    if any (same_key new) db.instances
    then (ok tt, record db { instances = update_where (same_key new) (merge new) db.instances })
    else if any (λ i. i.id == new.id) db.instances || not (any (λ n. n.id == new.node_id) db.nodes)
    then (err (other_error "SQLITE_CONSTRAINT"), db)
    else (ok tt, record db { instances = db.instances ++ new ∷ [] })

unfoldable pub upsert_all : List InstanceRow → Action (Unit {0})
upsert_all [] = pure tt
upsert_all (i ∷ is) = do upsert_instance i; upsert_all is

unfoldable pub list_instances : ℕ → Panel → List InstanceRecord
unfolding to_instance
list_instances node_id db = map to_instance (
    order_by (λ a b. text_le (codes a.display_name) (codes b.display_name))
      (select_where (λ i. i.node_id == node_id) db.instances))

abbrev pub to_row : ℕ → InstanceRecord → InstanceRow
to_row node_id i = record {
  id = i.id;
  node_id = node_id;
  display_name = i.display_name;
  adapter = i.adapter;
  protocol_version = i.protocol_version;
  container_ref = i.container_ref;
  interface_name = i.interface_name;
  config_ref = i.config_ref;
  capabilities = i.capabilities;
  source_fingerprint = i.source_fingerprint;
  mode = i.mode;
  last_discovered_at = i.last_discovered_at;
  udp_port = i.udp_port;
}

unfoldable pub upsert_instances : ℕ → List InstanceRecord → Action (List InstanceRecord)
unfolding upsert_all list_instances
upsert_instances node_id instances = do
  transaction (upsert_all (map (to_row node_id) instances))
  gets (list_instances node_id)

unfoldable pub get_instance : ℕ → Panel → Option InstanceRecord
unfolding to_instance
get_instance id db = elim (find_where (λ i. i.id == id) db.instances) [
  | none ↦ none
  | some row ↦ some (to_instance row)
]

unfoldable pub update_instance_fingerprint : ℕ → String → ℕ → Panel → Panel
update_instance_fingerprint id source_fingerprint now db = record db {
  instances =
      update_where (λ i. i.id == id)
        (λ i. record i { source_fingerprint = source_fingerprint; last_discovered_at = now })
        db.instances;
}

-- id = ? AND capabilities.create = 1 AND mode != 'read-only'
abbrev pub may_manage : ℕ → InstanceRow → Bool
may_manage id i = i.id == id && i.capabilities.create && not (is_read_only i.mode)

unfoldable pub enable_instance_management : ℕ → Panel → Option InstanceRecord × Panel
unfolding get_instance
enable_instance_management id db =
    let db' : Panel = record db {
      instances =
          update_where (may_manage id) (λ i. record i { mode = InstanceMode.managed }) db.instances;
    } in
    (get_instance id db', db')
