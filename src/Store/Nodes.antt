-- ===== src/Store/Nodes.antt =====
-- The nodes in apps/api/src/repository.ts.
pub mod Health
use awg_control.Base.{
  ℕ, ◌+◌, ◌*◌, String, str_eq, Bool, true, ◌&&◌, ◌||◌, Option, none, some, List, [], ◌∷◌, ◌++◌, map,
  take, any, leb, ◌==◌, if◌then◌else◌, on_some, or_else,
}
use awg_control.Base.Tables.{find_where, select_where, update_where, order_by}
use awg_control.Contracts.{NodeStatus}
use awg_control.Contracts.Entities.{NodeRecord}
use awg_control.Exec.{ok, err, other_error}
use awg_control.Panel.{Panel, Action, NodeRow}

-- `toNode`.
unfoldable pub to_node : NodeRow → NodeRecord
to_node row = record {
  id = row.id;
  name = row.name;
  description = row.description;
  host = row.host;
  port = row.port;
  ssh_username = row.ssh_username;
  host_key_fingerprint = row.host_key_fingerprint;
  status = row.status;
  helper_version = row.helper_version;
  last_seen_at = row.last_seen_at;
  last_error_code = row.last_error_code;
  poll_interval_seconds = row.poll_interval_seconds;
  created_at = row.created_at;
  updated_at = row.updated_at;
}

pub record NodeSecretRecord : Type 0 where
  pub node : NodeRecord
  pub transport_private_key_encrypted : String

pub record NewNode : Type 0 where
  pub id : ℕ
  pub name : String
  pub description : Option String
  pub host : String
  pub port : ℕ
  pub ssh_username : String
  pub host_key_fingerprint : String
  pub transport_private_key_encrypted : String
  pub poll_interval_seconds : ℕ

abbrev new_node_row : NewNode → ℕ → NodeRow
new_node_row input now = record {
  id = input.id;
  name = input.name;
  description = input.description;
  host = input.host;
  port = input.port;
  ssh_username = input.ssh_username;
  host_key_fingerprint = input.host_key_fingerprint;
  transport_private_key_encrypted = input.transport_private_key_encrypted;
  status = NodeStatus.pending;
  helper_version = none;
  last_seen_at = none;
  last_error_code = none;
  poll_interval_seconds = input.poll_interval_seconds;
  next_poll_at = some now;
  created_at = now;
  updated_at = now;
}

-- PRIMARY KEY (id), UNIQUE (host, port, ssh_username)
abbrev same_node : NewNode → NodeRow → Bool
same_node input row =
    row.id == input.id
    || str_eq row.host input.host
      && row.port == input.port
      && str_eq row.ssh_username input.ssh_username

unfoldable pub create_node : NewNode → ℕ → Action NodeRecord
unfolding to_node
create_node input now db =
    if any (same_node input) db.nodes
    then (err (other_error "SQLITE_CONSTRAINT"), db)
    else let row = new_node_row input now in
      (ok (to_node row), record db { nodes = db.nodes ++ row ∷ [] })

unfoldable pub get_node : ℕ → Panel → Option NodeRecord
unfolding to_node
get_node id db = elim (find_where (λ n. n.id == id) db.nodes) [
  | none ↦ none
  | some row ↦ some (to_node row)
]

abbrev pub to_node_secret : NodeRow → NodeSecretRecord
to_node_secret row = record {
  node = to_node row;
  transport_private_key_encrypted = row.transport_private_key_encrypted;
}

unfoldable pub get_node_secret : ℕ → Panel → Option NodeSecretRecord
unfolding to_node
get_node_secret id db = elim (find_where (λ n. n.id == id) db.nodes) [
  | none ↦ none
  | some row ↦ some (to_node_secret row)
]

unfoldable pub nodes_due_for_poll : ℕ → ℕ → Panel → List NodeSecretRecord
unfolding to_node
nodes_due_for_poll limit now db = map to_node_secret (
    take limit (
      order_by
        (λ a b. leb (or_else a.next_poll_at a.created_at) (or_else b.next_poll_at b.created_at))
        (select_where (λ n. on_some true (λ t. leb t now) n.next_poll_at) db.nodes)))

-- `listNodes`, by the order of names without case, a parameter.
unfoldable pub list_nodes : (String → String → Bool) → Panel → List NodeRecord
unfolding to_node
list_nodes le db = map to_node (order_by (λ a b. le a.name b.name) db.nodes)

abbrev coalesce : Option String → Option String → Option String
coalesce none old = old
coalesce (some a) old = some a

-- CASE WHEN error_code IS NULL THEN now ELSE last_seen_at END
abbrev seen_at : Option String → ℕ → Option ℕ → Option ℕ
seen_at none now old = some now
seen_at (some e) now old = old

abbrev pub checked : NodeStatus → Option String → Option String → ℕ → ℕ → NodeRow → NodeRow
checked status helper_version error_code now next n = record n {
  status = status;
  helper_version = coalesce helper_version n.helper_version;
  last_seen_at = seen_at error_code now n.last_seen_at;
  last_error_code = error_code;
  next_poll_at = some next;
  updated_at = now;
}

-- `now` is `utcNow()` and `poll_now` is the later `Date.now()`.
unfoldable pub update_node_health :
    ℕ → NodeStatus → Option String → Option String → ℕ → ℕ → Panel → Panel
unfolding get_node
update_node_health id status helper_version error_code now poll_now db = elim (get_node id db) [
  | none ↦ db
  | some node ↦ record db {
    nodes =
        update_where (λ n. n.id == id)
          (checked status helper_version error_code now
            (poll_now + node.poll_interval_seconds * 1000))
          db.nodes;
  }
]
