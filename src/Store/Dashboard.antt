-- ===== src/Store/Dashboard.antt =====
-- `dashboard` of apps/api/src/repository.ts: counts and sums over the whole panel.
use awg_control.Base.{ℕ, ◌+◌, List, [], ◌∷◌, ◌==◌, length, sum_by, map, if◌then◌else◌}
use awg_control.Contracts.{NodeStatus, ConnectionStatus, index}
use awg_control.Panel.{Panel}

abbrev pub node_status_index : NodeStatus → ℕ
node_status_index NodeStatus.pending = 0
node_status_index NodeStatus.discovered = 1
node_status_index NodeStatus.healthy = 2
node_status_index NodeStatus.degraded = 3
node_status_index NodeStatus.offline = 4

-- The rows of a group are counted at each value that occurs: SELECT …, COUNT(*) … GROUP BY ….
unfoldable pub count_of : ℕ → List ℕ → ℕ
count_of value [] = 0
count_of value (v ∷ vs) = (if v == value then 1 else 0) + count_of value vs

pub record Dashboard : Type 0 where
  pub nodes : NodeStatus → ℕ
  pub users : ℕ
  pub connections : ConnectionStatus → ℕ
  pub rx_bytes_total : ℕ
  pub tx_bytes_total : ℕ

-- A group that has no rows is missing in the source, and zero here.
unfoldable pub dashboard : Panel → Dashboard
unfolding count_of
dashboard db = record {
  nodes = λ status.
      count_of (node_status_index status) (map (λ n. node_status_index n.status) db.nodes);
  users = length db.vpn_users;
  connections = λ status. count_of (index status) (map (λ c. index c.status) db.connections);
  rx_bytes_total = sum_by (λ c. c.rx_bytes_total) db.connections;
  tx_bytes_total = sum_by (λ c. c.tx_bytes_total) db.connections;
}
