-- ===== src/Worker/Polls.antt =====
-- A poll of a node keeps the accounts of traffic balanced.
use mathlib.Core.Option
use awg_control.Base.{
  ℕ, suc, ◌≡◌, refl, ap, sym, ◌∙◌, String, Option, none, some, List, [], ◌∷◌, Option-cases,
  Bool-cases, inl, inr, arith, sum_by, if◌then◌else◌, any, not, ◌&&◌,
}
use awg_control.Base.Tables.{find_where, update_where}
use awg_control.Base.Tables.Laws.{find_where-update_where}
use awg_control.Contracts.{NodeStatus, ConnectionStatus}
use awg_control.Contracts.Entities.{Connection}
use awg_control.Exec.{modify}
use awg_control.Exec.Laws.{Keeps, Keeps-bind, Keeps-modify, keeps_rules}
use awg_control.Panel.{Panel, Readings}
use awg_control.Store.Audit.{AuditInput, add_audit}
use awg_control.Store.Nodes.{NodeSecretRecord, update_node_health}
use awg_control.Store.Nodes.Health.{update_node_health_nodes}
use awg_control.Store.Connections.{
  has_id, collides, set_status, update_connection, update_connection_status,
}
use awg_control.Store.Traffic.Conservation.{IsBalanced, update_traffic-IsBalanced}
use awg_control.Store.Policies.{Calendar}
use awg_control.Helper.{HelperClient, PeerStats}
use awg_control.Worker.Frames.{HelperKeeps, WritesKeep, Keeps-poll_work}
use awg_control.Worker.{count_for, count_peer, count_peers, poll_reachable, poll_node}

-- Only the connections and the buckets matter.
IsBalanced-same :
    (s t : Panel)
    → s.connections ≡ t.connections
    → s.rollups ≡ t.rollups
    → IsBalanced s
    → IsBalanced t
IsBalanced-same s t c r h = record {
  rx =
      λ kind id row e. ap (sum_by _) (sym r) ∙ h.rx kind id row (ap (find_where (has_id id)) c ∙ e);
  tx =
      λ kind id row e. ap (sum_by _) (sym r) ∙ h.tx kind id row (ap (find_where (has_id id)) c ∙ e);
}

-- A status is not a total.
set_status-IsBalanced :
    (id : ℕ) (status : ConnectionStatus) (now : ℕ) (db : Panel)
    → IsBalanced db
    → IsBalanced (record db {
      connections = update_where (has_id id) (set_status status now) db.connections;
    })
set_status-IsBalanced id status now db h = record {
  rx = λ kind k c f. elim (Option-cases (find_where (has_id k) db.connections)) [
    | inl n ↦ absurd (ground (arith, found k))
    | inr (x, e) ↦ ground (arith, found k, h.rx kind k x e)
  ];
  tx = λ kind k c f. elim (Option-cases (find_where (has_id k) db.connections)) [
    | inl n ↦ absurd (ground (arith, found k))
    | inr (x, e) ↦ ground (arith, found k, h.tx kind k x e)
  ];
}
  where
    found :
        (k : ℕ)
        → find_where (has_id k) (update_where (has_id id) (set_status status now) db.connections)
          ≡ Option.map
              (λ x. if has_id id x then set_status status now x else x)
              (find_where (has_id k) db.connections)
    found k =
        find_where-update_where (has_id k) (has_id id) (set_status status now) db.connections
          (λ x. refl)

Keeps-update_status :
    (id : ℕ) (status : ConnectionStatus) (now : ℕ)
    → Keeps IsBalanced (update_connection_status id status now)
unfolding update_connection_status update_connection
Keeps-update_status id status now = record {
  at = λ db h. elim (Option-cases (find_where (has_id id) db.connections)) [
    | inl e ↦ rw (e, update_connection) h
    | inr (row, e) ↦
        elim (Bool-cases
          (any (λ c. not (has_id id c) && collides (set_status status now row) c) db.connections)) [
            | inl b ↦ rw (e, b, update_connection) h
            | inr b ↦ rw (e, b, update_connection) (set_status-IsBalanced id status now db h)
          ]
  ];
}

Keeps-audit : (input : AuditInput) (id now : ℕ) → Keeps IsBalanced (modify (add_audit input id now))
Keeps-audit input id now = Keeps-modify _ (λ s h.
    IsBalanced-same s (add_audit input id now s) (unfold add_audit in refl)
      (unfold add_audit in refl) h)

Keeps-health :
    (id : ℕ) (status : NodeStatus) (version code : Option String) (now poll_now : ℕ)
    → Keeps IsBalanced (modify (update_node_health id status version code now poll_now))
Keeps-health id status version code now poll_now = Keeps-modify _ λ s h.
    let same = update_node_health_nodes id status version code now poll_now s in
    IsBalanced-same s (update_node_health id status version code now poll_now s)
      (ap (λ t. t.connections) same) (ap (λ t. t.rollups) same) h

count_for-IsBalanced :
    (peer : PeerStats) (now : ℕ) (o : Option Connection) (db : Panel)
    → IsBalanced db
    → IsBalanced (count_for peer now o db)
unfolding count_for
count_for-IsBalanced peer now none db h = h
count_for-IsBalanced peer now (some c) db h = update_traffic-IsBalanced _ now db h

count_peers-IsBalanced :
    (connections : List Connection) (peers : List PeerStats) (clock : ℕ → ℕ) (k : ℕ) (db : Panel)
    → IsBalanced db
    → IsBalanced (count_peers connections peers clock k db)
unfolding count_peers count_peer
count_peers-IsBalanced connections [] clock k db h = h
count_peers-IsBalanced connections (peer ∷ peers) clock k db h =
    count_peers-IsBalanced connections peers clock (suc k) _
      (count_for-IsBalanced peer (clock k) _ db h)

Keeps-count_peers :
    (connections : List Connection) (peers : List PeerStats) (clock : ℕ → ℕ) (k : ℕ)
    → Keeps IsBalanced (modify (count_peers connections peers clock k))
Keeps-count_peers connections peers clock k =
    Keeps-modify _ (count_peers-IsBalanced connections peers clock k)

IsBalanced-writes : WritesKeep IsBalanced
IsBalanced-writes = record {
  counts = Keeps-count_peers;
  enforces = Keeps-update_status;
  audits = Keeps-audit;
}

module _ (helper : HelperClient) (quiet : HelperKeeps IsBalanced helper) (cal : Calendar)
    (node : NodeSecretRecord) where
  Keeps-poll_reachable : (r : ℕ → Readings) → Keeps IsBalanced (poll_reachable helper cal node r)
  unfolding poll_reachable
  Keeps-poll_reachable r =
      Keeps-bind _ _ (Keeps-poll_work IsBalanced-writes helper quiet cal node r)
        λ health. Keeps-health _ _ _ _ _ _

  Keeps-poll_node : (r : ℕ → Readings) → Keeps IsBalanced (poll_node helper cal node r)
  unfolding poll_node
  Keeps-poll_node r = search (keeps_rules, Keeps-poll_reachable, Keeps-health) depth 20

-- A poll of a node, whether the helper answers or not, keeps the accounts balanced: if the buckets
-- of every connection add up to its totals before it, and what runs while the helper is awaited
-- keeps them so, then they do so after it.
pub poll_node_balances :
    (helper : HelperClient) (cal : Calendar) (node : NodeSecretRecord) (r : ℕ → Readings)
    (db : Panel)
    → HelperKeeps IsBalanced helper
    → IsBalanced db
    → IsBalanced (poll_node helper cal node r db).1
poll_node_balances helper cal node r db quiet h = (Keeps-poll_node helper quiet cal node r).at db h
