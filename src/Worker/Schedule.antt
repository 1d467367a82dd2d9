-- ===== src/Worker/Schedule.antt =====
-- A poll ends and schedules the next one.
use awg_control.Base.{
  ℕ, suc, ◌+◌, ◌*◌, ◌≡◌, refl, ap, ◌∙◌, ◌⊎◌, String, Option, none, some, List, [], ◌∷◌, arith, ◌==◌,
}
use awg_control.Base.Tables.{find_where}
use awg_control.Contracts.{NodeStatus}
use awg_control.Contracts.Entities.{Connection}
use awg_control.Exec.{ok}
use awg_control.Exec.Laws.{Keeps-modify}
use awg_control.Exec.Unwinds.{
  Unwinds, Unwinds-Keeps, Unwinds-commit, NeverThrows, NeverThrows-modify, NeverThrows-try_catch,
  NeverThrows-returns, Ensures, Ensures-bind, Ensures-modify, Ensures-try_catch,
}
use awg_control.Panel.{Panel, Readings, ConnectionRow, NodeRow}
use awg_control.Store.Audit.{add_audit}
use awg_control.Store.Nodes.{NodeSecretRecord, checked, update_node_health}
use awg_control.Store.Nodes.Health.{find-update_node_health}
use awg_control.Store.Connections.{set_status, update_connection, update_connection_status}
use awg_control.Store.Traffic.{update_traffic, record_traffic}
use awg_control.Store.Policies.{Calendar}
use awg_control.Helper.{HelperClient, PeerStats}
use awg_control.Worker.{count_for, count_peer, count_peers, poll_reachable, poll_node}
use awg_control.Worker.Frames.{HelperKeeps, WritesKeep, Keeps-poll_work}

nodes-update_connection :
    (id : ℕ) (f : ConnectionRow → ConnectionRow) (s : Panel)
    → (update_connection id f s).1.nodes ≡ s.nodes
unfolding update_connection
nodes-update_connection id f s = ground arith

nodes-count_for :
    (peer : PeerStats) (now : ℕ) (o : Option Connection) (s : Panel)
    → (count_for peer now o s).nodes ≡ s.nodes
unfolding count_for update_traffic record_traffic
nodes-count_for peer now none s = refl
nodes-count_for peer now (some c) s = ground arith

nodes-count_peers :
    (connections : List Connection) (peers : List PeerStats) (clock : ℕ → ℕ) (k : ℕ) (s : Panel)
    → (count_peers connections peers clock k s).nodes ≡ s.nodes
unfolding count_peers count_peer
nodes-count_peers connections [] clock k s = refl
nodes-count_peers connections (peer ∷ peers) clock k s =
    nodes-count_peers connections peers clock (suc k) _ ∙ nodes-count_for peer (clock k) _ s

-- A node that is registered.
abbrev pub IsKnown : ℕ → Panel → Type 0
IsKnown id s = (row : NodeRow) × (find_where (λ n. n.id == id) s.nodes ≡ some row)

IsKnown-same : (id : ℕ) (s t : Panel) → t.nodes ≡ s.nodes → IsKnown id s → IsKnown id t
IsKnown-same id s t same (row, e) = (row, ap (find_where (λ n. n.id == id)) same ∙ e)

IsKnown-writes : (node_id : ℕ) → WritesKeep (IsKnown node_id)
IsKnown-writes node_id = record {
  counts = λ connections peers clock k. Keeps-modify _ λ s h.
      IsKnown-same node_id s (count_peers connections peers clock k s)
        (nodes-count_peers connections peers clock k s) h;
  enforces = λ id status now.
      unfold update_connection_status in
      record {
        at = λ s h.
            IsKnown-same node_id s (update_connection id (set_status status now) s).1
              (nodes-update_connection id (set_status status now) s) h;
      };
  audits = λ input id now. Keeps-modify _ (λ s h. unfold add_audit in h);
}

-- The node's row, with its next poll due when the interval of that row is over.
pub record IsScheduled (id : ℕ) (status : NodeStatus) (now : ℕ) (s : Panel) : Type 0 where
  pub row : NodeRow
  pub found : find_where (λ n. n.id == id) s.nodes ≡ some row
  pub has_status : row.status ≡ status
  pub next_poll : row.next_poll_at ≡ some (now + row.poll_interval_seconds * 1000)

module _ (helper : HelperClient) (cal : Calendar) (node : NodeSecretRecord) (r : ℕ → Readings)
    (quiet : HelperKeeps (IsKnown node.node.id) helper) where
  scheduled :
      (status : NodeStatus) (version code : Option String) (now poll_now : ℕ) (s : Panel)
      → IsKnown node.node.id s
      → IsScheduled node.node.id status poll_now
          (update_node_health node.node.id status version code now poll_now s)
  scheduled status version code now poll_now s (row, known) = record {
    row = checked status version code now (poll_now + row.poll_interval_seconds * 1000) row;
    found = find-update_node_health node.node.id status version code now poll_now s row known;
    has_status = refl;
    next_poll = refl;
  }

  reachable_Ensures :
      Ensures
        (IsKnown node.node.id)
        (IsScheduled node.node.id NodeStatus.healthy ((r 0).clock 2))
        (poll_reachable helper cal node r)
  unfolding poll_reachable
  reachable_Ensures =
      Ensures-bind _ _ (Keeps-poll_work (IsKnown-writes node.node.id) helper quiet cal node r)
        λ health. Ensures-modify _ (λ s h. scheduled _ _ _ _ _ s h)

  reachable_Unwinds : Unwinds (IsKnown node.node.id) (poll_reachable helper cal node r)
  unfolding poll_reachable
  reachable_Unwinds =
      Unwinds-commit _ _
        (Unwinds-Keeps _ (Keeps-poll_work (IsKnown-writes node.node.id) helper quiet cal node r))
        (λ health. NeverThrows-modify _)

  poll_node-Ensures :
      Ensures
        (IsKnown node.node.id)
        (λ s.
          IsScheduled node.node.id NodeStatus.healthy ((r 0).clock 2) s
          ⊎ IsScheduled node.node.id NodeStatus.offline ((r 0).clock 4) s)
        (poll_node helper cal node r)
  unfolding poll_node
  poll_node-Ensures =
      Ensures-try_catch _ _ reachable_Ensures reachable_Unwinds
        λ e. Ensures-modify _ (λ s h. scheduled _ _ _ _ _ s h)

pub poll_node-NeverThrows :
    (helper : HelperClient) (cal : Calendar) (node : NodeSecretRecord) (r : ℕ → Readings)
    → NeverThrows (poll_node helper cal node r)
unfolding poll_node
poll_node-NeverThrows helper cal node r = NeverThrows-try_catch _ _ (λ e. NeverThrows-modify _)

-- A poll always ends well and schedules the next one: if the node is registered, and what runs while
-- the helper is awaited leaves it registered, whatever else it changes, then the poll returns and
-- leaves the node healthy or offline, with its next poll due when its interval is over.
pub poll_node_schedules :
    (helper : HelperClient) (cal : Calendar) (node : NodeSecretRecord) (r : ℕ → Readings)
    (db : Panel)
    → IsKnown node.node.id db
    → HelperKeeps (IsKnown node.node.id) helper
    → ((poll_node helper cal node r db).0 ≡ ok tt)
      × (IsScheduled node.node.id NodeStatus.healthy
            ((r 0).clock 2)
            (poll_node helper cal node r db).1
          ⊎ IsScheduled node.node.id NodeStatus.offline
              ((r 0).clock 4)
              (poll_node helper cal node r db).1)
poll_node_schedules helper cal node r db known quiet =
    let (tt, e) =
      NeverThrows-returns (poll_node helper cal node r) db
        (poll_node-NeverThrows helper cal node r) in
    (e, (poll_node-Ensures helper cal node r quiet).at db known tt e)
