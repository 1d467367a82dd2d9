-- ===== src/Store/Nodes/Health.antt =====
-- What recording the health of a node changes.
use awg_control.Base.{
  ℕ, ◌+◌, ◌*◌, ◌≡◌, refl, String, Option, some, Option-cases, inl, inr, arith, ◌==◌,
}
use awg_control.Base.Tables.{find_where}
use awg_control.Base.Tables.Laws.{find_where_sound, find_where-update_where}
use awg_control.Contracts.{NodeStatus}
use awg_control.Panel.{Panel, NodeRow}
use awg_control.Store.Nodes.{checked, to_node, get_node, update_node_health}

module _ (id : ℕ) (status : NodeStatus) (version code : Option String) (now poll_now : ℕ) where
  -- Only the nodes.
  pub update_node_health_nodes :
      (db : Panel)
      → record db { nodes = (update_node_health id status version code now poll_now db).nodes }
        ≡ update_node_health id status version code now poll_now db
  unfolding update_node_health
  update_node_health_nodes db = elim (Option-cases (get_node id db)) [
    | inl e ↦ rw (e, update_node_health) refl
    | inr (node, e) ↦ rw (e, update_node_health) refl
  ]

  -- The node's row, with its next poll after its interval.
  pub find-update_node_health :
      (db : Panel) (row : NodeRow)
      → find_where (λ n. n.id == id) db.nodes ≡ some row
      → find_where
          (λ n. n.id == id)
          (update_node_health id status version code now poll_now db).nodes
        ≡ some (checked status version code now (poll_now + row.poll_interval_seconds * 1000) row)
  unfolding update_node_health get_node to_node
  find-update_node_health db row e =
      rw (e, update_node_health, get_node)
        (ground (
          arith,
          e,
          find_where_sound (λ n. n.id == id) db.nodes row e,
          find_where-update_where (λ n. n.id == id) (λ n. n.id == id)
              (checked status version code now (poll_now + row.poll_interval_seconds * 1000))
              db.nodes (λ x. refl),
        ))
