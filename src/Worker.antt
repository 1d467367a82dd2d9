-- ===== src/Worker.antt =====
-- `PollingWorker` of apps/api/src/worker.ts: every tick polls the nodes that are due and checks the
-- relays that are due, then applies retention. The polls of a tick run at once in the program; here
-- they stand one after the other, and a helper's call may leave the panel changed by the others.
pub mod Answers
pub mod Frames
pub mod Polls
pub mod Schedule
pub mod Ticks
use awg_control.Base.{
  ℕ, suc, ◌+◌, ◌-◌, ◌*◌, ◌/◌, String, str_eq, Bool, true, false, not, ◌&&◌, ◌||◌, Option, none,
  some, List, [], ◌∷◌, map, take, all, length, leb, ltb, codes, ◌==◌, if◌then◌else◌, on_some,
}
use awg_control.Base.Tables.{select_where, find_last}
use awg_control.Contracts.{NodeStatus, ConnectionStatus, ◌is◌}
use awg_control.Contracts.Entities.{Connection}
use awg_control.Contracts.Instances.{InstanceRecord}
use awg_control.Crypto.{Hashes}
use awg_control.Exec.{
  Failure, app_error, transport_error, other_error, Exec, pure, throw, gets, guard, modify,
  try_catch, ◌>>=◌, ◌>>◌,
}
use awg_control.Panel.{Panel, Action, Readings, AuditResult, Detail}
use awg_control.Store.Audit.{AuditInput, add_audit}
use awg_control.Store.Nodes.{NodeSecretRecord, nodes_due_for_poll, update_node_health}
use awg_control.Store.Instances.{list_instances}
use awg_control.Store.Connections.{
  get_connection, list_connections_for_instance, update_connection_status,
}
use awg_control.Store.Traffic.{update_traffic, prune_traffic}
use awg_control.Store.Policies.{Calendar, policy_projection_for_node}
use awg_control.Store.Sessions.{prune_sessions}
use awg_control.Helper.{
  HelperClient, HelperAction, HelperRequest, Parameters, no_parameters, of_stats, of_policies,
  Response, accepted, refused, PeerStats, HealthResult, PolicyStatus,
}
use awg_control.Relay.Store.{RelayServer, list_relays}
use awg_control.Relay.Service.{RelayClient, check_status}
unfoldable pub use awg_control.Worker.Answers.{
  accept_plain, worker_request, is_error_code, offline_code, count_for, count_peer, count_peers,
  is_enforced_status, enforcement, enforce_found, enforce_one, enforce,
}

-- What becomes of the other polls when one has failed: they go on, and the first failure counts.
unfoldable pub fail_after : Action (Unit {0}) → Failure → Action (Unit {0})
fail_after others error = do try_catch others λ later. pure tt; throw error

module _ (helper : HelperClient) (cal : Calendar) (node : NodeSecretRecord) where
  unfoldable pub poll_instance : Readings → InstanceRecord → Action (Unit {0})
  poll_instance r instance = do
    response ←
        helper.stats node
          (worker_request r HelperAction.stats (of_stats instance.id instance.source_fingerprint))
    peers ← accept_plain response
    connections ← gets (list_connections_for_instance instance.id)
    modify (count_peers connections peers r.clock 0)

  -- `Promise.all`: every instance is polled, and a failure is thrown.
  unfoldable pub poll_instances : (ℕ → Readings) → ℕ → List InstanceRecord → Action (Unit {0})
  poll_instances r k [] = pure tt
  poll_instances r k (instance ∷ instances) =
      let others = poll_instances r (suc k) instances in
      do try_catch (poll_instance (r k) instance) (fail_after others); others

  -- `r 0` are the readings of the poll itself, `r (1 + k)` those of its instance number k.
  module _ (r : ℕ → Readings) where
    -- The `try` of `pollNode`, up to its last statement.
    unfoldable pub poll_work : Action HealthResult
    poll_work = do
      response ← helper.health node (worker_request (r 0) HelperAction.health no_parameters)
      health ← accept_plain response
      guard (str_eq health.protocol_version "1.0" || str_eq health.protocol_version "1.1")
          (other_error "HELPER_INCOMPATIBLE")
      instances ← gets (list_instances node.node.id)
      poll_instances r 1 instances
      policies ← gets (policy_projection_for_node cal ((r 0).clock 0) node.node.id)
      answer ←
          helper.apply_policy node
            (worker_request (r 0) HelperAction.apply_policy (of_policies policies))
      statuses ← accept_plain answer
      enforce node.node.id (r 0) 5 statuses
      pure health

    unfoldable pub poll_reachable : Action (Unit {0})
    poll_reachable = do
      health ← poll_work
      modify (
          update_node_health node.node.id NodeStatus.healthy (some health.helper_version) none
            ((r 0).clock 1) ((r 0).clock 2))

    unfoldable pub poll_node : Action (Unit {0})
    poll_node = try_catch poll_reachable λ error. modify (
        update_node_health node.node.id NodeStatus.offline none (some (offline_code error))
          ((r 0).clock 3) ((r 0).clock 4))

unfoldable pub poll_nodes :
    HelperClient → Calendar → (ℕ → ℕ → Readings) → ℕ → List NodeSecretRecord → Action (Unit {0})
poll_nodes helper cal r k [] = pure tt
poll_nodes helper cal r k (node ∷ nodes) = do
  poll_node helper cal node (r k)
  poll_nodes helper cal r (suc k) nodes

-- `!r.lastCheckedAt || Date.now() - Date.parse(r.lastCheckedAt) >= 60_000`
unfoldable pub is_due : ℕ → RelayServer → Bool
is_due now relay = on_some true (λ t. leb (t + 60_000) now) relay.last_checked_at

module _ (client : RelayClient) (is_ipv4 : String → Bool) (hashes : Hashes) where
  unfoldable pub check_quietly : Readings → ℕ → Action (Unit {0})
  check_quietly r id =
      try_catch (do check_status client is_ipv4 hashes r id; pure tt) λ error. pure tt

  unfoldable pub check_relays : (ℕ → Readings) → ℕ → List RelayServer → Action (Unit {0})
  check_relays r k [] = pure tt
  check_relays r k (relay ∷ relays) = do check_quietly (r k) relay.id; check_relays r (suc k) relays

-- The panel's state with that of the worker; `last_retention_day` counts days since the epoch, and
-- `worker_heartbeat_at` is the field of `Repository`.
pub record Worker : Type 0 where
  pub panel : Panel
  pub running : Bool
  pub last_retention_day : Option ℕ
  pub worker_heartbeat_at : Option ℕ

unfoldable pub in_panel : {A : Type 0} → Action A → Exec Worker A
in_panel m w = ((m w.panel).0, record w { panel = (m w.panel).1 })

unfoldable pub mark_worker_heartbeat : ℕ → Worker → Worker
mark_worker_heartbeat now w = record w { worker_heartbeat_at = some now }

-- `ready`, of a database that answers.
unfoldable pub ready : Bool → ℕ → Worker → Bool
ready polling_enabled now w =
    not polling_enabled || on_some false (λ t. ltb now (t + 120_000)) w.worker_heartbeat_at

unfoldable pub apply_retention : Readings → Worker → Worker
apply_retention r w =
    let today = r.clock 0 / 86_400_000 in
    if on_some false (λ day. today == day) w.last_retention_day then w else record w {
      last_retention_day = some today;
      panel = prune_traffic (r.clock 1 - 90 * 86_400_000) (r.clock 2 - 730 * 86_400_000) w.panel;
    }

-- `le` is the order of the names of relays.
module _ (helper : HelperClient) (cal : Calendar) (client : RelayClient) (is_ipv4 : String → Bool)
    (hashes : Hashes) (le : String → String → Bool) (r : Readings) (rs : ℕ → ℕ → Readings) where
  -- The `try` of `tick`.
  unfoldable pub tick_body : Exec Worker (Unit {0})
  tick_body = do
    nodes ← gets λ w. nodes_due_for_poll 5 (r.clock 3) w.panel
    in_panel (poll_nodes helper cal rs 0 nodes)
    relays ← gets λ w. list_relays le w.panel
    in_panel (
        check_relays client is_ipv4 hashes (rs 5) 0
          (take 5 (select_where (is_due (r.clock 4)) relays)))
    modify (apply_retention r)
    in_panel (modify (prune_sessions (r.clock 5)))

  unfoldable pub finish_tick : Worker → Worker
  unfolding mark_worker_heartbeat
  finish_tick w = record (mark_worker_heartbeat (r.clock 6) w) { running = false }

  unfoldable pub tick : Worker → Worker
  unfolding finish_tick
  tick w = if w.running then w else finish_tick (tick_body (record w { running = true })).1
