-- ===== src/Routes/Discovery/Modes.antt =====
-- Discovery and the modes of instances.
use awg_control.Base.{
  ℕ, suc, ◌≡◌, ◌≢◌, ap, true, false, some, String, List, [], ◌∷◌, map, All, ◌==◌, Option,
  if◌then◌else◌, Bool,
}
use awg_control.Base.Tables.{find_where}
use awg_control.Contracts.{InstanceMode, NodeStatus}
use awg_control.Exec.{Failure, modify}
use awg_control.Exec.Laws.{Keeps, Keeps-modify, keeps_rules}
use awg_control.Contracts.Instances.{InstanceRecord}
use awg_control.Panel.{Panel, Readings, InstanceRow}
use awg_control.Store.Audit.{AuditInput, add_audit}
use awg_control.Store.Nodes.{NodeSecretRecord, update_node_health}
use awg_control.Store.Nodes.Health.{update_node_health_nodes}
use awg_control.Store.Instances.{to_row}
use awg_control.Store.Instances.Modes.{
  WereManaged, WereManaged-refl, WereManaged-same, upsert_instances-Keeps,
}
use awg_control.Helper.{HelperClient, HelperRequest, DiscoveredInstance}
use awg_control.Http.{Request}
use awg_control.Routes.Frames.{Keeps-operation_id, Keeps-accept, Keeps-handle_helper_error}
use awg_control.Routes.Discovery.{to_observed, observe, store_discovery, discovery_failed, discover}

observed_mode :
    (b : Bool)
    → (if b then InstanceMode.read_only else InstanceMode.observed) ≢ InstanceMode.managed
observed_mode true = λ e. cc
observed_mode false = λ e. cc

observe_plain :
    (node_id : ℕ) (clock : ℕ → ℕ) (k : ℕ) (ds : List DiscoveredInstance)
    → All
        (λ new. new.mode ≢ InstanceMode.managed)
        (map (to_row node_id) (observe node_id clock k ds))
unfolding observe to_observed
observe_plain node_id clock k [] = tt
observe_plain node_id clock k (d ∷ ds) =
    (observed_mode d.read_only, observe_plain node_id clock (suc k) ds)

module _ (db : Panel) where
  Keeps-health :
      (id : ℕ) (status : NodeStatus) (version code : Option String) (now poll_now : ℕ)
      → Keeps (WereManaged db) (modify (update_node_health id status version code now poll_now))
  Keeps-health id status version code now poll_now = Keeps-modify _ (λ s h.
      WereManaged-same db s (update_node_health id status version code now poll_now s)
        (ap (λ t. t.instances) (update_node_health_nodes id status version code now poll_now s)) h)

  Keeps-audit :
      (input : AuditInput) (id now : ℕ) → Keeps (WereManaged db) (modify (add_audit input id now))
  unfolding add_audit
  Keeps-audit input id now = Keeps-modify _ (λ s h. h)

  module _ (helper : HelperClient) (r : Readings) (request : Request)
      (quiet : (node : NodeSecretRecord) (q : HelperRequest) (s : Panel)
        → s.instances ≡ (helper.discover node q s).1.instances) where
    Keeps-ask :
        (node : NodeSecretRecord) (q : HelperRequest)
        → Keeps (WereManaged db) (helper.discover node q)
    Keeps-ask node q = record {
      at = λ s h. WereManaged-same db s (helper.discover node q s).1 (quiet node q s) h;
    }

    Keeps-store_discovery :
        (id : ℕ) (op version : String) (k : ℕ) (ds : List DiscoveredInstance)
        → Keeps
            (WereManaged db)
            (store_discovery helper r request id op version (observe id r.clock k ds))
    unfolding store_discovery
    Keeps-store_discovery id op version k ds =
        search (keeps_rules, upsert_instances-Keeps, observe_plain, Keeps-health, Keeps-audit) depth
          20

    Keeps-failed :
        (id : ℕ) (e : Failure)
        → Keeps (WereManaged db) (discovery_failed helper r request {A = List InstanceRecord} id e)
    unfolding discovery_failed
    Keeps-failed id e = search (keeps_rules, Keeps-health, Keeps-handle_helper_error) depth 20

    Keeps-discover : (id : ℕ) → Keeps (WereManaged db) (discover helper r request id)
    unfolding discover
    Keeps-discover id =
        search
          (
            keeps_rules, Keeps-operation_id, Keeps-accept, Keeps-ask, Keeps-store_discovery,
            Keeps-failed,
          )
          depth 20

-- Discovery never turns an instance to managed: if the helper's answer leaves the instances alone,
-- then an instance that is managed after the handler, whether it returns or throws and whatever the
-- helper has answered, was managed before it, with the same adapter and the same protocol version.
pub discover_no_promotion :
    (helper : HelperClient) (r : Readings) (request : Request) (node_id : ℕ) (db : Panel) (id : ℕ)
    (i : InstanceRow)
    → ((node : NodeSecretRecord) (q : HelperRequest) (s : Panel)
        → s.instances ≡ (helper.discover node q s).1.instances)
    → find_where (λ x. x.id == id) (discover helper r request node_id db).1.instances ≡ some i
    → i.mode ≡ InstanceMode.managed
    → (old : InstanceRow) × (find_where (λ x. x.id == id) db.instances ≡ some old)
      × (old.mode ≡ InstanceMode.managed)
      × (old.adapter ≡ i.adapter)
      × (old.protocol_version ≡ i.protocol_version)
discover_no_promotion helper r request node_id db id i quiet e m =
    (Keeps-discover db helper r request quiet node_id).at db (WereManaged-refl db) id i e m
