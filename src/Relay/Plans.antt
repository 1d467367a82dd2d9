-- ===== src/Relay/Plans.antt =====
-- What an operation on a relay sends and leaves, by `RelayService.perform` of
-- apps/api/src/relay/service.ts: the branches of the actions, up to the journal.
use awg_control.Base.{
  ℕ, String, str_eq, Bool, true, false, not, ◌&&◌, Option, none, some, List, [], ◌∷◌, ◌++◌, leb,
  ◌==◌, on_some, or_else, any,
}
use awg_control.Base.Tables.{find_where, delete_where, update_where}
use awg_control.Contracts.{protocol_index, adapter_index}
use awg_control.Contracts.Instances.{InstanceRecord, supports_relay}
use awg_control.Exec.{
  app_error, other_error, conflict, not_found, pure, gets, read, guard, ◌>>=◌, ◌>>◌,
}
use awg_control.Panel.{
  Action, Readings, RelayRoute, RelayChange, RelayBody, RelayParameters, install, update, uninstall,
  apply, disable, remove,
}
use awg_control.Store.Instances.{get_instance}
use awg_control.Store.Nodes.{NodeSecretRecord, get_node_secret}
use awg_control.Helper.{
  HelperClient, HelperAction, DiscoveredInstance, DiscoveryResult, accept,
  no_parameters as no_helper_parameters,
}
use awg_control.Relay.Address.{public_ipv4}
use awg_control.Relay.Store.{get_route, instance_route}
use awg_control.Relay.Service.{is_fingerprint, wire_route}

unfoldable pub has_udp_port : DiscoveredInstance → Bool
has_udp_port d = on_some false (λ p. leb 1 p && leb p 65535) d.udp_port

-- The instance as it was discovered is the one that was confirmed, and not read-only.
unfoldable pub confirms : InstanceRecord → DiscoveredInstance → Bool
unfolding is_fingerprint has_udp_port
confirms i d =
    on_some false (λ v. protocol_index v == protocol_index i.protocol_version) d.protocol_version
    && adapter_index d.adapter == adapter_index i.adapter
    && not d.read_only
    && has_udp_port d
    && is_fingerprint d.source_fingerprint

-- What an operation sends to the relay, and the routes that it leaves there.
pub record Plan : Type 0 where
  pub parameters : RelayParameters
  pub routes : List RelayRoute

abbrev pub plan_of : RelayBody → Option RelayRoute → Option ℕ → List RelayRoute → Plan
plan_of body route route_id rs = record {
  parameters = record {
    expected_fingerprint = some body.expected_fingerprint;
    route = (elim route [ none ↦ none | some r ↦ some (wire_route r) ]);
    route_id = route_id;
  };
  routes = rs;
}

module _ (helper : HelperClient) (is_ipv4 : String → Bool) (r : Readings) (id : ℕ) where
  -- The route of an instance, new or kept.
  abbrev applied_route : ℕ → String → ℕ → ℕ → Option RelayRoute → RelayRoute
  applied_route instance_id host listen_port udp_port previous = record {
    id = on_kept (λ p. p.id) (r.uuid 4) previous;
    relay_id = id;
    instance_id = instance_id;
    listen_port = listen_port;
    upstream_ipv4 = host;
    upstream_port = udp_port;
    enabled = true;
    created_at = on_kept (λ p. p.created_at) (r.clock 0) previous;
    updated_at = r.clock 1;
  }
    where
      on_kept : (RelayRoute → ℕ) → ℕ → Option RelayRoute → ℕ
      on_kept f d none = d
      on_kept f d (some p) = f p

  unfoldable pub discover : NodeSecretRecord → Action DiscoveryResult
  discover node = do
    response ← helper.discover node (record {
      request_id = r.uuid 2;
      operation_id = r.uuid_text 3;
      action = HelperAction.discover;
      parameters = no_helper_parameters;
    })
    accept 502 response

  -- The port of the route is free on the relay.
  abbrev port_free : ℕ → ℕ → List RelayRoute → Bool
  port_free instance_id listen_port rs =
      leb 1024 listen_port
      && leb listen_port 65535
      && not (any (λ x. x.listen_port == listen_port && not (x.instance_id == instance_id)) rs)

  -- The branch `action === "apply"`.
  unfoldable pub plan_apply : RelayBody → ℕ → Option ℕ → List RelayRoute → Action Plan
  plan_apply body instance_id port rs = do
    instance ← read (get_instance instance_id) (conflict "ADAPTER_READ_ONLY")
    guard (supports_relay instance) (conflict "ADAPTER_READ_ONLY")
    node ← read (get_node_secret instance.node_id) (other_error "TypeError")
    guard (public_ipv4 is_ipv4 node.node.host) (app_error 400 "VALIDATION_FAILED")
    discovery ← discover node
    let found = find_where (λ d. d.id == instance.id) discovery.instances
    guard (on_some true has_udp_port found) (conflict "UDP_MAPPING_AMBIGUOUS")
    d ← read (λ _. found) (conflict "HELPER_INCOMPATIBLE")
    guard (confirms instance d) (conflict "HELPER_INCOMPATIBLE")
    guard (str_eq d.source_fingerprint instance.source_fingerprint)
        (conflict "SOURCE_FINGERPRINT_CONFLICT")
    previous ← gets (instance_route instance_id)
    guard (on_some true (λ p. p.relay_id == id) previous) (conflict "RELAY_ROUTE_CONFLICT")
    let listen_port = or_else port (or_else d.udp_port 0)
    guard (port_free instance_id listen_port rs) (conflict "RELAY_ROUTE_CONFLICT")
    let route = applied_route instance_id node.node.host listen_port (or_else d.udp_port 0) previous
    pure (
        plan_of body (some route) none
          (delete_where (λ x. x.instance_id == instance_id) rs ++ route ∷ []))

  -- The routes that an action leaves, and what is sent to the relay.
  unfoldable pub plan : RelayBody → RelayChange → List RelayRoute → Action Plan
  plan body install rs = pure (plan_of body none none rs)
  plan body update rs = pure (plan_of body none none rs)
  plan body uninstall rs = pure (plan_of body none none [])
  plan body (apply instance_id port) rs = plan_apply body instance_id port rs
  plan body (disable route_id) rs = do
    route ← read (get_route route_id) not_found
    guard (route.relay_id == id) not_found
    pure (
        plan_of body none (some route.id) (
          update_where (λ x. x.id == route.id)
            (λ x. record x { enabled = false; updated_at = r.clock 1 }) rs))
  plan body (remove route_id) rs = do
    route ← read (get_route route_id) not_found
    guard (route.relay_id == id) not_found
    pure (plan_of body none (some route.id) (delete_where (λ x. x.id == route.id) rs))
