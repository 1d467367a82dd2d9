-- ===== src/Helper/Negotiation.antt =====
-- `SshHelperClient.call` of apps/api/src/helper/client.ts: the version of the protocol is asked for
-- with a health request, then the request itself is sent once.
use awg_control.Base.{
  ℕ, String, str_eq, Bool, true, false, not, ◌&&◌, ◌||◌, Option, none, some, List, [], ◌∷◌, any,
  map, ◌==◌, on_some,
}
use awg_control.Contracts.{Adapter, adapter_index}
use awg_control.Contracts.Instances.{InstanceRecord}
use awg_control.Exec.{transport_error, pure, throw, gets, guard, ◌>>=◌, ◌>>◌}
use awg_control.Panel.{Panel, Action}
use awg_control.Store.Instances.{list_instances, get_instance}
use awg_control.Helper.{
  HelperAction, discover, health, Parameters, no_parameters, of_instance, of_stats, of_create,
  of_mutation, of_policies, HelperRequest, Response, accepted, refused,
}

abbrev is_wireguard : InstanceRecord → Bool
is_wireguard i = adapter_index i.adapter == adapter_index Adapter.wireguard

abbrev is_discover : HelperAction → Bool
is_discover discover = true
is_discover _ = false

-- `[parameters.instanceId, ...policies.map((p) => p.instanceId)]`
unfoldable pub instance_ids : Parameters → List ℕ
instance_ids no_parameters = []
instance_ids (of_instance id) = id ∷ []
instance_ids (of_stats id fingerprint) = id ∷ []
instance_ids (of_create p) = p.instance_id ∷ []
instance_ids (of_mutation p) = p.instance_id ∷ []
instance_ids (of_policies policies) = map (λ p. p.instance_id) policies

-- The request is about a WireGuard instance.
unfoldable pub needs_new_protocol : ℕ → HelperRequest → Panel → Bool
unfolding instance_ids
needs_new_protocol node_id request db =
    is_discover request.action && any is_wireguard (list_instances node_id db)
    || any (λ id. on_some false is_wireguard (get_instance id db)) (instance_ids request.parameters)

-- The health request, in the version that every helper knows.
abbrev pub health_request : HelperRequest → HelperRequest
health_request request = record request { action = health; parameters = no_parameters }

-- `send_health` and `send` are `callRpc` with a version of the protocol; the health result is the
-- version that the helper names, none where it names none.
module _ {A : Type 0} (send_health : String → HelperRequest → Action (Response (Option String)))
    (send : String → HelperRequest → Action (Response A)) (node_id : ℕ)
    (request : HelperRequest) where
  unfoldable pub send_as : String → Action (Response A)
  send_as version = do
    guard (str_eq version "1.0" || str_eq version "1.1") (transport_error "HELPER_INCOMPATIBLE")
    needed ← gets (needs_new_protocol node_id request)
    guard (not (str_eq version "1.0" && needed)) (transport_error "HELPER_INCOMPATIBLE")
    send version request

  unfoldable pub after_health : Response (Option String) → Action (Response A)
  after_health (refused code) = pure (refused code)
  after_health (accepted none) = throw (transport_error "INVALID_HELPER_RESPONSE")
  after_health (accepted (some version)) = send_as version

  unfoldable pub call : Action (Response A)
  call = do answer ← send_health "1.0" (health_request request); after_health answer
