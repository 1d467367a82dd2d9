-- ===== src/Helper.antt =====
-- The RPC of a node's helper, as apps/api/src/helper/client.ts offers it to the panel: an interface,
-- since the SSH transport and the helper are other programs. A call is an action: it returns or
-- throws what it likes, and leaves the state as the other requests of the panel, which run while it
-- is awaited, have made it.
pub mod Transport
pub mod Negotiation
use awg_control.Base.{ℕ, String, Bool, Option, List}
use awg_control.Contracts.{Adapter, ProtocolVersion, Capabilities, ConnectionStatus}
use awg_control.Exec.{ok, err, Failure, app_error, transport_error, other_error, throw}
use awg_control.Panel.{Action}
use awg_control.Store.Nodes.{NodeSecretRecord}
use awg_control.Store.Policies.{PolicyProjection}

pub data HelperAction : Type 0 where
  discover snapshot list stats create rename enable disable revoke apply_policy health :
      HelperAction

pub record CreateParameters : Type 0 where
  pub instance_id : ℕ
  pub expected_fingerprint : String
  pub connection_id : ℕ
  pub name : String
  pub endpoint_host : String
  pub expires_at : Option ℕ

pub record MutationParameters : Type 0 where
  pub instance_id : ℕ
  pub expected_fingerprint : String
  pub connection_id : ℕ
  pub public_key : String
  pub override : Bool

pub data Parameters : Type 0 where
  no_parameters : Parameters
  of_instance : ℕ → Parameters
  of_stats : ℕ → String → Parameters
  of_create : CreateParameters → Parameters
  of_mutation : MutationParameters → Parameters
  of_policies : List PolicyProjection → Parameters

pub record HelperRequest : Type 0 where
  pub request_id : ℕ
  pub operation_id : String
  pub action : HelperAction
  pub parameters : Parameters

pub data Response {ℓ} (A : Type ℓ) : Type ℓ where
  accepted : A → Response A
  refused : String → Response A

pub record CreateResult : Type 0 where
  pub public_key : String
  pub address_cidr : String
  pub client_config : String
  pub source_fingerprint : String

pub record MutationResult : Type 0 where
  pub connection_id : ℕ
  pub source_fingerprint : String

pub record Peer : Type 0 where
  pub public_key : String
  pub address_cidr : String
  pub name : String

pub record PeerListResult : Type 0 where
  pub peers : List Peer
  pub source_fingerprint : String

pub record PeerStats : Type 0 where
  pub public_key : String
  pub rx_bytes : ℕ
  pub tx_bytes : ℕ
  pub last_handshake_at : Option ℕ

pub record DiscoveredInstance : Type 0 where
  pub id : ℕ
  pub display_name : String
  pub adapter : Adapter
  pub protocol_version : Option ProtocolVersion
  pub udp_port : Option ℕ
  pub container_ref : String
  pub interface_name : String
  pub config_ref : String
  pub capabilities : Capabilities
  pub source_fingerprint : String
  pub read_only : Bool

pub record DiscoveryResult : Type 0 where
  pub helper_version : String
  pub instances : List DiscoveredInstance

pub record HealthResult : Type 0 where
  pub helper_version : String
  pub protocol_version : String

pub record PolicyStatus : Type 0 where
  pub connection_id : ℕ
  pub status : ConnectionStatus

pub record HelperClient : Type 0 where
  pub create : NodeSecretRecord → HelperRequest → Action (Response CreateResult)
  pub mutate : NodeSecretRecord → HelperRequest → Action (Response MutationResult)
  pub list : NodeSecretRecord → HelperRequest → Action (Response PeerListResult)
  pub discover : NodeSecretRecord → HelperRequest → Action (Response DiscoveryResult)
  pub health : NodeSecretRecord → HelperRequest → Action (Response HealthResult)
  pub stats : NodeSecretRecord → HelperRequest → Action (Response (List PeerStats))
  pub apply_policy : NodeSecretRecord → HelperRequest → Action (Response (List PolicyStatus))

-- `if (!response.ok) throw new AppError(status, response.error.code, …)`.
abbrev pub accept : {A : Type 0} → ℕ → Response A → Action A
accept status (accepted a) s = (ok a, s)
accept status (refused code) s = (err (app_error status code), s)

-- `handleHelperError`: a transport error becomes a 502, any other is thrown again.
unfoldable pub handle_helper_error : {A : Type 0} → Failure → Action A
handle_helper_error (transport_error code) = throw (app_error 502 code)
handle_helper_error (app_error status code) = throw (app_error status code)
handle_helper_error (other_error message) = throw (other_error message)

-- `error instanceof AppError ? error.code : fallback`.
abbrev pub app_code : String → Failure → String
app_code fallback (app_error status code) = code
app_code fallback (transport_error code) = fallback
app_code fallback (other_error message) = fallback
