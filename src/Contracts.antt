-- ===== src/Contracts.antt =====
-- packages/contracts/src/index.ts: the enumerations of the API, the transitions of a connection's
-- status, and which instances a relay may serve. Each enumeration has an index, by which the code's
-- `===` is decided.

pub mod Instances
pub mod Entities
use awg_control.Base.{ℕ, Bool, true, false, ◌&&◌, ◌||◌, List, [], ◌∷◌, any, ◌==◌}

pub data NodeStatus : Type 0 where
  pending discovered healthy degraded offline : NodeStatus

pub data InstanceMode : Type 0 where
  observed managed read_only : InstanceMode

pub data Adapter : Type 0 where
  amneziawg_legacy awg2 awg3 wireguard : Adapter

pub data ProtocolVersion : Type 0 where
  wireguard legacy v2 v3_0 v3_1 unknown : ProtocolVersion

pub data ManagementMode : Type 0 where
  observed managed : ManagementMode

pub data ConnectionStatus : Type 0 where
  active suspended expired quota_exceeded revoked error : ConnectionStatus

pub data ConnectionSource : Type 0 where
  created imported : ConnectionSource

pub data UserStatus : Type 0 where
  active suspended archived : UserStatus

pub data QuotaPeriod : Type 0 where
  lifetime month calendar_month : QuotaPeriod

pub data AdminStatus : Type 0 where
  active disabled : AdminStatus

pub data SessionKind : Type 0 where
  short remembered : SessionKind

abbrev pub index : ConnectionStatus → ℕ
index ConnectionStatus.active = 0
index ConnectionStatus.suspended = 1
index ConnectionStatus.expired = 2
index ConnectionStatus.quota_exceeded = 3
index ConnectionStatus.revoked = 4
index ConnectionStatus.error = 5

infix 50 ◌is◌
abbrev pub ◌is◌ : ConnectionStatus → ConnectionStatus → Bool
a is b = index a == index b

-- `AllowedConnectionTransitions`.
unfoldable pub allowed_connection_transitions : ConnectionStatus → List ConnectionStatus
allowed_connection_transitions ConnectionStatus.active =
    ConnectionStatus.suspended ∷ ConnectionStatus.expired ∷ ConnectionStatus.quota_exceeded
    ∷ ConnectionStatus.revoked ∷ ConnectionStatus.error ∷ []
allowed_connection_transitions ConnectionStatus.suspended =
    ConnectionStatus.active ∷ ConnectionStatus.revoked ∷ ConnectionStatus.error ∷ []
allowed_connection_transitions ConnectionStatus.expired =
    ConnectionStatus.active ∷ ConnectionStatus.revoked ∷ []
allowed_connection_transitions ConnectionStatus.quota_exceeded =
    ConnectionStatus.active ∷ ConnectionStatus.revoked ∷ []
allowed_connection_transitions ConnectionStatus.revoked = []
allowed_connection_transitions ConnectionStatus.error =
    ConnectionStatus.active ∷ ConnectionStatus.suspended ∷ ConnectionStatus.revoked ∷ []

-- `canTransitionConnection`.
unfoldable pub can_transition_connection : ConnectionStatus → ConnectionStatus → Bool
unfolding allowed_connection_transitions
can_transition_connection from to = any (λ s. s is to) (allowed_connection_transitions from)

pub record Capabilities : Type 0 where
  pub stats : Bool
  pub create : Bool
  pub suspend : Bool
  pub resume : Bool
  pub revoke : Bool
  pub metadata_update : Bool

abbrev pub mode_index : InstanceMode → ℕ
mode_index InstanceMode.observed = 0
mode_index InstanceMode.managed = 1
mode_index InstanceMode.read_only = 2

abbrev pub adapter_index : Adapter → ℕ
adapter_index Adapter.amneziawg_legacy = 0
adapter_index Adapter.awg2 = 1
adapter_index Adapter.awg3 = 2
adapter_index Adapter.wireguard = 3

abbrev pub protocol_index : ProtocolVersion → ℕ
protocol_index ProtocolVersion.wireguard = 0
protocol_index ProtocolVersion.legacy = 1
protocol_index ProtocolVersion.v2 = 2
protocol_index ProtocolVersion.v3_0 = 3
protocol_index ProtocolVersion.v3_1 = 4
protocol_index ProtocolVersion.unknown = 5

abbrev pub is_managed_mode : InstanceMode → Bool
is_managed_mode m = mode_index m == mode_index InstanceMode.managed

abbrev pub is_managed : ManagementMode → Bool
is_managed ManagementMode.managed = true
is_managed ManagementMode.observed = false

abbrev pub is_imported : ConnectionSource → Bool
is_imported ConnectionSource.imported = true
is_imported ConnectionSource.created = false

abbrev pub is_active_admin : AdminStatus → Bool
is_active_admin AdminStatus.active = true
is_active_admin AdminStatus.disabled = false

abbrev pub is_remembered : SessionKind → Bool
is_remembered SessionKind.remembered = true
is_remembered SessionKind.short = false

-- `hasRelayProtocol`.
unfoldable pub has_relay_protocol : Adapter → ProtocolVersion → Bool
has_relay_protocol adapter protocol_version =
    adapter_index adapter == adapter_index Adapter.awg3
      && protocol_index protocol_version == protocol_index ProtocolVersion.v3_1
    || adapter_index adapter == adapter_index Adapter.wireguard
      && protocol_index protocol_version == protocol_index ProtocolVersion.wireguard
