-- ===== src/Contracts/Instances.antt =====
-- `InstanceSchema` and `supportsRelay` of packages/contracts/src/index.ts.
use awg_control.Base.{ℕ, String, Bool, true, ◌&&◌, Option, leb, length, codes, on_some}
use awg_control.Contracts.{
  InstanceMode, Adapter, ProtocolVersion, Capabilities, is_managed_mode, has_relay_protocol,
}

pub record InstanceRecord : Type 0 where
  pub id : ℕ
  pub node_id : ℕ
  pub display_name : String
  pub adapter : Adapter
  pub protocol_version : ProtocolVersion
  pub container_ref : String
  pub interface_name : String
  pub config_ref : String
  pub capabilities : Capabilities
  pub source_fingerprint : String
  pub mode : InstanceMode
  pub last_discovered_at : ℕ
  pub udp_port : Option ℕ

abbrev sized : ℕ → ℕ → String → Bool
sized low high s = leb low (length (codes s)) && leb (length (codes s)) high

-- The bounds of `InstanceSchema`, of a value that has its shape: the formats of UUIDs and dates, which
-- are numbers here, and additional or coerced members are left out.
unfoldable pub conforms : InstanceRecord → Bool
conforms i =
    sized 1 120 i.display_name
    && sized 1 128 i.container_ref
    && sized 1 32 i.interface_name
    && sized 1 128 i.config_ref
    && sized 16 128 i.source_fingerprint
    && on_some true (λ p. leb 1 p && leb p 65535) i.udp_port

unfoldable pub supports_relay : InstanceRecord → Bool
unfolding has_relay_protocol
supports_relay i =
    is_managed_mode i.mode
    && i.capabilities.create
    && has_relay_protocol i.adapter i.protocol_version
