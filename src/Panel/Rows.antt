-- ===== src/Panel/Rows.antt =====
-- The rows of the database's tables, as apps/api/migrations declares them.
use awg_control.Base.{ℕ, String, Bool, Option, List, Text}
use awg_control.Contracts.{
  NodeStatus, InstanceMode, Adapter, ProtocolVersion, ManagementMode, ConnectionStatus,
  ConnectionSource, UserStatus, QuotaPeriod, AdminStatus, SessionKind, Capabilities,
}

pub record AdminRow : Type 0 where
  pub id : ℕ
  pub username : String
  pub password_hash : String
  pub totp_enabled : Bool
  pub totp_secret_encrypted : Option String
  pub status : AdminStatus
  pub last_login_at : Option ℕ
  pub created_at : ℕ
  pub updated_at : ℕ

pub record RecoveryCodeRow : Type 0 where
  pub admin_id : ℕ
  pub code_hash : String
  pub used_at : Option ℕ
  pub created_at : ℕ

pub record SessionRow : Type 0 where
  pub id_hash : String
  pub public_id : ℕ
  pub admin_id : ℕ
  pub session_kind : SessionKind
  pub expires_at : ℕ
  pub idle_expires_at : Option ℕ
  pub created_at : ℕ
  pub last_seen_at : ℕ
  pub remote_address : Option Text
  pub device_label : Option String
  pub revoked_at : Option ℕ
  pub pending_totp_secret_encrypted : Option String

pub record NodeRow : Type 0 where
  pub id : ℕ
  pub name : String
  pub description : Option String
  pub host : String
  pub port : ℕ
  pub ssh_username : String
  pub host_key_fingerprint : String
  pub transport_private_key_encrypted : String
  pub status : NodeStatus
  pub helper_version : Option String
  pub last_seen_at : Option ℕ
  pub last_error_code : Option String
  pub poll_interval_seconds : ℕ
  pub next_poll_at : Option ℕ
  pub created_at : ℕ
  pub updated_at : ℕ

pub record InstanceRow : Type 0 where
  pub id : ℕ
  pub node_id : ℕ
  pub display_name : String
  pub adapter : Adapter
  pub protocol_version : ProtocolVersion
  pub container_ref : String
  pub interface_name : String
  pub config_ref : String
  pub capabilities : Capabilities
  pub source_fingerprint : String
  pub mode : InstanceMode
  pub last_discovered_at : ℕ
  pub udp_port : Option ℕ

pub record VpnUserRow : Type 0 where
  pub id : ℕ
  pub node_id : ℕ
  pub display_name : String
  pub external_reference : Option String
  pub status : UserStatus
  pub notes : Option String
  pub created_at : ℕ
  pub updated_at : ℕ

pub record QuotaPolicyRow : Type 0 where
  pub id : ℕ
  pub node_id : ℕ
  pub name : String
  pub limit_bytes : ℕ
  pub period : QuotaPeriod
  pub reset_timezone : String
  pub created_at : ℕ
  pub updated_at : ℕ

pub record ConnectionRow : Type 0 where
  pub id : ℕ
  pub vpn_user_id : ℕ
  pub instance_id : ℕ
  pub name : String
  pub public_key : String
  pub address_cidr : String
  pub source : ConnectionSource
  pub management_mode : ManagementMode
  pub status : ConnectionStatus
  pub expires_at : Option ℕ
  pub quota_policy_id : Option ℕ
  pub last_handshake_at : Option ℕ
  pub rx_bytes_total : ℕ
  pub tx_bytes_total : ℕ
  pub last_counter_rx : ℕ
  pub last_counter_tx : ℕ
  pub counter_epoch : ℕ
  pub created_at : ℕ
  pub updated_at : ℕ
  pub revoked_at : Option ℕ
  pub quota_override_at : Option ℕ
  pub quota_override_used_bytes : ℕ

pub data BucketKind : Type 0 where
  hourly daily : BucketKind

pub record RollupRow : Type 0 where
  pub connection_id : ℕ
  pub bucket_start : ℕ
  pub bucket_kind : BucketKind
  pub rx_bytes : ℕ
  pub tx_bytes : ℕ

pub data AuditResult : Type 0 where
  success failure rejected : AuditResult

pub data Detail : Type 0 where
  text : String → Detail
  num : ℕ → Detail
  flag : Bool → Detail

pub record AuditRow : Type 0 where
  pub id : ℕ
  pub occurred_at : ℕ
  pub admin_id : Option ℕ
  pub action : String
  pub target_type : String
  pub target_id : Option ℕ
  pub node_id : Option ℕ
  pub operation_id : Option String
  pub result : AuditResult
  pub error_code : Option String
  pub remote_address : Option Text
  pub details : List (String × Detail)

pub data IdempotencyStatus : Type 0 where
  started succeeded failed : IdempotencyStatus

-- The scope of an operation: a fixed prefix, and the entity that it is about, if any.
pub record Scope : Type 0 where
  pub prefix : String
  pub subject : Option ℕ

pub record IdempotencyRow : Type 0 where
  pub scope : Scope
  pub operation_id : String
  pub request_hash : String
  pub result_id : Option ℕ
  pub status : IdempotencyStatus
  pub error_code : Option String
  pub created_at : ℕ
  pub updated_at : ℕ
