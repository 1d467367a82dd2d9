-- ===== src/Contracts/Entities.antt =====
-- The entities of the API in packages/contracts/src/index.ts. UUIDs are 128-bit numbers and
-- timestamps are milliseconds since the epoch, whose ISO forms SQL compares in the same order.
use awg_control.Base.{ℕ, String, Bool, Option, Text}
use awg_control.Contracts.{
  NodeStatus, ManagementMode, ConnectionStatus, ConnectionSource, UserStatus, QuotaPeriod,
  AdminStatus, SessionKind,
}

pub record NodeRecord : Type 0 where
  pub id : ℕ
  pub name : String
  pub description : Option String
  pub host : String
  pub port : ℕ
  pub ssh_username : String
  pub host_key_fingerprint : String
  pub status : NodeStatus
  pub helper_version : Option String
  pub last_seen_at : Option ℕ
  pub last_error_code : Option String
  pub poll_interval_seconds : ℕ
  pub created_at : ℕ
  pub updated_at : ℕ

pub record VpnUser : Type 0 where
  pub id : ℕ
  pub node_id : ℕ
  pub display_name : String
  pub external_reference : Option String
  pub status : UserStatus
  pub notes : Option String
  pub created_at : ℕ
  pub updated_at : ℕ

pub record Connection : Type 0 where
  pub id : ℕ
  pub vpn_user_id : ℕ
  pub instance_id : ℕ
  pub name : String
  pub public_key : String
  pub address_cidr : String
  pub source : ConnectionSource
  pub management_mode : ManagementMode
  pub status : ConnectionStatus
  pub expires_at : Option ℕ
  pub quota_policy_id : Option ℕ
  pub quota_override_at : Option ℕ
  pub last_handshake_at : Option ℕ
  pub rx_bytes_total : ℕ
  pub tx_bytes_total : ℕ
  pub created_at : ℕ
  pub updated_at : ℕ
  pub revoked_at : Option ℕ

pub record QuotaPolicy : Type 0 where
  pub id : ℕ
  pub node_id : ℕ
  pub name : String
  pub limit_bytes : ℕ
  pub period : QuotaPeriod
  pub reset_timezone : String
  pub created_at : ℕ
  pub updated_at : ℕ

pub record Admin : Type 0 where
  pub id : ℕ
  pub username : String
  pub totp_enabled : Bool
  pub status : AdminStatus
  pub last_login_at : Option ℕ

pub record AdminSession : Type 0 where
  pub id : ℕ
  pub kind : SessionKind
  pub current : Bool
  pub device_label : Option String
  pub created_at : ℕ
  pub last_seen_at : ℕ
  pub expires_at : ℕ
  pub idle_expires_at : Option ℕ
  pub remote_address : Option Text
