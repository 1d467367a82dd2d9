-- ===== src/Tests/Data.antt =====
-- A small panel, and helpers that answer in a fixed way.
use awg_control.Base.{
  ℕ, zero, suc, ◌+◌, String, str_eq, Bool, true, none, some, [], ◌∷◌, codes, length,
}
use awg_control.Contracts.{
  NodeStatus, InstanceMode, Adapter, ProtocolVersion, ManagementMode, ConnectionStatus,
  ConnectionSource, AdminStatus, SessionKind, Capabilities,
}
use awg_control.Contracts.{UserStatus}
use awg_control.Panel.{VpnUserRow}
use awg_control.Crypto.{Hashes}
use awg_control.Exec.{ok}
use awg_control.Panel.{
  Panel, empty_panel, Readings, AdminRow, SessionRow, NodeRow, InstanceRow, ConnectionRow,
  RelayServerRow, RelayServerStatus, RelayRoute, RelayOperationRow, RelayOperationStatus, RelayBody,
  install,
}
use awg_control.Helper.{HelperClient, refused, accepted}
use awg_control.Http.{Request}
use awg_control.Relay.Service.{RelayClient, RelayStatus, no_parameters}
use awg_control.Base.Tables.{find_where}
use awg_control.Base.{arith}
use awg_control.Store.Policies.{Calendar}
use awg_control.Store.Traffic.Conservation.{IsBalanced}
use awg_control.Auth.{Credentials, AuthConfig}

abbrev pub by_length : ℕ → String
by_length zero = "empty"
by_length (suc n) = "not empty"

abbrev pub hashes : Hashes
hashes = record {
  sha256_base64url = λ s. s;
  sha256_hex = λ t. by_length (length t);
  print_number = λ n. n ∷ [];
  print_string = λ s. codes s;
  print_uuid = λ n. n ∷ [];
}

abbrev pub readings : Readings
readings = record { clock = λ k. 1_000_000 + k; uuid = λ k. 500 + k; uuid_text = λ k. "uuid" }

abbrev pub request : Request
request = record { key = some "key-1"; admin_id = 1; ip = codes "192.0.2.7" }

abbrev pub config : AuthConfig
config = record {
  session_ttl_seconds = 43_200;
  remembered_session_ttl_seconds = 2_592_000;
  remembered_session_idle_ttl_seconds = 604_800;
  session_activity_write_interval_seconds = 300;
}

abbrev pub credentials : Credentials
credentials = record {
  verify_password = str_eq;
  decrypt_totp = λ id text. some text;
  decrypt_pending = λ id text. some text;
  encrypt_totp = λ id text. text;
  verify_totp = λ secret name code now. str_eq secret code;
  recovery_hash = λ code. code;
  same_name = str_eq;
}

abbrev pub admin : AdminRow
admin = record {
  id = 1;
  username = "root";
  password_hash = "password";
  totp_enabled = true;
  totp_secret_encrypted = some "123456";
  status = AdminStatus.active;
  last_login_at = none;
  created_at = 0;
  updated_at = 0;
}

abbrev session : String → ℕ → SessionRow
session token id = record {
  id_hash = token;
  public_id = id;
  admin_id = 1;
  session_kind = SessionKind.remembered;
  expires_at = 9_000_000;
  idle_expires_at = some 2_000_000;
  created_at = 0;
  last_seen_at = 0;
  remote_address = none;
  device_label = none;
  revoked_at = none;
  pending_totp_secret_encrypted = none;
}

abbrev pub node : NodeRow
node = record {
  id = 2;
  name = "node";
  description = none;
  host = "198.51.100.4";
  port = 22;
  ssh_username = "awg-control-agent";
  host_key_fingerprint = "SHA256:x";
  transport_private_key_encrypted = "key";
  status = NodeStatus.healthy;
  helper_version = none;
  last_seen_at = none;
  last_error_code = none;
  poll_interval_seconds = 60;
  next_poll_at = none;
  created_at = 0;
  updated_at = 0;
}

abbrev capabilities : Capabilities
capabilities = record {
  stats = true;
  create = true;
  suspend = true;
  resume = true;
  revoke = true;
  metadata_update = true;
}

abbrev pub instance_row : InstanceRow
instance_row = record {
  id = 5;
  node_id = 2;
  display_name = "awg0";
  adapter = Adapter.awg3;
  protocol_version = ProtocolVersion.v3_1;
  container_ref = "amnezia-awg";
  interface_name = "awg0";
  config_ref = "/opt/amnezia/awg/wg0.conf";
  capabilities = capabilities;
  source_fingerprint = "f";
  mode = InstanceMode.managed;
  last_discovered_at = 0;
  udp_port = some 51820;
}

abbrev pub user : VpnUserRow
user = record {
  id = 7;
  node_id = 2;
  display_name = "Ann";
  external_reference = none;
  status = UserStatus.active;
  notes = none;
  created_at = 0;
  updated_at = 0;
}

abbrev pub connection : ℕ → ConnectionStatus → ConnectionRow
connection id status = record {
  id = id;
  vpn_user_id = 7;
  instance_id = 5;
  name = "phone";
  public_key = "key";
  address_cidr = "10.8.1.2/32";
  source = ConnectionSource.created;
  management_mode = ManagementMode.managed;
  status = status;
  expires_at = none;
  quota_policy_id = none;
  last_handshake_at = none;
  rx_bytes_total = 0;
  tx_bytes_total = 0;
  last_counter_rx = 0;
  last_counter_tx = 0;
  counter_epoch = 0;
  created_at = 0;
  updated_at = 0;
  revoked_at = none;
  quota_override_at = none;
  quota_override_used_bytes = 0;
}

abbrev pub relay : RelayServerRow
relay = record {
  id = 3;
  name = "relay";
  host = "198.51.100.9";
  public_ipv4 = "198.51.100.9";
  port = 22;
  host_key_fingerprint = "SHA256:y";
  transport_private_key_encrypted = "key";
  status = RelayServerStatus.ready;
  source_fingerprint = some "f";
  helper_version = none;
  last_checked_at = some 990_000;
  last_error_code = none;
  created_at = 0;
  updated_at = 0;
}

abbrev pub route : ℕ → RelayRoute
route port = record {
  id = 4;
  relay_id = 3;
  instance_id = 5;
  listen_port = port;
  upstream_ipv4 = "198.51.100.4";
  upstream_port = 51820;
  enabled = true;
  created_at = 0;
  updated_at = 0;
}

abbrev pub body : RelayBody
body = record { expected_fingerprint = "f"; change = install }

abbrev pub operation : String → String → RelayOperationStatus → RelayOperationRow
operation op hash status = record {
  id = 11;
  relay_id = 3;
  operation_id = op;
  request_hash = hash;
  request = record { parameters = no_parameters; routes = []; body = body };
  status = status;
  error_code = none;
  created_at = 0;
  updated_at = 0;
}

abbrev pub site : Panel
site = record empty_panel {
  admins = admin ∷ [];
  recovery_codes = record { admin_id = 1; code_hash = "code"; used_at = none; created_at = 0 } ∷ [];
  sessions = session "a" 21 ∷ session "b" 22 ∷ [];
  nodes = node ∷ [];
  instances = instance_row ∷ [];
  vpn_users = user ∷ [];
  connections = connection 8 ConnectionStatus.active ∷ connection 9 ConnectionStatus.revoked ∷ [];
  relay_servers = relay ∷ [];
  relay_routes = route 40_000 ∷ [];
}

-- The panel while an operation of its relay stands in the journal.
abbrev pub with_operation : RelayOperationRow → Panel
with_operation row = record site { relay_operations = row ∷ [] }

-- A node's helper that refuses every mutation, and answers nothing else.
abbrev pub refusing : HelperClient
refusing = record {
  create = λ n q s. (ok (refused "BUSY"), s);
  mutate = λ n q s. (ok (refused "BUSY"), s);
  list = λ n q s. (ok (refused "BUSY"), s);
  discover = λ n q s. (ok (refused "BUSY"), s);
  health = λ n q s. (ok (refused "BUSY"), s);
  stats = λ n q s. (ok (refused "BUSY"), s);
  apply_policy = λ n q s. (ok (refused "BUSY"), s);
}

abbrev pub relay_status : RelayStatus
relay_status = record {
  installed = true;
  active = true;
  source_fingerprint = "0123456789abcdef0123456789abcdef0123456789abcdef0123456789abcdef";
  helper_version = "1.2.0";
  protocol_version = "1.1";
  routes = [];
}

-- A relay's helper that carries out whatever it is asked for.
abbrev pub willing : RelayClient
willing = record { call = λ secret q s. (ok (accepted relay_status), s) }

abbrev pub is_ipv4 : String → Bool
is_ipv4 text = true

abbrev pub calendar : Calendar
calendar = record {
  zone_parts =
      λ zone now. record { year = 2026; month = 1; day = 1; hour = 0; minute = 0; second = 0 };
  utc = λ year month day hour minute second. day;
}

pub site-IsBalanced : IsBalanced site
unfolding find_where
site-IsBalanced = record {
  rx = λ kind id c e. ground (arith, e);
  tx = λ kind id c e. ground (arith, e);
}
