-- ===== src/Panel/RelayRows.antt =====
-- The rows of the relay tables, as apps/api/migrations/0006_udp_relays.sql declares them, with the
-- requests that their journal stores. A row of relay_routes is the `RelayRoute` that is read from
-- it. A UUID is a number, so the test of its text is left out.
use awg_control.Base.{ℕ, String, Bool, Option, List}

pub data RelayServerStatus : Type 0 where
  pending ready offline uninstalled : RelayServerStatus

pub record RelayServerRow : Type 0 where
  pub id : ℕ
  pub name : String
  pub host : String
  pub public_ipv4 : String
  pub port : ℕ
  pub host_key_fingerprint : String
  pub transport_private_key_encrypted : String
  pub status : RelayServerStatus
  pub source_fingerprint : Option String
  pub helper_version : Option String
  pub last_checked_at : Option ℕ
  pub last_error_code : Option String
  pub created_at : ℕ
  pub updated_at : ℕ

pub record RelayRoute : Type 0 where
  pub id : ℕ
  pub relay_id : ℕ
  pub instance_id : ℕ
  pub listen_port : ℕ
  pub upstream_ipv4 : String
  pub upstream_port : ℕ
  pub enabled : Bool
  pub created_at : ℕ
  pub updated_at : ℕ

-- `RelayRemoteRoute`: a route as it is sent to the relay.
pub record WireRoute : Type 0 where
  pub id : ℕ
  pub listen_port : ℕ
  pub upstream_ipv4 : String
  pub upstream_port : ℕ
  pub enabled : Bool

-- The actions that change a relay, each with the members of its body.
pub data RelayChange : Type 0 where
  install update uninstall : RelayChange
  apply : ℕ → Option ℕ → RelayChange
  disable remove : ℕ → RelayChange

pub record RelayBody : Type 0 where
  pub expected_fingerprint : String
  pub change : RelayChange

pub record RelayParameters : Type 0 where
  pub expected_fingerprint : Option String
  pub route : Option WireRoute
  pub route_id : Option ℕ

-- `request_json`.
pub record StoredRequest : Type 0 where
  pub parameters : RelayParameters
  pub routes : List RelayRoute
  pub body : RelayBody

pub data RelayOperationStatus : Type 0 where
  pending succeeded failed uncertain : RelayOperationStatus

pub record RelayOperationRow : Type 0 where
  pub id : ℕ
  pub relay_id : ℕ
  pub operation_id : String
  pub request_hash : String
  pub request : StoredRequest
  pub status : RelayOperationStatus
  pub error_code : Option String
  pub created_at : ℕ
  pub updated_at : ℕ
