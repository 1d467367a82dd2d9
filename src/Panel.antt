-- ===== src/Panel.antt =====
-- The state of the panel: the tables of its SQLite database, and the ids of the relays that
-- `RelayService.running` (apps/api/src/relay/service.ts) holds in memory.
mod Rows
mod RelayRows
pub use Rows.*
pub use RelayRows.*
use awg_control.Base.{ℕ, String, List, []}
use awg_control.Exec.{Exec}

pub record Panel : Type 0 where
  pub admins : List AdminRow
  pub recovery_codes : List RecoveryCodeRow
  pub sessions : List SessionRow
  pub nodes : List NodeRow
  pub instances : List InstanceRow
  pub vpn_users : List VpnUserRow
  pub quota_policies : List QuotaPolicyRow
  pub connections : List ConnectionRow
  pub rollups : List RollupRow
  pub audit_events : List AuditRow
  pub idempotency_records : List IdempotencyRow
  pub relay_servers : List RelayServerRow
  pub relay_routes : List RelayRoute
  pub relay_operations : List RelayOperationRow
  pub running_relays : List ℕ

abbrev pub empty_panel : Panel
empty_panel = record {
  admins = [];
  recovery_codes = [];
  sessions = [];
  nodes = [];
  instances = [];
  vpn_users = [];
  quota_policies = [];
  connections = [];
  rollups = [];
  audit_events = [];
  idempotency_records = [];
  relay_servers = [];
  relay_routes = [];
  relay_operations = [];
  running_relays = [];
}

abbrev pub Action : Type 0 → Type 0
Action A = Exec Panel A

-- The readings of the clock (`utcNow()`, `Date.now()`) and of the random source (`uuidv7()`) that
-- one handler makes, numbered by their place in the code; `uuid_text` are those that become the text
-- of an operation id.
pub record Readings : Type 0 where
  pub clock : ℕ → ℕ
  pub uuid : ℕ → ℕ
  pub uuid_text : ℕ → String
