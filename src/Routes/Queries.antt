-- ===== src/Routes/Queries.antt =====
-- The handlers of apps/api/src/http/routes.ts that only read: users, traffic and the audit journal.
use awg_control.Base.{ℕ, String, str_eq, Option, none, some, List, or_else, codes, if◌then◌else◌}
use awg_control.Config.{parse_int}
use awg_control.Contracts.Entities.{VpnUser, Connection}
use awg_control.Exec.{not_found, pure, gets, read, ◌>>=◌}
use awg_control.Panel.{Action}
use awg_control.Store.Connections.{list_connections_for_user}
use awg_control.Store.Traffic.{TrafficReport, traffic}
use awg_control.Store.Users.{get_user}

pub record UserDetails : Type 0 where
  pub user : VpnUser
  pub connections : List Connection

-- `GET /users/:id`
unfoldable pub user_details : ℕ → Action UserDetails
user_details id = do
  user ← read (get_user id) not_found
  connections ← gets (list_connections_for_user id)
  pure (record { user = user; connections = connections })

-- `GET /connections/:id/traffic`
unfoldable pub connection_traffic : ℕ → Action TrafficReport
connection_traffic id = read (traffic id) not_found

-- The limit of `GET /audit-events`: 100 where none is given or it is no number.
unfoldable pub audit_limit : Option String → ℕ
audit_limit none = 100
audit_limit (some value) = if str_eq value "" then 100 else or_else (parse_int (codes value)) 100
