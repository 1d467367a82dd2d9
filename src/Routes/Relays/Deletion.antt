-- ===== src/Routes/Relays/Deletion.antt =====
-- Which relays are deleted.
use awg_control.Base.{map, none, ◌≡◌, Bool, true, not}
use awg_control.Exec.Returns.{Returns}
use awg_control.Panel.{Panel, RelayServerStatus, RelayServerRow}
use awg_control.Helper.{Response, accepted, refused}
use awg_control.Relay.Service.{RelayStatus}
use awg_control.Routes.Relays.{is_gone}

-- A relay as it was registered: its row without what a check of its status records.
abbrev pub registration : RelayServerRow → RelayServerRow
registration row = record row {
  status = RelayServerStatus.offline;
  source_fingerprint = none;
  helper_version = none;
  last_checked_at = none;
  last_error_code = none;
  updated_at = 0;
}

-- The relays are registered as they were, and their routes and journal are as they were.
abbrev pub AreKept : Panel → Panel → Type 0
AreKept db s =
    (map registration s.relay_servers ≡ map registration db.relay_servers)
    × (s.relay_routes ≡ db.relay_routes)
    × (s.relay_operations ≡ db.relay_operations)

abbrev pub is_in_use : RelayStatus → Bool
is_in_use s = not (is_gone s)

-- An answer that does not say that nothing is left.
abbrev pub says_in_use : Response RelayStatus → Bool
says_in_use (accepted s) = is_in_use s
says_in_use (refused code) = true
