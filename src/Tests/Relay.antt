-- ===== src/Tests/Relay.antt =====
-- The theorems on the relays at concrete inputs.
use awg_control.Base.{some, ℕ, ◌≡◌, ◌≤◌, ◌+◌, refl, true, false, some, arith}
use awg_control.Base.Tables.{find_where, select_where, order_by, update_where, delete_where}
use awg_control.Crypto.{request_fingerprint, stable_json}
use awg_control.Exec.{ok, ◌>>=◌}
use awg_control.Panel.{Panel, RelayOperationStatus, RelayServerStatus, RelayRoute}
use awg_control.Store.Audit.{add_audit}
use awg_control.Relay.Address.{public_octets}
use awg_control.Relay.Address.Blocks.{public_octets_lem}
use awg_control.Relay.Store.{
  is_operation, RelayServer, RelayEndpoint, server, stored_of, RelayOperation, get_relay,
  relay_secret, instance_route, pending, endpoint, get_operation,
}
use awg_control.Relay.Store.Availability.{endpoint_sound}
use awg_control.Relay.Journal.{commit, insert_routes, finish, health}
use awg_control.Relay.Service.{
  exclusively, start_running, call, valid_status, routes_fingerprint, is_fingerprint,
}
use awg_control.Relay.Service.Exclusion.{is_running, exclusively_releases}
use awg_control.Relay.Changes.{change_json, mutate, perform, proceed, resume, attempt, carry_out}
use awg_control.Relay.Changes.Exclusion.{IsInert, mutate_excluded}
use awg_control.Relay.Changes.Outcomes.{perform_succeeded}
use awg_control.Tests.Data.{
  hashes, readings, site, body, operation, with_operation, refusing, willing, is_ipv4,
}

public_octets_lem_example : public_octets 172 31 ≡ false
public_octets_lem_example =
    public_octets_lem 172 31 0 1 (omega arith) (omega arith) (omega arith) (omega arith)

offered : (e : RelayEndpoint) × (endpoint 5 1_000_000 site ≡ some e)
unfolding endpoint instance_route get_relay find_where pending server
offered = (_, refl)

endpoint_sound_example :
    (r : RelayRoute) × (s : RelayServer) × (checked : ℕ) × (instance_route 5 site ≡ some r)
    × (get_relay r.relay_id site ≡ some s)
    × (r.enabled ≡ true)
    × (s.status ≡ RelayServerStatus.ready)
    × (s.last_checked_at ≡ some checked)
    × (1_000_000 ≤ checked + 120_000)
    × (pending s.id site ≡ false)
    × (offered.0 ≡ record { route_id = r.id; host = s.public_ipv4; port = r.listen_port })
endpoint_sound_example = endpoint_sound 5 1_000_000 site offered.0 offered.1

exclusively_releases_example :
    (is_running 3
        (exclusively 3 (perform willing refusing is_ipv4 hashes readings 3 "op" body) site).1
      ≡ false)
    × ((exclusively 3 (perform willing refusing is_ipv4 hashes readings 3 "op" body) site).0
        ≡ (perform willing refusing is_ipv4 hashes readings 3 "op" body (start_running 3 site)).0)
exclusively_releases_example =
    exclusively_releases 3 (perform willing refusing is_ipv4 hashes readings 3 "op" body) site refl

abbrev open_site : Panel
open_site = with_operation (operation "op" "not empty" RelayOperationStatus.pending)

performed :
    (o : RelayOperation) × ((perform willing refusing is_ipv4 hashes readings 3 "op" body
        open_site).0
      ≡ ok o)
unfolding perform get_relay get_operation find_where proceed resume attempt carry_out call
    relay_secret valid_status commit insert_routes finish health update_where delete_where
    routes_fingerprint stable_json request_fingerprint change_json is_fingerprint order_by
    select_where add_audit awg_control.Relay.Store.operation ◌>>=◌
performed = (_, refl)

perform_succeeded_example : performed.0.status ≡ RelayOperationStatus.succeeded
perform_succeeded_example =
    perform_succeeded willing refusing is_ipv4 hashes readings 3 "op" body open_site performed.0
      performed.1

still_open :
    find_where (is_operation 3 "op") open_site.relay_operations
    ≡ some (operation "op" "not empty" RelayOperationStatus.pending)
unfolding find_where
still_open = refl

mutate_excluded_example :
    IsInert open_site (mutate willing refusing is_ipv4 hashes readings 3 "other" body open_site)
mutate_excluded_example =
    mutate_excluded willing refusing is_ipv4 hashes readings 3 "other" "op" body open_site
      (operation "op" "not empty" RelayOperationStatus.pending) still_open refl (ground arith)
      (refl, tt)
