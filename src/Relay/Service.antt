-- ===== src/Relay/Service.antt =====
-- `RelayService` of apps/api/src/relay/service.ts: the calls of a relay, its status, and the
-- exclusion of two operations on one relay. A relay's client is an interface, since its transport
-- and the relay are other programs.
pub mod Exclusion
use awg_control.Base.{
  ℕ, ◌+◌, String, str_eq, Bool, true, false, not, ◌&&◌, ◌||◌, Option, none, some, List, [], ◌∷◌,
  map, ltb, leb, ◌==◌, if◌then◌else◌, on_some, any, all, length, Text, codes,
}
use awg_control.Base.Tables.{order_by, delete_where}
use awg_control.Crypto.{
  Hashes, Json, obj, arr, Items, nil, item, member, end, uuid, str, num, bool, request_fingerprint,
}
use awg_control.Exec.{
  Failure, app_error, transport_error, other_error, Result, ok, err, conflict, not_found, pure,
  throw, gets, read, guard, modify, try_catch, ◌>>=◌, ◌>>◌,
}
use awg_control.Panel.{
  Panel, Action, Readings, RelayServerStatus, RelayRoute, WireRoute, RelayChange, RelayBody,
  RelayParameters,
}
use awg_control.Helper.{Response, accept}
use awg_control.Relay.Address.{public_ipv4}
use awg_control.Relay.Store.{RelayServer, RelaySecret, get_relay, relay_secret, routes}
use awg_control.Relay.Journal.{health}

pub data RelayAction : Type 0 where
  status : RelayAction
  change : RelayChange → RelayAction

pub record RelayRequest : Type 0 where
  pub request_id : ℕ
  pub operation_id : String
  pub action : RelayAction
  pub parameters : RelayParameters

pub record RelayStatus : Type 0 where
  pub installed : Bool
  pub active : Bool
  pub source_fingerprint : String
  pub helper_version : String
  pub protocol_version : String
  pub routes : List WireRoute

pub record RelayClient : Type 0 where
  pub call : RelaySecret → RelayRequest → Action (Response RelayStatus)

-- /^[a-f0-9]{64}$/
unfoldable pub is_fingerprint : String → Bool
is_fingerprint s =
    length (codes s) == 64
    && all (λ c. leb b'a' c && leb c b'f' || leb b'0' c && leb c b'9') (codes s)

unfoldable pub valid_route : (String → Bool) → WireRoute → Bool
valid_route is_ipv4 r =
    public_ipv4 is_ipv4 r.upstream_ipv4
    && leb 1024 r.listen_port
    && leb r.listen_port 65535
    && leb 1 r.upstream_port
    && leb r.upstream_port 65535

-- `validStatus`, of a value that has the shape of a status.
unfoldable pub valid_status : (String → Bool) → RelayStatus → Bool
unfolding is_fingerprint valid_route
valid_status is_ipv4 s =
    is_fingerprint s.source_fingerprint
    && (str_eq s.protocol_version "1.0" || str_eq s.protocol_version "1.1")
    && leb (length s.routes) 100
    && all (valid_route is_ipv4) s.routes

unfoldable pub wire_route : RelayRoute → WireRoute
wire_route r = record {
  id = r.id;
  listen_port = r.listen_port;
  upstream_ipv4 = r.upstream_ipv4;
  upstream_port = r.upstream_port;
  enabled = r.enabled;
}

abbrev pub no_parameters : RelayParameters
no_parameters = record { expected_fingerprint = none; route = none; route_id = none }

abbrev route_json : WireRoute → Json
route_json r = obj (
    member "id" (uuid r.id) (
      member "listenPort" (num r.listen_port) (
        member "upstreamIpv4" (str r.upstream_ipv4)
          (member "upstreamPort" (num r.upstream_port) (member "enabled" (bool r.enabled) end)))))

abbrev routes_json : List WireRoute → Items
routes_json [] = nil
routes_json (r ∷ rs) = item (route_json r) (routes_json rs)

-- `requestFingerprint` of the routes, sorted by their ids.
unfoldable pub routes_fingerprint : Hashes → List WireRoute → String
routes_fingerprint hashes rs =
    request_fingerprint hashes (arr (routes_json (order_by (λ a b. leb a.id b.id) rs)))

-- The code of an error, as it is stored.
abbrev pub code_of : String → Failure → String
code_of fallback (app_error http code) = code
code_of fallback (transport_error code) = code
code_of fallback (other_error message) = fallback

-- `try { m } finally { f }`, where `f` throws nothing.
unfoldable pub finally : {A : Type 0} → Action A → (Panel → Panel) → Action A
finally m f s = ((m s).0, f (m s).1)

unfoldable pub start_running : ℕ → Panel → Panel
start_running id db = record db { running_relays = id ∷ db.running_relays }

unfoldable pub stop_running : ℕ → Panel → Panel
stop_running id db = record db { running_relays = delete_where (λ k. k == id) db.running_relays }

-- `if (this.running.has(id)) throw …; this.running.add(id); try { m } finally { … }`.
unfoldable pub exclusively : {A : Type 0} → ℕ → Action A → Action A
unfolding start_running
exclusively id m = do
  running ← gets λ db. any (λ k. k == id) db.running_relays
  guard (not running) (conflict "RELAY_BUSY")
  modify (start_running id)
  finally m (stop_running id)

module _ (client : RelayClient) (is_ipv4 : String → Bool) where
  unfoldable pub call : ℕ → RelayRequest → Action RelayStatus
  call id request = do
    secret ← read (relay_secret id) not_found
    response ← client.call secret request
    result ← accept 409 response
    guard (valid_status is_ipv4 result) (app_error 502 "INVALID_HELPER_RESPONSE")
    pure result

  module _ (hashes : Hashes) (r : Readings) where
    -- The relay's routes are those of the panel, and its fingerprint has not changed.
    unfoldable pub agrees : ℕ → RelayStatus → Panel → Bool
    agrees id s db =
        str_eq (routes_fingerprint hashes (map wire_route (routes id db)))
          (routes_fingerprint hashes s.routes)
        && on_some true
            (λ known.
              on_some true (λ f. str_eq f "" || str_eq f s.source_fingerprint)
                known.source_fingerprint)
            (get_relay id db)

    unfoldable pub record_status : ℕ → RelayStatus → Panel → Panel
    record_status id s db =
        let matches = agrees id s db in
        health id
          (if s.installed
            then if s.active && matches then RelayServerStatus.ready else RelayServerStatus.offline
            else RelayServerStatus.uninstalled)
          (if matches then some s.source_fingerprint else none) (some s.helper_version)
          (if matches then none else some "RELAY_STATE_CONFLICT") (r.clock 0) (r.clock 1) db

    unfoldable pub check_status : ℕ → Action RelayStatus
    check_status id =
        try_catch
          (do
            current ← call id (record {
              request_id = r.uuid 0;
              operation_id = r.uuid_text 0;
              action = status;
              parameters = no_parameters;
            })
            modify (record_status id current)
            pure current)
          λ error. do
            modify (
                health id RelayServerStatus.offline none none
                  (some (code_of "HELPER_UNAVAILABLE" error)) (r.clock 2) (r.clock 3))
            throw error
