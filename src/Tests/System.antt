-- ===== src/Tests/System.antt =====
-- The theorems on configuration, identifiers, secrets and the helper's protocol at concrete inputs.
use awg_control.Base.{
  ◌≡◌, refl, false, true, none, some, ℕ, Text, [], ◌∷◌, List, Option, codes, arith,
}
use awg_control.Base.Tables.{find_where}
use awg_control.Exec.{ok, ◌>>=◌}
use awg_control.Helper.{accepted}
use awg_control.Helper.Transport.{
  Event, received, closed, timed_out, RawEnvelope, new_rpc, run_events, settle, on_event,
  read_answer, check_envelope,
}
use awg_control.Helper.Transport.Soundness.{IsRead, run_events_lem}
use awg_control.Config.{
  Environment, AppConfig, load_config, ◌then◌, integer, bounded_integer, non_negative_integer,
  read_master_key, parsed, parse_int, signed, unsigned, digits_from,
}
use awg_control.Config.Bounds.{IsSound, load_config_bounds}
use awg_control.Ids.{Random, uuidv7}
use awg_control.Ids.Time.{time_of, version_of, variant_of, uuidv7_lem}
use awg_control.Secrets.{
  Cipher, totp, rotate_master_key, rotate_table, rotate_rows, rotate_row, in_nodes, in_relays,
  in_admins,
}
use awg_control.Secrets.RoundTrip.{AreKeyed, opened, rotate_master_key_round_trip}
use awg_control.Store.Users.{matches}
use awg_control.Store.Users.Search.{holds, matches_lem}
use awg_control.Tests.Data.{site, user}

matches_lem_example : matches "50%" user ≡ holds (codes "50%") (codes "Ann")
matches_lem_example = matches_lem "50%" user refl

abbrev random : Random
random = record { byte6 = 200; byte7 = 1; byte8 = 255; rest = 1 ∷ 2 ∷ 3 ∷ 4 ∷ 5 ∷ 6 ∷ 7 ∷ [] }

uuidv7_lem_example :
    (bytes : List ℕ) × (uuidv7 1_700_000_000_000 random ≡ some bytes)
    × (time_of bytes ≡ 1_700_000_000_000)
    × (version_of bytes ≡ 7)
    × (variant_of bytes ≡ 2)
uuidv7_lem_example = uuidv7_lem 1_700_000_000_000 random (omega arith)

abbrev environment : Environment
environment = record {
  port = some "8443";
  master_key_file = some "/run/key";
  session_ttl_seconds = some "3600";
  remembered_session_ttl_seconds = none;
  remembered_session_idle_ttl_seconds = none;
  session_activity_write_interval_seconds = none;
  secure_cookies = none;
  trusted_proxy_hops = some "1";
  polling_enabled = some "false";
}

abbrev master_key : Text
master_key = codes "0123456789abcdef0123456789abcdef"

abbrev loaded : AppConfig
loaded = record {
  port = 8443;
  master_key = master_key;
  session_ttl_seconds = 3_600;
  remembered_session_ttl_seconds = 2_592_000;
  remembered_session_idle_ttl_seconds = 604_800;
  session_activity_write_interval_seconds = 300;
  secure_cookies = true;
  trusted_proxy_hops = 1;
  polling_enabled = false;
}

loads : load_config (λ path. master_key) environment ≡ ok loaded
unfolding load_config ◌then◌ integer bounded_integer non_negative_integer read_master_key parsed
    parse_int signed unsigned digits_from
loads = refl

load_config_bounds_example : IsSound loaded
load_config_bounds_example = load_config_bounds (λ path. master_key) environment loaded loads

-- A cipher that hides nothing.
abbrev plain : Cipher
plain = record { encrypt = λ key purpose s. s; decrypt = λ key purpose s. some s }

rotates : (rotate_master_key plain (codes "old") master_key site).0 ≡ ok tt
unfolding rotate_master_key rotate_table rotate_rows rotate_row in_nodes in_relays in_admins ◌>>=◌
rotates = refl

keyed_nodes : AreKeyed (λ n. n.id) site.nodes
unfolding find_where
keyed_nodes = (refl, tt)

keyed_relays : AreKeyed (λ s. s.id) site.relay_servers
unfolding find_where
keyed_relays = (refl, tt)

keyed_admins : AreKeyed (λ a. a.id) site.admins
unfolding find_where
keyed_admins = (refl, tt)

rotate_master_key_round_trip_example :
    opened plain master_key (totp 1) (rotate_master_key plain (codes "old") master_key site).1
    ≡ some "123456"
unfolding find_where
rotate_master_key_round_trip_example =
    rotate_master_key_round_trip plain (codes "old") master_key site (totp 1)
      (λ key purpose s. refl) keyed_nodes keyed_relays keyed_admins rotates

-- Every text that comes is an answer to request 9.
abbrev parse : Text → Option (RawEnvelope ℕ)
parse text = some (record { request_id = some 9; is_ok = some true; result = some 1; error = none })

abbrev arrivals : List Event
arrivals = received (codes "{}") ∷ closed ∷ timed_out ∷ []

settles : (run_events parse [] 9 arrivals new_rpc).settled ≡ some (ok (accepted 1))
unfolding run_events on_event settle read_answer check_envelope
settles = refl

run_events_lem_example :
    IsRead parse 9 arrivals (accepted 1)
    × ((run_events parse [] 9 (timed_out ∷ []) (run_events parse [] 9 arrivals new_rpc)).settled
        ≡ some (ok (accepted 1)))
run_events_lem_example = run_events_lem parse [] 9 arrivals (timed_out ∷ []) (accepted 1) settles
