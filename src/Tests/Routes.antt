-- ===== src/Tests/Routes.antt =====
-- The theorems on whole handlers at a concrete panel.
use awg_control.Base.{◌≡◌, ◌==◌, refl, true, none, some, ℕ, String, [], ◌∷◌, List}
use awg_control.Base.Tables.{find_where, find_last}
use awg_control.Contracts.{AdminStatus, InstanceMode}
use awg_control.Exec.{Failure, ok, err, ◌>>=◌}
use awg_control.Exec.Returns.{Returns}
use awg_control.Panel.{InstanceRow}
use awg_control.Helper.{HelperClient, accepted, handle_helper_error}
use awg_control.Store.Nodes.{get_node_secret, update_node_health}
use awg_control.Store.Users.{get_user}
use awg_control.Store.Instances.{get_instance}
use awg_control.Store.Idempotency.{begin_idempotency}
use awg_control.Http.{operation_id}
use awg_control.Routes.Lifecycle.{suspend, resume, revoke, LifecycleAction}
use awg_control.Routes.Lifecycle.Refinement.{LifecycleCall}
use awg_control.Routes.Import.{
  ImportPeer, import_peers, proceed_import, store_import, check_peers, still_matches, import_failed,
}
use awg_control.Routes.Import.Atomic.{import_peers_atomic}
use awg_control.Routes.Issuance.{ConnectionBody, issue_connection, quota_fits, proceed_issue, issue}
use awg_control.Routes.Issuance.Atomic.{issue_connection_atomic}
use awg_control.Routes.Discovery.{discover, discovery_failed}
use awg_control.Routes.Discovery.Modes.{discover_no_promotion}
use awg_control.Auth.Sessions.{Identity}
use awg_control.Tests.Data.{hashes, readings, request, site, refusing}

abbrev call : LifecycleAction → ℕ → LifecycleCall
call action id = record {
  action = action;
  connection_id = id;
  body_override = true;
  request = request;
  readings = readings;
}

abbrev calls : List LifecycleCall
calls = call suspend 8 ∷ call resume 9 ∷ call revoke 8 ∷ []

-- A helper that carries out every mutation.
abbrev obeying : HelperClient
obeying = record refusing {
  mutate = λ n q s. (ok (accepted (record { connection_id = 8; source_fingerprint = "g" })), s);
}

-- A helper that lists one peer.
abbrev listing : HelperClient
listing = record refusing {
  list = λ n q s. (
    ok (
        accepted (record {
          peers = record { public_key = "new"; address_cidr = "10.8.1.3/32"; name = "laptop" } ∷ [];
          source_fingerprint = "f";
        })),
    s,
  );
}

abbrev peer : String → ImportPeer
peer address = record {
  vpn_user_id = 7;
  name = "laptop";
  public_key = "new";
  address_cidr = address;
}

-- The first peer is as it was listed, the second has moved.
abbrev peers : List ImportPeer
peers = peer "10.8.1.3/32" ∷ peer "10.8.1.4/32" ∷ []

moved : (e : Failure) × ((import_peers listing hashes readings request 5 peers site).0 ≡ err e)
unfolding import_peers ◌>>=◌ get_instance find_where operation_id proceed_import begin_idempotency
    get_node_secret store_import check_peers still_matches get_user import_failed
    handle_helper_error find_last
moved = (_, refl)

import_peers_atomic_example :
    (import_peers listing hashes readings request 5 peers site).1.connections ≡ site.connections
import_peers_atomic_example =
    import_peers_atomic listing hashes readings request 5 peers site moved.0
      (λ node q. record { at = λ s h. h }) moved.1

abbrev connection_body : ConnectionBody
connection_body = record {
  instance_id = 5;
  name = "phone";
  expires_at = none;
  quota_policy_id = none;
}

busy :
    (e : Failure) × ((issue_connection refusing hashes readings request 7 connection_body site).0
      ≡ err e)
unfolding issue_connection ◌>>=◌ get_user find_where get_instance quota_fits operation_id
    proceed_issue begin_idempotency get_node_secret issue handle_helper_error
busy = (_, refl)

issue_connection_atomic_example :
    (issue_connection refusing hashes readings request 7 connection_body site).1.connections
    ≡ site.connections
issue_connection_atomic_example =
    issue_connection_atomic refusing hashes readings request 7 connection_body site busy.0
      (λ node q. record { at = λ s h. h }) (λ node q. record { at = λ s h. h }) busy.1

still_managed :
    (i : InstanceRow) × (find_where
        (λ x. x.id == 5)
        (discover refusing readings request 2 site).1.instances
      ≡ some i)
    × (i.mode ≡ InstanceMode.managed)
unfolding discover find_where ◌>>=◌ get_node_secret operation_id discovery_failed
    handle_helper_error update_node_health
still_managed = (_, refl, refl)

discover_no_promotion_example :
    (old : InstanceRow) × (find_where (λ x. x.id == 5) site.instances ≡ some old)
    × (old.mode ≡ InstanceMode.managed)
    × (old.adapter ≡ still_managed.0.adapter)
    × (old.protocol_version ≡ still_managed.0.protocol_version)
discover_no_promotion_example =
    discover_no_promotion refusing readings request 2 site 5 still_managed.0 (λ node q s. refl)
      still_managed.1 still_managed.2

abbrev identity : Identity
identity = record {
  admin = record {
    id = 1;
    username = "root";
    totp_enabled = true;
    status = AdminStatus.active;
    last_login_at = none;
  };
  session_token = "a";
}
