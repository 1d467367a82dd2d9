-- ===== src/Tests/Handlers.antt =====
-- The theorems on the handlers at concrete inputs.
use awg_control.Base.{◌≡◌, refl, true, false, none, some, arith}
use awg_control.Base.Tables.{find_where}
use awg_control.Exec.{err}
use awg_control.Auth.Login.{LoginBody}
use awg_control.Routes.Lifecycle.{suspend, change_connection}
use awg_control.Routes.Lifecycle.Safety.{Declines, change_connection_declined}
use awg_control.Tests.Data.{hashes, readings, request, site, refusing}
use awg_control.Exec.{Failure, ok}
use awg_control.Panel.{Panel, IdempotencyStatus}
use awg_control.Http.{operation_id}
use awg_control.Store.Idempotency.{
  begin_idempotency, is_record_of, idempotency_result, IdempotencyResult,
}
use awg_control.Routes.Issuance.{ConnectionBody, issue_scope, issue_connection}
use awg_control.Routes.Issuance.Once.{issue_connection_once}

abbrev login_body : LoginBody
login_body = record {
  username = "root";
  password = "password";
  totp = some "123456";
  recovery_code = none;
  remember_device = true;
  device_label = none;
}

refusing_declines : Declines refusing hashes readings request suspend
refusing_declines node q s = (refl, λ a e. ground (arith, e))

change_connection_declined_example :
    (change_connection refusing hashes readings request suspend 8 false site).1.connections
    ≡ site.connections
change_connection_declined_example =
    change_connection_declined refusing hashes readings request suspend 8 false site
      refusing_declines

abbrev connection_body : ConnectionBody
connection_body = record {
  instance_id = 5;
  name = "phone";
  expires_at = none;
  quota_policy_id = none;
}

-- The panel after a request with the key has begun.
abbrev begun : Panel
begun = (begin_idempotency (issue_scope 7) "key-1" "first" 5 site).1

abbrev earlier : IdempotencyResult
earlier = record { status = IdempotencyStatus.started; result_id = none; error_code = none }

key_is_held : idempotency_result (issue_scope 7) "key-1" begun ≡ some earlier
unfolding begin_idempotency idempotency_result find_where is_record_of
key_is_held = refl

key_is_named : (operation_id request begun).0 ≡ ok "key-1"
unfolding operation_id
key_is_named = refl

issue_connection_once_example :
    (e : Failure) × (issue_connection refusing hashes readings request 7 connection_body begun
      ≡ (err e, begun))
issue_connection_once_example =
    issue_connection_once refusing hashes readings request 7 connection_body "key-1" begun earlier
      key_is_named key_is_held
