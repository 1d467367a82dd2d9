-- ===== src/Tests/Store.antt =====
-- The theorems on the store at concrete inputs.
use awg_control.Base.{
  ℕ, ◌+◌, ◌≤◌, ◌≡◌, ◌≢◌, refl, ap, false, none, some, List, [], ◌∷◌, arith, sum_by, codes,
}
use awg_control.Base.Tables.{find_where, update_where}
use awg_control.Contracts.{SessionKind}
use awg_control.Crypto.{obj, member, end, num, request_fingerprint}
use awg_control.Crypto.Canonical.{swap, request_fingerprint-Reordered}
use awg_control.Panel.{Panel, BucketKind, IdempotencyStatus, Scope, ConnectionRow, SessionRow}
use awg_control.Store.Sessions.{
  get_session, touch_session, prune_sessions, revoke_session, revoke_other_sessions, SessionRecord,
}
use awg_control.Store.Sessions.Lifetime.{touch_session_no_revival, get_session-prune_sessions}
use awg_control.Store.Sessions.Revocation.{revoke_session_ends, revoke_other_sessions_ends}
use awg_control.Store.Admins.{consume_recovery_code}
use awg_control.Store.Admins.Recovery.{consume_recovery_code_once}
use awg_control.Store.Connections.{has_id}
use awg_control.Store.Traffic.{
  Sample, update_traffic, record_traffic, counted, is_reset, delta_rx, delta_tx,
}
use awg_control.Store.Traffic.Counters.{poll, AllCounted, poll_exact}
use awg_control.Store.Traffic.Conservation.{
  rx_in, tx_in, IsBalanced, poll_balances, poll-IsBalanced,
}
use awg_control.Store.Idempotency.{
  is_record_of, begin_idempotency, finish_idempotency, idempotency_result,
}
use awg_control.Store.Idempotency.Laws.{finish_idempotency_outcome}
use awg_control.Tests.Data.{hashes, site, calendar, site-IsBalanced, admin}
use awg_control.Contracts.{QuotaPeriod}
use awg_control.Panel.{QuotaPolicyRow}
use awg_control.Store.Policies.{usage}
use awg_control.Store.Policies.Bounds.{usage_bound}

abbrev monthly : QuotaPolicyRow
monthly = record {
  id = 1;
  node_id = 2;
  name = "monthly";
  limit_bytes = 1_000;
  period = QuotaPeriod.month;
  reset_timezone = "UTC";
  created_at = 0;
  updated_at = 0;
}

no_session : get_session hashes "c" 5 site ≡ none
unfolding get_session find_where
no_session = refl

touch_session_no_revival_example :
    get_session hashes "c" 7 (touch_session hashes "a" 60 30 5 site) ≡ none
touch_session_no_revival_example =
    touch_session_no_revival hashes "c" "a" 60 30 5 7 site (omega arith) no_session

get_session-prune_sessions_example :
    get_session hashes "a" 7 (prune_sessions 5 site) ≡ get_session hashes "a" 7 site
get_session-prune_sessions_example = get_session-prune_sessions hashes "a" 5 7 site (omega arith)

has_session :
    (t : SessionRecord) × (get_session hashes "a" 5 (revoke_session 1 22 5 site).1 ≡ some t)
unfolding get_session find_where revoke_session update_where
has_session = (_, refl)

revoke_session_ends_example : ¬ ((has_session.0.public_id ≡ 22) × (has_session.0.admin.id ≡ 1))
revoke_session_ends_example =
    revoke_session_ends hashes "a" 5 5 1 22 site has_session.0 has_session.1

abbrev bystander : SessionRow
bystander = record {
  id_hash = "z";
  public_id = 30;
  admin_id = 6;
  session_kind = SessionKind.short;
  expires_at = 9_000_000;
  idle_expires_at = none;
  created_at = 0;
  last_seen_at = 0;
  remote_address = none;
  device_label = none;
  revoked_at = none;
  pending_totp_secret_encrypted = none;
}

-- A panel with a second administrator, whose session stays.
abbrev two_admins : Panel
two_admins = record site {
  admins = record admin { id = 6; username = "other" } ∷ site.admins;
  sessions = bystander ∷ site.sessions;
}

other_session :
    (t : SessionRecord) × (get_session hashes "z" 5
        (revoke_other_sessions hashes 1 "a" 5 two_admins).1
      ≡ some t)
unfolding get_session find_where revoke_other_sessions update_where
other_session = (_, refl)

revoke_other_sessions_ends_example : other_session.0.admin.id ≢ 1
revoke_other_sessions_ends_example =
    revoke_other_sessions_ends hashes "z" "a" 5 5 1 two_admins other_session.0
      (λ e. ground (arith, ap codes e)) other_session.1

consume_recovery_code_once_example :
    (consume_recovery_code 1 "code" 6 (consume_recovery_code 1 "code" 5 site).1).0 ≡ false
consume_recovery_code_once_example = consume_recovery_code_once 1 5 6 "code" site

abbrev samples : List (Sample × ℕ)
samples =
    (record { connection_id = 8; rx = 100; tx = 40; last_handshake_at = some 5 }, 10)
    ∷ (record { connection_id = 8; rx = 130; tx = 70; last_handshake_at = some 9 }, 20)
    ∷ []

polled :
    (c : ConnectionRow) × (find_where (has_id 8) (poll samples site).connections ≡ some c)
    × (c.counter_epoch ≡ 0)
    × (c.quota_override_at ≡ none)
unfolding poll update_traffic record_traffic counted find_where update_where delta_rx delta_tx
    is_reset
polled = (_, refl, refl, refl)

site-AllCounted : AllCounted site
unfolding find_where
site-AllCounted id c e = ground (arith, e)

poll_exact_example :
    (polled.0.rx_bytes_total ≡ polled.0.last_counter_rx)
    × (polled.0.tx_bytes_total ≡ polled.0.last_counter_tx)
poll_exact_example = poll_exact samples site 8 polled.0 site-AllCounted polled.1 polled.2

poll_balances_example :
    (sum_by (rx_in 8 BucketKind.hourly) (poll samples site).rollups ≡ polled.0.rx_bytes_total)
    × (sum_by (tx_in 8 BucketKind.hourly) (poll samples site).rollups ≡ polled.0.tx_bytes_total)
poll_balances_example =
    poll_balances samples site BucketKind.hourly 8 polled.0 site-IsBalanced polled.1

abbrev scope : Scope
scope = record { prefix = "connections.suspend"; subject = some 8 }

abbrev started_site : Panel
started_site = (begin_idempotency scope "key" "first" 5 site).1

is_started : idempotency_result scope "key" started_site ≢ none
unfolding begin_idempotency find_where idempotency_result is_record_of
is_started = λ e. cc

finish_idempotency_outcome_example :
    idempotency_result scope "key"
      (finish_idempotency scope "key" IdempotencyStatus.succeeded (some 8) none 7 started_site)
    ≡ some (record { status = IdempotencyStatus.succeeded; result_id = some 8; error_code = none })
finish_idempotency_outcome_example =
    finish_idempotency_outcome scope "key" IdempotencyStatus.succeeded (some 8) none 7 started_site
      is_started

request_fingerprint-Reordered_example :
    request_fingerprint hashes (obj (member "a" (num 1) (member "b" (num 2) end)))
    ≡ request_fingerprint hashes (obj (member "b" (num 2) (member "a" (num 1) end)))
request_fingerprint-Reordered_example =
    request_fingerprint-Reordered hashes (swap "a" "b" (num 1) (num 2) end (λ e. ground (arith, e)))

poll-site-IsBalanced : IsBalanced (poll samples site)
poll-site-IsBalanced = poll-IsBalanced samples site site-IsBalanced

usage_bound_example :
    (usage calendar 30 polled.0 (some monthly) (poll samples site).rollups).0
    ≤ polled.0.rx_bytes_total + polled.0.tx_bytes_total
usage_bound_example =
    usage_bound calendar 30 8 (some monthly) polled.0 (poll samples site) poll-site-IsBalanced
      polled.1 polled.3
