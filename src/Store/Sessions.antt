-- ===== src/Store/Sessions.antt =====
-- The sessions of administrators in apps/api/src/repository.ts. `now` is the clock's reading.
pub mod Lifetime
pub mod Revocation
use awg_control.Base.{
  ℕ, ◌+◌, ◌*◌, String, str_eq, Bool, true, false, not, ◌&&◌, ◌||◌, Option, none, some, List, [],
  ◌∷◌, ◌++◌, map, ltb, leb, ◌==◌, if◌then◌else◌, is_some, on_some, Text, has_char, split, join,
  take, length, codes, any,
}
use awg_control.Base.Tables.{
  find_where, select_where, update_where, delete_where, count_where, order_by,
}
use awg_control.Contracts.{SessionKind, is_active_admin, is_remembered}
use awg_control.Contracts.Entities.{Admin, AdminSession}
use awg_control.Crypto.{Hashes, hash_opaque}
use awg_control.Exec.{ok, err, other_error}
use awg_control.Panel.{Panel, Action, AdminRow, SessionRow}

-- `toAdmin`.
unfoldable pub to_admin : AdminRow → Admin
to_admin row = record {
  id = row.id;
  username = row.username;
  totp_enabled = row.totp_enabled;
  status = row.status;
  last_login_at = row.last_login_at;
}

pub record SessionRecord : Type 0 where
  pub admin : Admin
  pub public_id : ℕ
  pub kind : SessionKind
  pub expires_at : ℕ
  pub idle_expires_at : Option ℕ
  pub pending_totp_secret_encrypted : Option String

pub record NewSession : Type 0 where
  pub admin_id : ℕ
  pub token : String
  pub kind : SessionKind
  pub expires_at : ℕ
  pub idle_expires_at : Option ℕ
  pub remote_address : Option Text
  pub device_label : Option String

-- `redactAddress`: three groups of an IPv6 address, three octets of an IPv4 address.
unfoldable pub redact_text : Text → Text
redact_text address =
    if has_char b':' address
    then join b':' (take 3 (split b':' address)) ++ codes ":…"
    else let parts = split b'.' address in
      if length parts == 4 then join b'.' (take 3 parts) ++ codes ".xxx" else codes "redacted"

unfoldable pub redact_address : Option Text → Option Text
unfolding redact_text
redact_address none = none
redact_address (some []) = none
redact_address (some (c ∷ s)) = some (redact_text (c ∷ s))

-- Neither revoked nor past its absolute or its idle expiry.
unfoldable pub is_current : ℕ → SessionRow → Bool
is_current now row =
    not (is_some row.revoked_at)
    && ltb now row.expires_at
    && on_some true (ltb now) row.idle_expires_at

-- JOIN admins a ON a.id = s.admin_id
unfoldable pub owner : List AdminRow → SessionRow → Option AdminRow
owner admins row = find_where (λ a. a.id == row.admin_id) admins

abbrev pub to_session : SessionRow → AdminRow → SessionRecord
to_session row a = record {
  admin = to_admin a;
  public_id = row.public_id;
  kind = row.session_kind;
  expires_at = row.expires_at;
  idle_expires_at = row.idle_expires_at;
  pending_totp_secret_encrypted = row.pending_totp_secret_encrypted;
}

-- The answer of `getSession`, from the row that its query selects.
unfoldable pub session_of : List AdminRow → Option SessionRow → Option SessionRecord
unfolding to_admin owner
session_of admins none = none
session_of admins (some row) = elim (owner admins row) [
  | none ↦ none
  | some a ↦ some (to_session row a)
]

unfoldable pub touched : ℕ → ℕ → SessionRow → SessionRow
touched idle now row = record row {
  last_seen_at = now;
  idle_expires_at = some (if ltb idle row.expires_at then idle else row.expires_at);
}

abbrev pub revoked : ℕ → SessionRow → SessionRow
revoked now row = record row { revoked_at = some now }

abbrev pub is_session_of : ℕ → ℕ → SessionRow → Bool
is_session_of admin_id public_id row =
    row.admin_id == admin_id && row.public_id == public_id && not (is_some row.revoked_at)

unfoldable pub revoke_session : ℕ → ℕ → ℕ → Panel → ℕ × Panel
revoke_session admin_id public_id now db = (
  count_where (is_session_of admin_id public_id) db.sessions,
  record db {
    sessions = update_where (is_session_of admin_id public_id) (revoked now) db.sessions;
  },
)

module _ (hashes : Hashes) where
  abbrev pub has_token : String → SessionRow → Bool
  has_token token row = str_eq row.id_hash (hash_opaque hashes token)

  -- PRIMARY KEY (id_hash), UNIQUE (public_id), and the administrator of a session exists.
  unfoldable pub session_fits : NewSession → ℕ → Panel → Bool
  session_fits input public_id db =
      not (any (λ row. has_token input.token row || row.public_id == public_id) db.sessions)
      && any (λ a. a.id == input.admin_id) db.admins

  unfoldable pub create_session : NewSession → ℕ → ℕ → Action (Unit {0})
  unfolding session_fits
  create_session input now public_id db =
      if session_fits input public_id db
      then (ok tt, record db { sessions = db.sessions ++ row ∷ [] })
      else (err (other_error "SQLITE_CONSTRAINT"), db)
    where
      row : SessionRow
      row = record {
        id_hash = hash_opaque hashes input.token;
        public_id = public_id;
        admin_id = input.admin_id;
        session_kind = input.kind;
        expires_at = input.expires_at;
        idle_expires_at = input.idle_expires_at;
        created_at = now;
        last_seen_at = now;
        remote_address = input.remote_address;
        device_label = input.device_label;
        revoked_at = none;
        pending_totp_secret_encrypted = none;
      }

  -- The row that the query of `getSession` selects.
  unfoldable pub selects : String → ℕ → List AdminRow → SessionRow → Bool
  unfolding is_current owner
  selects token now admins row =
      has_token token row
      && is_current now row
      && on_some false (λ a. is_active_admin a.status) (owner admins row)

  unfoldable pub get_session : String → ℕ → Panel → Option SessionRecord
  unfolding selects session_of
  get_session token now db =
      session_of db.admins (find_where (selects token now db.admins) db.sessions)

  -- `threshold = now - writeInterval` is compared as `last_seen_at + writeInterval ≤ now`.
  unfoldable pub touches : String → ℕ → ℕ → SessionRow → Bool
  touches token write_interval_seconds now row =
      has_token token row
      && is_remembered row.session_kind
      && not (is_some row.revoked_at)
      && leb (row.last_seen_at + write_interval_seconds * 1000) now
      && ltb now row.expires_at
      && on_some false (ltb now) row.idle_expires_at

  unfoldable pub touch_session : String → ℕ → ℕ → ℕ → Panel → Panel
  unfolding touches touched
  touch_session token idle_ttl_seconds write_interval_seconds now db = record db {
    sessions =
        update_where (touches token write_interval_seconds now)
          (touched (now + idle_ttl_seconds * 1000) now) db.sessions;
  }

  unfoldable pub delete_session : String → Panel → Panel
  delete_session token db = record db { sessions = delete_where (has_token token) db.sessions }

  abbrev to_admin_session : String → SessionRow → AdminSession
  to_admin_session current_token row = record {
    id = row.public_id;
    kind = row.session_kind;
    current = has_token current_token row;
    device_label = row.device_label;
    created_at = row.created_at;
    last_seen_at = row.last_seen_at;
    expires_at = row.expires_at;
    idle_expires_at = row.idle_expires_at;
    remote_address = redact_address row.remote_address;
  }

  unfoldable pub list_sessions : ℕ → String → ℕ → Panel → List AdminSession
  unfolding is_current
  list_sessions admin_id current_token now db = map (to_admin_session current_token) (
      order_by (λ a b. leb b.last_seen_at a.last_seen_at)
        (select_where (λ row. row.admin_id == admin_id && is_current now row) db.sessions))

  abbrev pub is_other_session : ℕ → String → SessionRow → Bool
  is_other_session admin_id current_token row =
      row.admin_id == admin_id && not (has_token current_token row) && not (is_some row.revoked_at)

  unfoldable pub revoke_other_sessions : ℕ → String → ℕ → Panel → ℕ × Panel
  revoke_other_sessions admin_id current_token now db = (
    count_where (is_other_session admin_id current_token) db.sessions,
    record db {
      sessions = update_where (is_other_session admin_id current_token) (revoked now) db.sessions;
    },
  )

  unfoldable pub set_pending_totp : String → Option String → Panel → Panel
  set_pending_totp token encrypted_secret db = record db {
    sessions =
        update_where (has_token token)
          (λ row. record row { pending_totp_secret_encrypted = encrypted_secret }) db.sessions;
  }

-- `expires_at <= now OR idle_expires_at <= now OR revoked_at <= now - 7 days`.
unfoldable pub is_stale : ℕ → SessionRow → Bool
is_stale now row =
    leb row.expires_at now
    || on_some false (λ t. leb t now) row.idle_expires_at
    || on_some false (λ t. leb (t + 7 * 86_400_000) now) row.revoked_at

unfoldable pub prune_sessions : ℕ → Panel → Panel
unfolding is_stale
prune_sessions now db = record db { sessions = delete_where (is_stale now) db.sessions }
