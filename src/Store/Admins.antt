-- ===== src/Store/Admins.antt =====
-- The administrators and their recovery codes in apps/api/src/repository.ts.
pub mod Recovery
use awg_control.Base.{
  ℕ, String, str_eq, Bool, true, false, not, ◌&&◌, Option, none, some, List, [], ◌∷◌, ◌++◌, map,
  length, ◌||◌, any, ◌==◌, is_some, if◌then◌else◌,
}
use awg_control.Base.Tables.{find_where, update_where, delete_where, count_where}
use awg_control.Contracts.{AdminStatus}
use awg_control.Contracts.Entities.{Admin}
use awg_control.Exec.{ok, err, other_error}
use awg_control.Panel.{Panel, Action, AdminRow, RecoveryCodeRow}
use awg_control.Store.Sessions.{to_admin}

pub record AdminSecretRecord : Type 0 where
  pub id : ℕ
  pub username : String
  pub password_hash : String
  pub totp_enabled : Bool
  pub totp_secret_encrypted : Option String
  pub status : AdminStatus

unfoldable pub count_admins : Panel → ℕ
count_admins db = length db.admins

unfoldable pub get_admin : ℕ → Panel → Option Admin
unfolding to_admin
get_admin id db = elim (find_where (λ a. a.id == id) db.admins) [
  | none ↦ none
  | some row ↦ some (to_admin row)
]

abbrev pub to_secret_record : AdminRow → AdminSecretRecord
to_secret_record row = record {
  id = row.id;
  username = row.username;
  password_hash = row.password_hash;
  totp_enabled = row.totp_enabled;
  totp_secret_encrypted = row.totp_secret_encrypted;
  status = row.status;
}

-- `same_name` is SQLite's comparison under COLLATE NOCASE.
unfoldable pub find_admin_secret_by_username :
    (String → String → Bool) → String → Panel → Option AdminSecretRecord
find_admin_secret_by_username same_name username db =
    elim (find_where (λ a. same_name a.username username) db.admins) [
      | none ↦ none
      | some row ↦ some (to_secret_record row)
    ]

-- PRIMARY KEY (id), UNIQUE (username COLLATE NOCASE).
unfoldable pub create_admin : (String → String → Bool) → String → String → ℕ → ℕ → Action Admin
unfolding to_admin
create_admin same_name username password_hash id now db =
    if any (λ a. a.id == id || same_name a.username username) db.admins
    then (err (other_error "SQLITE_CONSTRAINT"), db)
    else (ok (to_admin row), record db { admins = db.admins ++ row ∷ [] })
  where
    row : AdminRow
    row = record {
      id = id;
      username = username;
      password_hash = password_hash;
      totp_enabled = false;
      totp_secret_encrypted = none;
      status = AdminStatus.active;
      last_login_at = none;
      created_at = now;
      updated_at = now;
    }

unfoldable pub update_admin_login : ℕ → ℕ → Panel → Panel
update_admin_login id now db = record db {
  admins =
      update_where (λ a. a.id == id) (λ a. record a { last_login_at = some now; updated_at = now })
        db.admins;
}

abbrev new_code : ℕ → ℕ → String → RecoveryCodeRow
new_code admin_id now hash = record {
  admin_id = admin_id;
  code_hash = hash;
  used_at = none;
  created_at = now;
}

unfoldable pub enable_totp : ℕ → String → List String → ℕ → Panel → Panel
enable_totp admin_id encrypted_secret recovery_code_hashes now db = record db {
  admins =
      update_where (λ a. a.id == admin_id)
        (λ a. record a {
          totp_enabled = true;
          totp_secret_encrypted = some encrypted_secret;
          updated_at = now;
        })
        db.admins;
  recovery_codes =
      delete_where (λ c. c.admin_id == admin_id) db.recovery_codes
      ++ map (new_code admin_id now) recovery_code_hashes;
}

-- `admin_id = ? AND code_hash = ? AND used_at IS NULL`
abbrev pub is_unused_code : ℕ → String → RecoveryCodeRow → Bool
is_unused_code admin_id hash row =
    row.admin_id == admin_id && str_eq row.code_hash hash && not (is_some row.used_at)

-- `hash` is the hash of the code, trimmed and in upper case.
unfoldable pub consume_recovery_code : ℕ → String → ℕ → Panel → Bool × Panel
consume_recovery_code admin_id hash now db = (
  count_where (is_unused_code admin_id hash) db.recovery_codes == 1,
  record db {
    recovery_codes =
        update_where (is_unused_code admin_id hash) (λ row. record row { used_at = some now })
          db.recovery_codes;
  },
)
