-- ===== src/Store/Users.antt =====
-- The VPN users and the quota policies in apps/api/src/repository.ts.
pub mod Search
use awg_control.Base.{
  not, ℕ, ◌+◌, String, str_eq, Bool, true, false, ◌&&◌, ◌||◌, Option, none, some, List, [], ◌∷◌,
  ◌++◌, any, ◌==◌, leb, length, map, take, on_some, Text, codes, if◌then◌else◌,
}
use awg_control.Base.Tables.{find_where, select_where, order_by}
use awg_control.Contracts.{UserStatus, QuotaPeriod}
use awg_control.Contracts.Entities.{VpnUser, QuotaPolicy}
use awg_control.Crypto.{text_le}
use awg_control.Exec.{ok, err, other_error}
use awg_control.Panel.{Panel, Action, VpnUserRow, QuotaPolicyRow}

-- `toUser`.
unfoldable pub to_user : VpnUserRow → VpnUser
to_user row = record {
  id = row.id;
  node_id = row.node_id;
  display_name = row.display_name;
  external_reference = row.external_reference;
  status = row.status;
  notes = row.notes;
  created_at = row.created_at;
  updated_at = row.updated_at;
}

-- `toQuota`; the policy's action is always to suspend.
unfoldable pub to_quota : QuotaPolicyRow → QuotaPolicy
to_quota row = record {
  id = row.id;
  node_id = row.node_id;
  name = row.name;
  limit_bytes = row.limit_bytes;
  period = row.period;
  reset_timezone = row.reset_timezone;
  created_at = row.created_at;
  updated_at = row.updated_at;
}

pub record NewUser : Type 0 where
  pub node_id : ℕ
  pub display_name : String
  pub external_reference : Option String
  pub notes : Option String

-- `id` is the fresh UUID. PRIMARY KEY (id), and the node exists.
unfoldable pub create_user : NewUser → ℕ → ℕ → Action VpnUser
unfolding to_user
create_user input id now db =
    if any (λ u. u.id == id) db.vpn_users || not (any (λ n. n.id == input.node_id) db.nodes)
    then (err (other_error "SQLITE_CONSTRAINT"), db)
    else (ok (to_user row), record db { vpn_users = db.vpn_users ++ row ∷ [] })
  where
    row : VpnUserRow
    row = record {
      id = id;
      node_id = input.node_id;
      display_name = input.display_name;
      external_reference = input.external_reference;
      status = UserStatus.active;
      notes = input.notes;
      created_at = now;
      updated_at = now;
    }

unfoldable pub get_user : ℕ → Panel → Option VpnUser
unfolding to_user
get_user id db = elim (find_where (λ u. u.id == id) db.vpn_users) [
  | none ↦ none
  | some row ↦ some (to_user row)
]

pub record NewQuota : Type 0 where
  pub node_id : ℕ
  pub name : String
  pub limit_bytes : ℕ
  pub period : QuotaPeriod
  pub reset_timezone : String

-- PRIMARY KEY (id), UNIQUE (node_id, name), CHECK (limit_bytes > 0), and the node exists.
unfoldable pub create_quota : NewQuota → ℕ → ℕ → Action QuotaPolicy
unfolding to_quota
create_quota input id now db =
    if input.limit_bytes == 0
      || any (λ q. q.id == id || q.node_id == input.node_id && str_eq q.name input.name)
          db.quota_policies
      || not (any (λ n. n.id == input.node_id) db.nodes)
    then (err (other_error "SQLITE_CONSTRAINT"), db)
    else (ok (to_quota row), record db { quota_policies = db.quota_policies ++ row ∷ [] })
  where
    row : QuotaPolicyRow
    row = record {
      id = id;
      node_id = input.node_id;
      name = input.name;
      limit_bytes = input.limit_bytes;
      period = input.period;
      reset_timezone = input.reset_timezone;
      created_at = now;
      updated_at = now;
    }

unfoldable pub get_quota : ℕ → Panel → Option QuotaPolicy
unfolding to_quota
get_quota id db = elim (find_where (λ q. q.id == id) db.quota_policies) [
  | none ↦ none
  | some row ↦ some (to_quota row)
]

-- The text of a name, in the order of its bytes.
abbrev in_order : String → String → Bool
in_order a b = text_le (codes a) (codes b)

unfoldable pub list_quotas : Panel → List QuotaPolicy
unfolding to_quota
list_quotas db = map to_quota (order_by (λ a b. in_order a.name b.name) db.quota_policies)

-- The same letter, in whatever case: SQLite's LIKE folds ASCII.
abbrev fold : ℕ → ℕ
fold c = if leb b'A' c && leb c b'Z' then c + 32 else c

abbrev pub same_letter : ℕ → ℕ → Bool
same_letter a b = fold a == fold b

abbrev pub any_suffix : (Text → Bool) → Text → Bool
any_suffix f [] = f []
any_suffix f (c ∷ s) = f (c ∷ s) || any_suffix f s

abbrev pub on_first : (ℕ → Text → Bool) → Text → Bool
on_first f [] = false
on_first f (c ∷ s) = f c s

-- `text LIKE pattern ESCAPE '\\'`; the first argument tells whether the escape has just been read.
unfoldable pub like : Bool → Text → Text → Bool
like true [] = λ s. false
like false [] = λ s. length s == 0
like true (d ∷ p) = on_first (λ c s. same_letter d c && like false p s)
like false (d ∷ p) =
    if d == b'%'
    then any_suffix (like false p)
    else if d == b'_'
    then on_first (λ c s. like false p s)
    else if d == 92
    then like true p
    else on_first (λ c s. same_letter d c && like false p s)

-- `search.replaceAll("%", "\\%").replaceAll("_", "\\_")`
unfoldable pub escape : Text → Text
escape [] = []
escape (c ∷ s) = let rest = escape s in if c == b'%' || c == b'_' then 92 ∷ c ∷ rest else c ∷ rest

unfoldable pub matches : String → VpnUserRow → Bool
unfolding like escape
matches search u = like false (b'%' ∷ escape (codes search) ++ codes "%") (codes u.display_name)

-- An empty search is none.
unfoldable pub list_users : Option String → Panel → List VpnUser
unfolding to_user matches
list_users search db = map to_user (
    take 200 (
      order_by (λ a b. in_order a.display_name b.display_name)
        (select_where (λ u. on_some true (λ q. str_eq q "" || matches q u) search) db.vpn_users)))
