-- ===== src/Secrets.antt =====
-- The rotation of the master key by apps/api/src/cli.ts: every secret of the database is decrypted
-- with the old key and encrypted with the new one, in one transaction. AES-GCM is a parameter.
pub mod Rotation
pub mod RoundTrip
use awg_control.Base.{ℕ, String, Bool, Option, none, some, List, [], ◌∷◌, Text, length, ◌==◌, map}
use awg_control.Base.Tables.{update_where}
use awg_control.Exec.{
  Exec, other_error, pure, require, guard, gets, modify, transaction, ◌>>=◌, ◌>>◌,
}
use awg_control.Panel.{Panel, Action, AdminRow, NodeRow, SessionRow, RelayServerRow}

-- `transport-key:<id>`, `relay-transport-key:<id>` and `totp:<id>`.
pub data Purpose : Type 0 where
  transport_key relay_transport_key totp : ℕ → Purpose

-- `encryptSecret` and `decryptSecret` of apps/api/src/security/crypto.ts, with a key and a purpose;
-- the nonce of an encryption is part of the function.
pub record Cipher : Type 0 where
  pub encrypt : Text → Purpose → String → String
  pub decrypt : Text → Purpose → String → Option String

-- How a table holds its secrets: a row's id, the secret if there is one, and the row with another.
pub record Holder (Row : Type 0) : Type 0 where
  pub id : Row → ℕ
  pub value : Row → Option String
  pub set : String → Row → Row
  pub purpose : ℕ → Purpose

abbrev pub node_holder : Holder NodeRow
node_holder = record {
  id = λ n. n.id;
  value = λ n. some n.transport_private_key_encrypted;
  set = λ v n. record n { transport_private_key_encrypted = v };
  purpose = transport_key;
}

abbrev pub relay_holder : Holder RelayServerRow
relay_holder = record {
  id = λ s. s.id;
  value = λ s. some s.transport_private_key_encrypted;
  set = λ v s. record s { transport_private_key_encrypted = v };
  purpose = relay_transport_key;
}

abbrev pub admin_holder : Holder AdminRow
admin_holder = record {
  id = λ a. a.id;
  value = λ a. a.totp_secret_encrypted;
  set = λ v a. record a { totp_secret_encrypted = some v };
  purpose = totp;
}

module _ (cipher : Cipher) (key next_key : Text) where
  module _ {Row : Type 0} (holder : Holder Row) where
    -- The body of the loop: UPDATE … WHERE id = ?.
    unfoldable pub rotate_row : ℕ → Option String → Exec (List Row) (Unit {0})
    rotate_row id none = pure tt
    rotate_row id (some value) = do
      secret ←
          require (cipher.decrypt key (holder.purpose id) value)
            (other_error "invalid encrypted secret envelope")
      modify (
          update_where (λ row. holder.id row == id)
            (holder.set (cipher.encrypt next_key (holder.purpose id) secret)))

    unfoldable pub rotate_rows : List Row → Exec (List Row) (Unit {0})
    rotate_rows [] = pure tt
    rotate_rows (row ∷ rows) = do rotate_row (holder.id row) (holder.value row); rotate_rows rows

    -- The rows as they were selected, then the loop over them.
    unfoldable pub rotate_table : Exec (List Row) (Unit {0})
    rotate_table = do rows ← gets λ table. table; rotate_rows rows

  unfoldable pub in_nodes : {A : Type 0} → Exec (List NodeRow) A → Action A
  in_nodes m db = ((m db.nodes).0, record db { nodes = (m db.nodes).1 })

  unfoldable pub in_relays : {A : Type 0} → Exec (List RelayServerRow) A → Action A
  in_relays m db = ((m db.relay_servers).0, record db { relay_servers = (m db.relay_servers).1 })

  unfoldable pub in_admins : {A : Type 0} → Exec (List AdminRow) A → Action A
  in_admins m db = ((m db.admins).0, record db { admins = (m db.admins).1 })

  -- UPDATE sessions SET pending_totp_secret_encrypted = NULL.
  unfoldable pub forget_pending : Panel → Panel
  forget_pending db = record db { sessions = map forget db.sessions }
    where
      forget : SessionRow → SessionRow
      forget row = record row { pending_totp_secret_encrypted = none }

  unfoldable pub rotate_master_key : Action (Unit {0})
  rotate_master_key = do
    guard (length next_key == 32) (other_error "new master key must contain exactly 32 bytes")
    transaction do
      in_nodes (rotate_table node_holder)
      in_relays (rotate_table relay_holder)
      in_admins (rotate_table admin_holder)
      modify forget_pending
