-- ===== src/Secrets/RoundTrip.antt =====
-- The secrets of the database after the master key has been rotated.
use mathlib.Core.Path.{subst}
use awg_control.Base.{
  [], ◌∷◌, All, true, Option, none, Option-cases, Bool-cases, inl, inr, ℕ, ◌≡◌, refl, ap, sym, ◌∙◌,
  String, some, List, Text, arith, ◌==◌,
}
use awg_control.Base.Tables.{find_where, find_last}
use awg_control.Exec.{ok, ◌>>=◌, guard, transaction, modify, gets}
use awg_control.Panel.{Panel}
use awg_control.Secrets.{
  Purpose, transport_key, relay_transport_key, totp, Cipher, Holder, node_holder, relay_holder,
  admin_holder, rotate_rows, rotate_table, in_nodes, in_relays, in_admins, forget_pending,
  rotate_master_key,
}
use awg_control.Secrets.Rotation.{IsLawful, rows_rekeyed, rows_bare}

node-IsLawful : IsLawful node_holder
node-IsLawful = record { same_id = λ v row. refl; has_value = λ v row. refl }

relay-IsLawful : IsLawful relay_holder
relay-IsLawful = record { same_id = λ v row. refl; has_value = λ v row. refl }

admin-IsLawful : IsLawful admin_holder
admin-IsLawful = record { same_id = λ v row. refl; has_value = λ v row. refl }

module _ (cipher : Cipher) (key next_key : Text) where
  -- A rotation that returns has gone through the three tables.
  record Rotated (db s : Panel) : Type 0 where
    nodes_ok : (rotate_table cipher key next_key node_holder db.nodes).0 ≡ ok tt
    nodes_are : s.nodes ≡ (rotate_table cipher key next_key node_holder db.nodes).1
    relays_ok : (rotate_table cipher key next_key relay_holder db.relay_servers).0 ≡ ok tt
    relays_are :
        s.relay_servers ≡ (rotate_table cipher key next_key relay_holder db.relay_servers).1
    admins_ok : (rotate_table cipher key next_key admin_holder db.admins).0 ≡ ok tt
    admins_are : s.admins ≡ (rotate_table cipher key next_key admin_holder db.admins).1

  rotated :
      (db : Panel)
      → (rotate_master_key cipher key next_key db).0 ≡ ok tt
      → Rotated db (rotate_master_key cipher key next_key db).1
  unfolding rotate_master_key ◌>>=◌ guard transaction in_nodes in_relays in_admins modify
      forget_pending
  rotated db e = record {
    nodes_ok = ground (arith, e);
    nodes_are = ground (arith, e);
    relays_ok = ground (arith, e);
    relays_are = ground (arith, e);
    admins_ok = ground (arith, e);
    admins_are = ground (arith, e);
  }

-- The ids of a table are those of one row each: a row is the one that its id finds.
abbrev pub AreKeyed : {Row : Type 0} → (Row → ℕ) → List Row → Type 0
AreKeyed id_of table = All (λ row. find_where (λ x. id_of x == id_of row) table ≡ some row) table

-- What was encrypted with a key is decrypted with it, for the same purpose.
abbrev pub IsInverse : Cipher → Type 0
IsInverse cipher =
    (key : Text) (purpose : Purpose) (secret : String)
    → cipher.decrypt key purpose (cipher.encrypt key purpose secret) ≡ some secret

abbrev pub and_then : {A B : Type 0} → Option A → (A → Option B) → Option B
and_then none f = none
and_then (some a) f = f a

-- The encrypted secret of a row of a table, if the row is there and has one.
abbrev pub value_at : {Row : Type 0} → Holder Row → ℕ → List Row → Option String
value_at holder id table = and_then (find_where (λ row. holder.id row == id) table) holder.value

-- The encrypted secret for a purpose.
abbrev pub encrypted_for : Purpose → Panel → Option String
encrypted_for (transport_key id) db = value_at node_holder id db.nodes
encrypted_for (relay_transport_key id) db = value_at relay_holder id db.relay_servers
encrypted_for (totp id) db = value_at admin_holder id db.admins

-- What a key opens for a purpose: none where there is no secret, and where the key does not fit.
abbrev pub opened : Cipher → Text → Purpose → Panel → Option String
opened cipher key purpose db = and_then (encrypted_for purpose db) (cipher.decrypt key purpose)

All-map :
    {A : Type 0} (P Q : A → Type 0) (xs : List A) → ((a : A) → P a → Q a) → All P xs → All Q xs
All-map P Q [] f h = tt
All-map P Q (x ∷ xs) f h = (f x h.0, All-map P Q xs f h.1)

module _ {Row : Type 0} (holder : Holder Row) (table : List Row) (k : ℕ) where
  found_by_key :
      (row : Row)
      → find_where (λ x. holder.id x == holder.id row) table ≡ some row
      → (holder.id row == k) ≡ true
      → find_where (λ x. holder.id x == k) table ≡ some row
  found_by_key row h e =
      let same : holder.id row ≡ k = ground (arith, e) in
      subst (λ j. find_where (λ x. holder.id x == j) table ≡ some row) same h

  -- Without a secret under the id, every row with the id is bare.
  rows_are_bare :
      AreKeyed holder.id table
      → value_at holder k table ≡ none
      → All (λ row. (holder.id row == k) ≡ true → holder.value row ≡ none) table
  rows_are_bare keyed h =
      All-map _ _ table
        (λ row f e. ap (λ o. and_then o holder.value) (sym (found_by_key row f e)) ∙ h) keyed

  -- Every row with the id is the one that is found.
  rows_are_old :
      (old : Row)
      → AreKeyed holder.id table
      → find_where (λ x. holder.id x == k) table ≡ some old
      → All (λ row. (holder.id row == k) ≡ true → row ≡ old) table
  rows_are_old old keyed h =
      All-map _ _ table
        (λ row f e.
          let both : some row ≡ some old = sym (found_by_key row f e) ∙ h in ground (arith, both))
        keyed

  last_is :
      (old : Row) (rows : List Row)
      → All (λ row. (holder.id row == k) ≡ true → row ≡ old) rows
      → find_where (λ x. holder.id x == k) rows ≡ some old
      → find_last (λ x. holder.id x == k) rows ≡ some old
  unfolding find_last find_where
  last_is old [] a h = absurd cc
  last_is old (r ∷ rows) a h = elim (Option-cases (find_last (λ x. holder.id x == k) rows)) [
    | inr (x, n) ↦ rw (n, find_last) (ap some (last_old rows x a.1 n))
    | inl n ↦ elim (Bool-cases (holder.id r == k)) [
      | inl e ↦ rw (n, e, find_last) (ap some (a.0 e))
      | inr e ↦
          let later : find_last (λ x. holder.id x == k) rows ≡ some old =
            last_is old rows a.1 (ground (arith, h, e)) in
          absurd (ground (arith, later, n))
    ]
  ]
    where
      last_old :
          (rows : List Row) (x : Row)
          → All (λ row. (holder.id row == k) ≡ true → row ≡ old) rows
          → find_last (λ x. holder.id x == k) rows ≡ some x
          → x ≡ old
      last_old [] x a n = absurd cc
      last_old (r ∷ rows) x a n = elim (Option-cases (find_last (λ x. holder.id x == k) rows)) [
        | inr (y, m) ↦ last_old rows x a.1 (m ∙ ground (arith, n, m))
        | inl m ↦ elim (Bool-cases (holder.id r == k)) [
          | inl e ↦ let mine : r ≡ x = ground (arith, n, m, e) in sym mine ∙ a.0 e
          | inr e ↦ absurd (ground (arith, n, m, e))
        ]
      ]

module _ (cipher : Cipher) (inverse : IsInverse cipher) (key next_key : Text) where
  table_round_trip :
      {Row : Type 0} (holder : Holder Row) (table : List Row) (id : ℕ)
      → IsLawful holder
      → AreKeyed holder.id table
      → (rotate_table cipher key next_key holder table).0 ≡ ok tt
      → and_then
          (value_at holder id (rotate_table cipher key next_key holder table).1)
          (cipher.decrypt next_key (holder.purpose id))
        ≡ and_then (value_at holder id table) (cipher.decrypt key (holder.purpose id))
  unfolding rotate_table ◌>>=◌ gets
  table_round_trip holder table id lawful keyed done =
      elim (Option-cases (find_where (λ row. holder.id row == id) table)) [
        | inl n ↦ bare (ap (λ o. and_then o holder.value) n)
        | inr (old, found) ↦ elim (Option-cases (holder.value old)) [
          | inl n ↦ bare (ap (λ o. and_then o holder.value) found ∙ n)
          | inr (value, held) ↦
              let (new, f, (secret, d, w)) =
                rows_rekeyed cipher key next_key holder lawful table table id old old value done
                  found
                  (last_is holder table id old table (rows_are_old holder table id old keyed found)
                    found)
                  held in
              rw (f, w, inverse next_key (holder.purpose id) secret, found, held, d) refl
        ]
      ]
    where
      bare :
          value_at holder id table ≡ none
          → and_then
              (value_at holder id (rotate_rows cipher key next_key holder table table).1)
              (cipher.decrypt next_key (holder.purpose id))
            ≡ and_then (value_at holder id table) (cipher.decrypt key (holder.purpose id))
      bare h =
          let same =
            rows_bare cipher key next_key holder lawful table table id done
              (rows_are_bare holder table id keyed h) in
          rw (same, h) refl

-- Where a rotation of the master key returns, the new key opens, for every purpose, what the old key
-- opened: the transport key of any node and of any relay and the TOTP secret of any administrator,
-- where there is one, are decrypted with the new key to what the old key gave, if the cipher decrypts
-- what it encrypts and ids are unique in their tables.
pub rotate_master_key_round_trip :
    (cipher : Cipher) (key next_key : Text) (db : Panel) (purpose : Purpose)
    → IsInverse cipher
    → AreKeyed (λ n. n.id) db.nodes
    → AreKeyed (λ s. s.id) db.relay_servers
    → AreKeyed (λ a. a.id) db.admins
    → (rotate_master_key cipher key next_key db).0 ≡ ok tt
    → opened cipher next_key purpose (rotate_master_key cipher key next_key db).1
      ≡ opened cipher key purpose db
rotate_master_key_round_trip cipher key next_key db (transport_key id) inverse nodes relays admins
      e =
    let h = rotated cipher key next_key db e in
    ap (λ t. and_then (value_at node_holder id t) (cipher.decrypt next_key (transport_key id)))
      h.nodes_are
    ∙ table_round_trip cipher inverse key next_key node_holder db.nodes id node-IsLawful nodes
        h.nodes_ok
rotate_master_key_round_trip cipher key next_key db (relay_transport_key id) inverse nodes relays
      admins e =
    let h = rotated cipher key next_key db e in
    ap
      (λ t.
        and_then (value_at relay_holder id t) (cipher.decrypt next_key (relay_transport_key id)))
      h.relays_are
    ∙ table_round_trip cipher inverse key next_key relay_holder db.relay_servers id relay-IsLawful
        relays h.relays_ok
rotate_master_key_round_trip cipher key next_key db (totp id) inverse nodes relays admins e =
    let h = rotated cipher key next_key db e in
    ap (λ t. and_then (value_at admin_holder id t) (cipher.decrypt next_key (totp id))) h.admins_are
    ∙ table_round_trip cipher inverse key next_key admin_holder db.admins id admin-IsLawful admins
        h.admins_ok
