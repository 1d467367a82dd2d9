-- ===== src/Store/Sessions/Revocation.antt =====
-- What revoking and deleting sessions does to the tokens that had them.
use awg_control.Base.{
  ℕ, ◌≡◌, ◌≢◌, sym, ◌∙◌, ap, str_eq_iff, String, true, false, List, none, some, arith,
  if◌then◌else◌, Option-cases, inl, inr, ==_iff, ◌==◌,
}
use awg_control.Base.Tables.{find_where}
use awg_control.Base.Tables.Laws.{
  find_where_sound, find_where-update_where_sound, find_where-update_where_same,
  find_where-delete_where, find_where-delete_where-none,
}
use awg_control.Crypto.{Hashes, hash_opaque}
use awg_control.Panel.{Panel, SessionRow, AdminRow}
use awg_control.Store.Sessions.{
  SessionRecord, to_admin, has_token, owner, selects, get_session, session_of, is_session_of,
  revoked, revoke_session, is_other_session, revoke_other_sessions, delete_session,
}
use awg_control.Store.Sessions.Lifetime.{get_session-none}

-- The administrator that a join finds has the id that the session names.
owner-id :
    (admins : List AdminRow) (row : SessionRow) (a : AdminRow)
    → owner admins row ≡ some a
    → a.id ≡ row.admin_id
unfolding owner
owner-id admins row a h =
    (==_iff a.id row.admin_id).0 (find_where_sound (λ b. b.id == row.admin_id) admins a h)

module _ (hashes : Hashes) where
  -- The row behind a session.
  pub get_session-row :
      (t : String) (now : ℕ) (db : Panel) (r : SessionRecord)
      → get_session hashes t now db ≡ some r
      → (row : SessionRow) × (find_where (selects hashes t now db.admins) db.sessions ≡ some row)
        × (r.public_id ≡ row.public_id)
        × (r.admin.id ≡ row.admin_id)
  get_session-row t now db r e =
      elim (Option-cases (find_where (selects hashes t now db.admins) db.sessions)) [
        | inl h ↦ unfold get_session in absurd (ground arith)
        | inr (row, h) ↦ (
          row,
          h,
          unfold get_session to_admin in ground arith,
          elim (Option-cases (owner db.admins row)) [
            | inl o ↦ unfold get_session in absurd (ground arith)
            | inr (a, o) ↦ unfold get_session to_admin in ground (arith, owner-id db.admins row a o)
          ],
        )
      ]

  revoked_row :
      (t : String) (now at admin_id public_id : ℕ) (admins : List AdminRow) (row : SessionRow)
      → selects hashes t now admins
          (if is_session_of admin_id public_id row then revoked at row else row)
        ≡ true
      → ¬ (
          (if is_session_of admin_id public_id row then revoked at row else row).public_id
            ≡ public_id
          × ((if is_session_of admin_id public_id row then revoked at row else row).admin_id
              ≡ admin_id))
  unfolding selects
  revoked_row t now at admin_id public_id admins row h k = ground arith

  -- After an administrator's session is revoked no token, at any time, has a session with that
  -- administrator and that public id.
  pub revoke_session_ends :
      (t : String) (now at admin_id public_id : ℕ) (db : Panel) (r : SessionRecord)
      → get_session hashes t now (revoke_session admin_id public_id at db).1 ≡ some r
      → ¬ ((r.public_id ≡ public_id) × (r.admin.id ≡ admin_id))
  revoke_session_ends t now at admin_id public_id db r e k =
      let (row, found, same_id, same_admin) =
        get_session-row t now (revoke_session admin_id public_id at db).1 r e in
      let no : ¬ ((row.public_id ≡ public_id) × (row.admin_id ≡ admin_id)) =
        unfold revoke_session in
        find_where-update_where_sound (λ x. ¬ ((x.public_id ≡ public_id) × (x.admin_id ≡ admin_id)))
          (selects hashes t now db.admins) (is_session_of admin_id public_id) (revoked at)
          db.sessions row (λ y. revoked_row t now at admin_id public_id db.admins y) found in
      no (sym same_id ∙ k.0, sym same_admin ∙ k.1)

  other_row :
      (t current : String) (now at admin_id : ℕ) (admins : List AdminRow) (row : SessionRow)
      → hash_opaque hashes t ≢ hash_opaque hashes current
      → selects hashes t now admins
          (if is_other_session hashes admin_id current row then revoked at row else row)
        ≡ true
      → (if is_other_session hashes admin_id current row then revoked at row else row).admin_id
        ≢ admin_id
  unfolding selects
  other_row t current now at admin_id admins row ne h k = ground (
    arith,
    str_eq_iff row.id_hash (hash_opaque hashes t),
    str_eq_iff row.id_hash (hash_opaque hashes current),
  )

  -- After `revoke-others`, a token whose hash is not the current one's has no session of the
  -- administrator, at any time.
  pub revoke_other_sessions_ends :
      (t current : String) (now at admin_id : ℕ) (db : Panel) (r : SessionRecord)
      → hash_opaque hashes t ≢ hash_opaque hashes current
      → get_session hashes t now (revoke_other_sessions hashes admin_id current at db).1 ≡ some r
      → r.admin.id ≢ admin_id
  revoke_other_sessions_ends t current now at admin_id db r ne e k =
      let (row, found, same_id, same_admin) =
        get_session-row t now (revoke_other_sessions hashes admin_id current at db).1 r e in
      let no : row.admin_id ≢ admin_id =
        unfold revoke_other_sessions in
        find_where-update_where_sound (λ x. x.admin_id ≢ admin_id) (selects hashes t now db.admins)
          (is_other_session hashes admin_id current) (revoked at) db.sessions row
          (λ y. other_row t current now at admin_id db.admins y ne) found in
      no (sym same_admin ∙ k)

  -- `revoke-others` leaves the session of the current token as it was.
  revoke_other_sessions_keeps_current :
      (current : String) (now at admin_id : ℕ) (db : Panel)
      → get_session hashes current now (revoke_other_sessions hashes admin_id current at db).1
        ≡ get_session hashes current now db
  revoke_other_sessions_keeps_current current now at admin_id db =
      unfold revoke_other_sessions get_session in
      ap (session_of db.admins) (
        find_where-update_where_same (selects hashes current now db.admins)
          (selects hashes current now db.admins) (is_other_session hashes admin_id current)
          (revoked at) db.sessions (λ x. unfold selects in ground arith)
          (λ x. unfold selects in ground arith))

  other_token :
      (t token : String) (now : ℕ) (admins : List AdminRow) (row : SessionRow)
      → hash_opaque hashes t ≢ hash_opaque hashes token
      → selects hashes t now admins row ≡ true
      → has_token hashes token row ≡ false
  unfolding selects
  other_token t token now admins row ne h = ground (
    arith,
    str_eq_iff row.id_hash (hash_opaque hashes t),
    str_eq_iff row.id_hash (hash_opaque hashes token),
  )

  -- Logging out ends the session of its token, at every time.
  delete_session_ends :
      (token : String) (now : ℕ) (db : Panel)
      → get_session hashes token now (delete_session hashes token db) ≡ none
  delete_session_ends token now db =
      get_session-none hashes token now (delete_session hashes token db) (
        unfold delete_session in
        find_where-delete_where-none (selects hashes token now db.admins) (has_token hashes token)
          db.sessions (λ x h. unfold selects in ground arith))

  -- Logging out ends no session of a token with another hash.
  delete_session_others :
      (t token : String) (now : ℕ) (db : Panel)
      → hash_opaque hashes t ≢ hash_opaque hashes token
      → get_session hashes t now (delete_session hashes token db) ≡ get_session hashes t now db
  delete_session_others t token now db ne =
      unfold delete_session get_session in
      ap (session_of db.admins) (
        find_where-delete_where (selects hashes t now db.admins) (has_token hashes token)
          db.sessions (λ x h. other_token t token now db.admins x ne h))
