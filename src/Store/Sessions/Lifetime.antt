-- ===== src/Store/Sessions/Lifetime.antt =====
-- How long a session lives: what `getSession` answers after the other methods of the session store.
use awg_control.Base.{
  ℕ, ◌+◌, ◌*◌, ◌≤◌, ◌≡◌, ap, String, true, false, none, List, arith, if◌then◌else◌, Option-cases,
  inl, inr,
}
use awg_control.Base.Tables.{find_where}
use awg_control.Base.Tables.Laws.{
  find_where_sound, find_where-none-update_where, find_where-delete_where,
}
use awg_control.Crypto.{Hashes}
use awg_control.Panel.{Panel, SessionRow, AdminRow}
use awg_control.Store.Sessions.{
  selects, get_session, session_of, touches, touched, touch_session, is_stale, prune_sessions,
}

module _ (hashes : Hashes) where
  -- `getSession` finds nothing exactly where its query selects no row.
  pub find-none_of_get_session :
      (t : String) (now : ℕ) (db : Panel)
      → get_session hashes t now db ≡ none
      → find_where (selects hashes t now db.admins) db.sessions ≡ none
  find-none_of_get_session t now db e =
      elim (Option-cases (find_where (selects hashes t now db.admins) db.sessions)) [
        | inl h ↦ h
        | inr (row, h) ↦
            let sel = find_where_sound (selects hashes t now db.admins) db.sessions row h in
            unfold get_session selects in ground (arith, h, sel)
      ]

  pub get_session-none :
      (t : String) (now : ℕ) (db : Panel)
      → find_where (selects hashes t now db.admins) db.sessions ≡ none
      → get_session hashes t now db ≡ none
  unfolding get_session
  get_session-none t now db h = ground arith

  touched_dead :
      (t token : String) (idle write now later : ℕ) (admins : List AdminRow) (row : SessionRow)
      → now ≤ later
      → selects hashes t now admins row ≡ false
      → selects hashes t later admins
          (if touches hashes token write now row then touched idle now row else row)
        ≡ false
  unfolding selects touches touched
  touched_dead t token idle write now later admins row le h = ground arith

  -- Activity does not bring a dead session back: a token that has no session when the activity is
  -- recorded has none at any later time.
  pub touch_session_no_revival :
      (t token : String) (idle write now later : ℕ) (db : Panel)
      → now ≤ later
      → get_session hashes t now db ≡ none
      → get_session hashes t later (touch_session hashes token idle write now db) ≡ none
  touch_session_no_revival t token idle write now later db le e =
      get_session-none t later (touch_session hashes token idle write now db) (
        unfold touch_session in
        find_where-none-update_where (selects hashes t now db.admins) _
          (touches hashes token write now) (touched (now + idle * 1000) now) db.sessions
          (λ row h. touched_dead t token (now + idle * 1000) write now later db.admins row le h)
          (find-none_of_get_session t now db e))

  stale_unselected :
      (t : String) (now later : ℕ) (admins : List AdminRow) (row : SessionRow)
      → now ≤ later
      → selects hashes t later admins row ≡ true
      → is_stale now row ≡ false
  unfolding selects is_stale
  stale_unselected t now later admins row le h = ground arith

  -- Pruning is not seen: from the time of the pruning on, every token has the session that it would
  -- have had without it.
  pub get_session-prune_sessions :
      (t : String) (now later : ℕ) (db : Panel)
      → now ≤ later
      → get_session hashes t later (prune_sessions now db) ≡ get_session hashes t later db
  unfolding prune_sessions get_session
  get_session-prune_sessions t now later db le = ap (session_of db.admins) (
      find_where-delete_where (selects hashes t later db.admins) (is_stale now) db.sessions
        (λ row h. stale_unselected t now later db.admins row le h))
