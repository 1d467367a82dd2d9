-- ===== src/Auth/Login/Factors.antt =====
-- The steps of a login, by what they find.
use awg_control.Base.{
  ℕ, ◌≡◌, refl, String, Bool, true, false, not, ◌&&◌, ◌||◌, Option, none, some, List, Text,
  if◌then◌else◌, on_some, arith, Option-cases, ||-false, inl, inr,
}
use awg_control.Crypto.{Hashes}
use awg_control.Exec.{Result, ok, err, ◌>>=◌}
use awg_control.Contracts.Entities.{Admin}
use awg_control.Panel.{Panel, Readings, SessionRow}
use awg_control.Store.Audit.{add_audit}
use awg_control.Store.Admins.{AdminSecretRecord, consume_recovery_code, update_admin_login}
use awg_control.Store.Sessions.{create_session, session_fits}
use awg_control.Auth.{Credentials, AuthConfig}
use awg_control.Auth.Login.{
  LoginBody, reject, password_valid, first_factor, totp_valid, use_recovery_code, fall_back,
  second_factor, new_session, open_session, may_remember, finish_login, enter,
}

abbrev pub is_ok : {A : Type 0} → Result A → Bool
is_ok (ok a) = true
is_ok (err e) = false

module _ (credentials : Credentials) (hashes : Hashes) (config : AuthConfig) (r : Readings)
    (ip : Text) (body : LoginBody) where
  -- The recovery code that was sent is one that has not been used.
  abbrev recovery_valid : AdminSecretRecord → Panel → Bool
  recovery_valid admin db =
      on_some false
        (λ code. (consume_recovery_code admin.id (credentials.recovery_hash code) (r.clock 2) db).0)
        body.recovery_code

  -- The one-time code is valid, or the session is a short one and the recovery code is valid.
  abbrev pub second_factor_valid : AdminSecretRecord → Panel → Bool
  second_factor_valid admin db =
      on_some false
        (λ encrypted.
          on_some false
            (λ secret.
              totp_valid credentials hashes config r ip body admin secret
              || not body.remember_device && recovery_valid admin db)
            (credentials.decrypt_totp admin.id encrypted))
        admin.totp_secret_encrypted

  -- Who may have the session: an active administrator with the right password and, where TOTP is on,
  -- a valid second factor; a remembered session is for one-time codes alone.
  abbrev pub is_entitled : AdminSecretRecord → Panel → Bool
  is_entitled admin db =
      password_valid credentials hashes config r ip body admin
      && (if admin.totp_enabled then second_factor_valid admin db else not body.remember_device)

  abbrev pub Refused : String → Option AdminSecretRecord → Panel → Type 0
  Refused token found db =
      (is_ok (enter credentials hashes config r ip body token found db).0 ≡ false)
      × ((enter credentials hashes config r ip body token found db).1.sessions ≡ db.sessions)

  pub enter_none : (token : String) (db : Panel) → Refused token none db
  unfolding enter first_factor reject add_audit ◌>>=◌
  enter_none token db = (refl, refl)

  pub enter_wrong :
      (token : String) (admin : AdminSecretRecord) (db : Panel)
      → password_valid credentials hashes config r ip body admin ≡ false
      → Refused token (some admin) db
  unfolding enter first_factor reject add_audit ◌>>=◌
  enter_wrong token admin db h = ground (arith, h)

  -- The second factor, where the password is right.
  pub enter_right :
      (token : String) (admin : AdminSecretRecord) (db : Panel)
      → password_valid credentials hashes config r ip body admin ≡ true
      → enter credentials hashes config r ip body token (some admin) db
        ≡ (second_factor credentials hashes config r ip body admin admin.totp_enabled
              >>= finish_login credentials hashes config r ip body token admin)
            db
  unfolding enter first_factor ◌>>=◌
  enter_right token admin db h = rw h refl

  abbrev pub rest : String → AdminSecretRecord → Bool → Panel → Result Admin × Panel
  rest token admin b =
      second_factor credentials hashes config r ip body admin b
      >>= finish_login credentials hashes config r ip body token admin

  abbrev pub opened : String → AdminSecretRecord → Panel → List SessionRow
  opened token admin db =
      (create_session hashes (new_session credentials hashes config r ip body admin token)
        (r.clock 6) (r.uuid 6) db).1.sessions

  -- The last step, by whether the session may be remembered.
  pub finish_lem :
      (token : String) (admin : AdminSecretRecord) (verified : Bool) (db : Panel)
      → (may_remember credentials hashes config r ip body admin verified ≡ false
          → (is_ok (finish_login credentials hashes config r ip body token admin verified db).0
              ≡ false)
            × ((finish_login credentials hashes config r ip body token admin verified db).1.sessions
                ≡ db.sessions))
        × (may_remember credentials hashes config r ip body admin verified ≡ true
            → (finish_login credentials hashes config r ip body token admin verified db).1.sessions
              ≡ opened token admin db)
  unfolding finish_login open_session reject add_audit update_admin_login ◌>>=◌
  finish_lem token admin verified db = ((λ h. (rw h refl, rw h refl)), λ h. rw h (ground arith))

  pub rest_plain :
      (token : String) (admin : AdminSecretRecord) (db : Panel)
      → rest token admin false db
        ≡ finish_login credentials hashes config r ip body token admin false db
  unfolding second_factor ◌>>=◌
  rest_plain token admin db = refl

  pub rest_totp :
      (token : String) (admin : AdminSecretRecord) (db : Panel) (encrypted secret : String)
      → admin.totp_secret_encrypted ≡ some encrypted
      → credentials.decrypt_totp admin.id encrypted ≡ some secret
      → totp_valid credentials hashes config r ip body admin secret ≡ true
      → rest token admin true db
        ≡ finish_login credentials hashes config r ip body token admin true db
  unfolding second_factor fall_back ◌>>=◌
  rest_totp token admin db encrypted secret e d v = simp (e, d, v)

  pub rest_code :
      (token : String) (admin : AdminSecretRecord) (db : Panel) (encrypted secret code : String)
      → admin.totp_secret_encrypted ≡ some encrypted
      → credentials.decrypt_totp admin.id encrypted ≡ some secret
      → totp_valid credentials hashes config r ip body admin secret ≡ false
      → body.recovery_code ≡ some code
      → (consume_recovery_code admin.id (credentials.recovery_hash code) (r.clock 2) db).0 ≡ true
      → rest token admin true db
        ≡ finish_login credentials hashes config r ip body token admin false
            (consume_recovery_code admin.id (credentials.recovery_hash code) (r.clock 2) db).1
  unfolding second_factor fall_back use_recovery_code ◌>>=◌
  rest_code token admin db encrypted secret code e d v c u = simp (e, d, v, c, u)

  -- Without a valid second factor.
  pub rest_refused :
      (token : String) (admin : AdminSecretRecord) (db : Panel)
      → on_some false
          (λ encrypted.
            on_some false
              (λ secret.
                totp_valid credentials hashes config r ip body admin secret
                || recovery_valid admin db)
              (credentials.decrypt_totp admin.id encrypted))
          admin.totp_secret_encrypted
        ≡ false
      → (is_ok (rest token admin true db).0 ≡ false)
        × ((rest token admin true db).1.sessions ≡ db.sessions)
  unfolding second_factor fall_back use_recovery_code reject add_audit consume_recovery_code ◌>>=◌
  rest_refused token admin db h = elim (Option-cases admin.totp_secret_encrypted) [
    | inl e ↦ (simp e, simp e)
    | inr (encrypted, e) ↦ elim (Option-cases (credentials.decrypt_totp admin.id encrypted)) [
      | inl d ↦ (simp (e, d), simp (e, d))
      | inr (secret, d) ↦
          let g : (totp_valid credentials hashes config r ip body admin secret
                || recovery_valid admin db)
              ≡ false =
            ground (arith, e, d, h) in
          let v = (||-false (totp_valid credentials hashes config r ip body admin secret) _ g).0 in
          elim (Option-cases body.recovery_code) [
            | inl c ↦ (simp (e, d, v, c), simp (e, d, v, c))
            | inr (code, c) ↦
                let u : (consume_recovery_code admin.id (credentials.recovery_hash code) (r.clock 2)
                      db).0
                    ≡ false =
                  ground (
                    arith,
                    c,
                    (||-false (totp_valid credentials hashes config r ip body admin secret) _ g).1,
                  ) in
                (simp (e, d, v, c, u), simp (e, d, v, c, u))
          ]
    ]
  ]

  pub sessions-consume_recovery_code :
      (id : ℕ) (hash : String) (now : ℕ) (db : Panel)
      → (consume_recovery_code id hash now db).1.sessions ≡ db.sessions
  unfolding consume_recovery_code
  sessions-consume_recovery_code id hash now db = refl

  pub opened-consume_recovery_code :
      (token : String) (admin : AdminSecretRecord) (id : ℕ) (hash : String) (now : ℕ) (db : Panel)
      → opened token admin (consume_recovery_code id hash now db).1 ≡ opened token admin db
  unfolding consume_recovery_code create_session session_fits
  opened-consume_recovery_code token admin id hash now db = ground arith
