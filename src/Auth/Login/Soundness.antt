-- ===== src/Auth/Login/Soundness.antt =====
-- Who gets a session, and of which kind.
use awg_control.Base.{
  ◌≡◌, String, Bool, true, false, not, Option, none, some, List, Text, if◌then◌else◌, on_some,
}
use awg_control.Crypto.{Hashes}
use awg_control.Panel.{Panel, Readings, SessionRow}
use awg_control.Store.Admins.{AdminSecretRecord}
use awg_control.Auth.{Credentials, AuthConfig}
use awg_control.Auth.Login.{LoginBody}
use awg_control.Auth.Login.Factors.{is_ok, second_factor_valid, is_entitled, rest, opened}

module _ (credentials : Credentials) (hashes : Hashes) (config : AuthConfig) (r : Readings)
    (ip : Text) (body : LoginBody) where
  -- What follows a right password.
  abbrev Outcome : String → AdminSecretRecord → Bool → Panel → Type 0
  Outcome token admin b db =
      ((if b
            then second_factor_valid credentials hashes config r ip body admin db
            else not body.remember_device)
          ≡ false
        → (is_ok (rest credentials hashes config r ip body token admin b db).0 ≡ false)
          × ((rest credentials hashes config r ip body token admin b db).1.sessions ≡ db.sessions))
      × ((if b
              then second_factor_valid credentials hashes config r ip body admin db
              else not body.remember_device)
            ≡ true
          → (rest credentials hashes config r ip body token admin b db).1.sessions
            ≡ opened credentials hashes config r ip body token admin db)

  abbrev pub is_entitled_found : Option AdminSecretRecord → Panel → Bool
  is_entitled_found found db =
      on_some false (λ admin. is_entitled credentials hashes config r ip body admin db) found

  -- The sessions that a login leaves.
  abbrev pub sessions_after : String → Option AdminSecretRecord → Panel → List SessionRow
  sessions_after token none db = db.sessions
  sessions_after token (some admin) db =
      if is_entitled credentials hashes config r ip body admin db
      then opened credentials hashes config r ip body token admin db
      else db.sessions
