-- ===== src/Auth/Totp/Confirmed.antt =====
-- When TOTP is turned on.
use awg_control.Base.{◌≡◌, String, Option, some, true}
use awg_control.Crypto.{Hashes}
use awg_control.Panel.{Panel, Readings}
use awg_control.Auth.{Credentials}
use awg_control.Auth.Sessions.{Identity}
use awg_control.Auth.Totp.{pending_secret}

-- What a confirmation has checked: an administrator of the session, the session's pending secret,
-- and a code of that secret.
pub record IsConfirmed (credentials : Credentials) (hashes : Hashes) (r : Readings)
    (found : Option Identity) (token : String) (db : Panel) : Type 0 where
  pub identity : Identity
  pub encrypted : String
  pub secret : String
  pub authenticated : found ≡ some identity
  pub pending : pending_secret credentials hashes r identity db ≡ some encrypted
  pub decrypted : credentials.decrypt_pending identity.admin.id encrypted ≡ some secret
  pub verified : credentials.verify_totp secret identity.admin.username token (r.clock 1) ≡ true
