-- ===== src/Auth.antt =====
-- Authentication: apps/api/src/http/auth.ts. The cryptography (scrypt, AES-GCM, one-time codes) is
-- that of other packages, a parameter.
pub mod Login
pub mod Sessions
pub mod Totp
use awg_control.Base.{ℕ, String, Bool, Option}

pub record Credentials : Type 0 where
  -- `verifyPassword`, of a password and its stored hash.
  pub verify_password : String → String → Bool
  -- `decryptSecret` for the purpose `totp:<id>` and `pending-totp:<id>`; none where it throws.
  pub decrypt_totp : ℕ → String → Option String
  pub decrypt_pending : ℕ → String → Option String
  pub encrypt_totp : ℕ → String → String
  -- `verifyTotp`, of a secret, a user name, a code and the time.
  pub verify_totp : String → String → String → ℕ → Bool
  -- The hash of a recovery code, trimmed and in upper case.
  pub recovery_hash : String → String
  -- COLLATE NOCASE.
  pub same_name : String → String → Bool

pub record AuthConfig : Type 0 where
  pub session_ttl_seconds : ℕ
  pub remembered_session_ttl_seconds : ℕ
  pub remembered_session_idle_ttl_seconds : ℕ
  pub session_activity_write_interval_seconds : ℕ
