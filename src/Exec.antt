-- ===== src/Exec.antt =====
-- Code that reads and writes the database and may throw. What was written before a throw stays
-- written, unless a transaction rolls it back. `AppError` of apps/api/src/http/errors.ts,
-- `HelperTransportError` of apps/api/src/helper/client.ts and any other error are the failures; the
-- titles of errors, which nothing tests, are left out.
pub mod Laws
pub mod Returns
pub mod Turns
pub mod Unwinds
use awg_control.Base.{ℕ, String, Bool, true, false, Option, none, some}

pub data Failure : Type 0 where
  app_error : ℕ → String → Failure
  transport_error : String → Failure
  other_error : String → Failure

pub data Result {ℓ} (A : Type ℓ) : Type ℓ where
  ok : A → Result A
  err : Failure → Result A

abbrev pub Exec {ℓ} : Type ℓ → Type ℓ → Type ℓ
Exec S A = S → Result A × S

-- `throw notFound(…)`, `throw conflict(code, …)`.
abbrev pub not_found : Failure
not_found = app_error 404 "NOT_FOUND"

abbrev pub conflict : String → Failure
conflict code = app_error 409 code

module _ {ℓ} {S A : Type ℓ} where
  unfoldable pub pure : A → Exec S A
  pure a s = (ok a, s)

  unfoldable pub throw : Failure → Exec S A
  throw e s = (err e, s)

  unfoldable pub gets : (S → A) → Exec S A
  gets f s = (ok (f s), s)

  -- A value that must be there: `x ?? throw e`, or a guard on `null`.
  unfoldable pub require : Option A → Failure → Exec S A
  require none e s = (err e, s)
  require (some a) e s = (ok a, s)

  abbrev pub on_failure : Result A × S → (Failure → Exec S A) → Result A × S
  on_failure (ok a, s) h = (ok a, s)
  on_failure (err e, s) h = h e s

  -- `try { m } catch (error) { h }`.
  unfoldable pub try_catch : Exec S A → (Failure → Exec S A) → Exec S A
  try_catch m h s = on_failure (m s) h

  abbrev pub roll_back : S → Result A × S → Result A × S
  roll_back s (ok a, s') = (ok a, s')
  roll_back s (err e, s') = (err e, s)

  -- `db.transaction(() => m)()`: all of its writes, or none.
  unfoldable pub transaction : Exec S A → Exec S A
  transaction m s = roll_back s (m s)

  -- A method that changes the state and returns a value.
  unfoldable pub run : (S → A × S) → Exec S A
  run f s = (ok (f s).0, (f s).1)

  -- A value of the state that must be there.
  unfoldable pub read : (S → Option A) → Failure → Exec S A
  unfolding require
  read f e s = require (f s) e s

module _ {S : Type 0} where
  unfoldable pub modify : (S → S) → Exec S (Unit {0})
  modify f s = (ok tt, f s)

  -- `if (!test) throw e`.
  unfoldable pub guard : Bool → Failure → Exec S (Unit {0})
  guard true e s = (ok tt, s)
  guard false e s = (err e, s)

module _ {ℓ} {S A B : Type ℓ} where
  abbrev pub continue : Result A × S → (A → Exec S B) → Result B × S
  continue (ok a, s) f = f a s
  continue (err e, s) f = (err e, s)

  infixl 10 ◌>>=◌ ◌>>◌
  -- To open this is to open the other ways to build a program too.
  unfoldable pub ◌>>=◌ : Exec S A → (A → Exec S B) → Exec S B
  unfolding pure throw gets require read run modify guard try_catch transaction
  ◌>>=◌ m f s = continue (m s) f

  abbrev pub ◌>>◌ : Exec S A → Exec S B → Exec S B
  ◌>>◌ m n = m >>= λ _. n
