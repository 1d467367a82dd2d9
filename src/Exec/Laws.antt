-- ===== src/Exec/Laws.antt =====
-- Properties that every part of a program keeps, one rule for each way to build a program.
use awg_control.Base.{Bool, true, false, Option, none, some}
use awg_control.Exec.{
  on_failure, roll_back, continue, Failure, Result, ok, err, Exec, pure, throw, gets, require,
  try_catch, transaction, modify, guard, run, read, ◌>>=◌, ◌>>◌,
}

-- `m` keeps `P`, whether it returns or throws.
pub record Keeps {S A : Type 0} (P : S → Type 0) (m : Exec S A) : Type 0 where
  pub at : (s : S) → P s → P (m s).1

module _ {S A : Type 0} {P : S → Type 0} where
  pub Keeps-throw : (e : Failure) → Keeps P (throw {A = A} e)
  unfolding throw
  Keeps-throw e = record { at = λ before held. held }

  pub Keeps-pure : (a : A) → Keeps P (pure a)
  unfolding pure
  Keeps-pure a = record { at = λ before held. held }

  pub Keeps-gets : (f : S → A) → Keeps P (gets f)
  unfolding gets
  Keeps-gets f = record { at = λ before held. held }

  pub Keeps-require : (o : Option A) (e : Failure) → Keeps P (require o e)
  unfolding require
  Keeps-require none e = record { at = λ before held. held }
  Keeps-require (some a) e = record { at = λ before held. held }

  pub Keeps-run : (f : S → A × S) → ((s : S) → P s → P (f s).1) → Keeps P (run f)
  unfolding run
  Keeps-run f k = record { at = k }

  pub Keeps-read : (f : S → Option A) (e : Failure) → Keeps P (read f e)
  unfolding read
  Keeps-read f e = record { at = λ s h. (Keeps-require (f s) e).at s h }

  pub Keeps-try_catch :
      (m : Exec S A) (h : Failure → Exec S A)
      → Keeps P m
      → ((e : Failure) → Keeps P (h e))
      → Keeps P (try_catch m h)
  unfolding try_catch
  Keeps-try_catch m h km kh = record { at = λ s p. finish (m s) (km.at s p) }
    where
      finish : (r : Result A × S) → P r.1 → P (on_failure r h).1
      finish (ok a, s) p = p
      finish (err e, s) p = (kh e).at s p

  pub Keeps-transaction : (m : Exec S A) → Keeps P m → Keeps P (transaction m)
  unfolding transaction
  Keeps-transaction m km = record { at = λ s p. finish s p (m s) (km.at s p) }
    where
      finish : (s : S) → P s → (r : Result A × S) → P r.1 → P (roll_back s r).1
      finish s p (ok a, s') q = q
      finish s p (err e, s') q = p

module _ {S : Type 0} {P : S → Type 0} where
  pub Keeps-guard : (b : Bool) (e : Failure) → Keeps P (guard b e)
  unfolding guard
  Keeps-guard true e = record { at = λ before held. held }
  Keeps-guard false e = record { at = λ before held. held }

  pub Keeps-modify : (f : S → S) → ((s : S) → P s → P (f s)) → Keeps P (modify f)
  unfolding modify
  Keeps-modify f k = record { at = k }

module _ {S A B : Type 0} {P : S → Type 0} where
  pub Keeps-bind :
      (m : Exec S A) (next : A → Exec S B)
      → Keeps P m
      → ((a : A) → Keeps P (next a))
      → Keeps P (m >>= next)
  unfolding ◌>>=◌
  Keeps-bind m next km kn = record { at = λ s p. finish (m s) (km.at s p) }
    where
      finish : (r : Result A × S) → P r.1 → P (continue r next).1
      finish (ok a, s) p = (kn a).at s p
      finish (err e, s) p = p

  pub Keeps-then : (m : Exec S A) (n : Exec S B) → Keeps P m → Keeps P n → Keeps P (m >> n)
  Keeps-then m n km kn = Keeps-bind m (λ _. n) km (λ _. kn)

pub ruleset keeps_rules = (
  Keeps-pure, Keeps-throw, Keeps-gets, Keeps-require, Keeps-read, Keeps-try_catch,
  Keeps-transaction, Keeps-guard, Keeps-bind,
)
