-- ===== src/Exec/Turns.antt =====
-- A change of what holds: `m` starts where `P` holds and ends where `Q` holds, whether it returns or
-- throws.
use awg_control.Base.{◌≡◌, refl, Bool, true, false, Option, none, some}
use awg_control.Exec.{
  continue, on_failure, Failure, Result, ok, err, Exec, require, read, guard, ◌>>=◌, ◌>>◌,
  try_catch,
}
use awg_control.Exec.Laws.{Keeps}

pub record Turns {S A : Type 0} (P Q : S → Type 0) (m : Exec S A) : Type 0 where
  pub at : (s : S) → P s → Q (m s).1

module _ {S A : Type 0} {P Q : S → Type 0} where
  pub Turns-Keeps : (m : Exec S A) → ((s : S) → P s → Q s) → Keeps P m → Turns P Q m
  Turns-Keeps m pq km = record { at = λ s h. pq _ (km.at s h) }

  pub Turns-try_catch :
      (m : Exec S A) (h : Failure → Exec S A)
      → Turns P Q m
      → ((e : Failure) → Keeps Q (h e))
      → Turns P Q (try_catch m h)
  unfolding try_catch
  Turns-try_catch m h tm kh = record { at = λ s p. finish (m s) (tm.at s p) }
    where
      finish : (x : Result A × S) → Q x.1 → Q (on_failure x h).1
      finish (ok a, s) q = q
      finish (err e, s) q = (kh e).at s q

module _ {S A B : Type 0} {P Q : S → Type 0} where
  -- The turn comes later.
  pub Turns-bind :
      (m : Exec S A) (f : A → Exec S B)
      → ((s : S) → P s → Q s)
      → Keeps P m
      → ((a : A) → Turns P Q (f a))
      → Turns P Q (m >>= f)
  unfolding ◌>>=◌
  Turns-bind m f pq km tf = record { at = λ s p. finish (m s) (km.at s p) }
    where
      finish : (x : Result A × S) → P x.1 → Q (continue x f).1
      finish (ok a, s) p = (tf a).at s p
      finish (err e, s) p = pq s p

  -- The turn is made.
  pub Turns-then :
      (m : Exec S A) (f : A → Exec S B)
      → Turns P Q m
      → ((a : A) → Keeps Q (f a))
      → Turns P Q (m >>= f)
  unfolding ◌>>=◌
  Turns-then m f tm kf = record { at = λ s p. finish (m s) (tm.at s p) }
    where
      finish : (x : Result A × S) → Q x.1 → Q (continue x f).1
      finish (ok a, s) q = (kf a).at s q
      finish (err e, s) q = q

-- What is read is known from then on.
module _ {S A B : Type 0} {P Q : S → Type 0} where
  pub Turns-read :
      (f : S → Option A) (e : Failure) (next : A → Exec S B)
      → ((s : S) → P s → Q s)
      → ((s : S) (a : A) → P s → f s ≡ some a → Q (next a s).1)
      → Turns P Q (read f e >>= next)
  unfolding ◌>>=◌ read require
  Turns-read f e next pq k = record { at = λ s p. finish s p (f s) refl }
    where
      finish : (s : S) → P s → (o : Option A) → f s ≡ o → Q (continue (require o e s) next).1
      finish s p none q = pq s p
      finish s p (some a) q = k s a p q

-- What a guard tests is known from then on.
module _ {S B : Type 0} {P Q : S → Type 0} where
  pub Turns-guard :
      (b : Bool) (e : Failure) (n : Exec S B)
      → ((s : S) → P s → Q s)
      → (b ≡ true → Turns P Q n)
      → Turns P Q (guard b e >> n)
  unfolding ◌>>=◌ guard
  Turns-guard true e n pq k = record { at = (k refl).at }
  Turns-guard false e n pq k = record { at = pq }
