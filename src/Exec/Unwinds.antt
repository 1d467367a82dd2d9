-- ===== src/Exec/Unwinds.antt =====
-- Properties that hold again when a part of a program has thrown, and parts that throw nothing.
use awg_control.Base.{◌≡◌, refl, ◌⊎◌, inl, inr, Bool, true, false}
use awg_control.Exec.{
  continue, on_failure, roll_back, Failure, Result, ok, err, Exec, pure, gets, modify, run, guard,
  ◌>>=◌, ◌>>◌, try_catch, transaction,
}
use awg_control.Exec.Laws.{Keeps}
use awg_control.Exec.Returns.{Returns}

-- `m` keeps `P` when it throws.
pub record Unwinds {S A : Type 0} (P : S → Type 0) (m : Exec S A) : Type 0 where
  pub at : (s : S) → P s → (e : Failure) → (m s).0 ≡ err e → P (m s).1

pub record NeverThrows {S A : Type 0} (m : Exec S A) : Type 0 where
  pub at : (s : S) (e : Failure) → (m s).0 ≡ err e → ⊥

module _ {S A : Type 0} where
  pub NeverThrows-pure : (a : A) → NeverThrows {S = S} (pure a)
  unfolding pure
  NeverThrows-pure a = record { at = λ s e h. cc }

  pub NeverThrows-gets : (f : S → A) → NeverThrows (gets f)
  unfolding gets
  NeverThrows-gets f = record { at = λ s e h. cc }

  pub NeverThrows-run : (f : S → A × S) → NeverThrows (run f)
  unfolding run
  NeverThrows-run f = record { at = λ s e h. cc }

  pub NeverThrows-try_catch :
      (m : Exec S A) (h : Failure → Exec S A)
      → ((e : Failure) → NeverThrows (h e))
      → NeverThrows (try_catch m h)
  unfolding try_catch
  NeverThrows-try_catch m h nh = record { at = λ s. finish (m s) }
    where
      finish : (x : Result A × S) (e : Failure) → (on_failure x h).0 ≡ err e → ⊥
      finish (ok a, s) e q = cc
      finish (err f, s) e q = (nh f).at s e q

module _ {S : Type 0} where
  pub NeverThrows-modify : (f : S → S) → NeverThrows (modify f)
  unfolding modify
  NeverThrows-modify f = record { at = λ s e h. cc }

module _ {S A B : Type 0} where
  pub NeverThrows-bind :
      (m : Exec S A) (f : A → Exec S B)
      → NeverThrows m
      → ((a : A) → NeverThrows (f a))
      → NeverThrows (m >>= f)
  unfolding ◌>>=◌
  NeverThrows-bind m f nm nf = record { at = λ s. finish (m s) (nm.at s) }
    where
      finish :
          (x : Result A × S)
          → ((e : Failure) → x.0 ≡ err e → ⊥)
          → (e : Failure) → (continue x f).0 ≡ err e
          → ⊥
      finish (ok a, s) k e q = (nf a).at s e q
      finish (err g, s) k e q = k g refl

pub ruleset never_throws_rules = (
  NeverThrows-pure, NeverThrows-gets, NeverThrows-run, NeverThrows-modify, NeverThrows-try_catch,
  NeverThrows-bind,
)

module _ {S A : Type 0} {P : S → Type 0} where
  pub Unwinds-Keeps : (m : Exec S A) → Keeps P m → Unwinds P m
  Unwinds-Keeps m km = record { at = λ s h e q. km.at s h }

  pub Unwinds-transaction : (m : Exec S A) → Unwinds P (transaction m)
  unfolding transaction
  Unwinds-transaction m = record { at = λ s h. finish s h (m s) }
    where
      finish :
          (s : S)
          → P s
          → (x : Result A × S) (e : Failure) → (roll_back s x).0 ≡ err e
          → P (roll_back s x).1
      finish s h (ok a, s') e q = absurd cc
      finish s h (err f, s') e q = h

  pub Unwinds-try_catch :
      (m : Exec S A) (h : Failure → Exec S A)
      → Unwinds P m
      → ((e : Failure) → Unwinds P (h e))
      → Unwinds P (try_catch m h)
  unfolding try_catch
  Unwinds-try_catch m h um uh = record { at = λ s p. finish (m s) (um.at s p) }
    where
      finish :
          (x : Result A × S)
          → ((e : Failure) → x.0 ≡ err e → P x.1)
          → (e : Failure) → (on_failure x h).0 ≡ err e
          → P (on_failure x h).1
      finish (ok a, s) k e q = absurd cc
      finish (err f, s) k e q = (uh f).at s (k f refl) e q

module _ {S A B : Type 0} {P : S → Type 0} where
  pub Unwinds-bind :
      (m : Exec S A) (f : A → Exec S B)
      → Keeps P m
      → ((a : A) → Unwinds P (f a))
      → Unwinds P (m >>= f)
  unfolding ◌>>=◌
  Unwinds-bind m f km uf = record { at = λ s p. finish (m s) (km.at s p) }
    where
      finish :
          (x : Result A × S) → P x.1 → (e : Failure) → (continue x f).0 ≡ err e → P (continue x f).1
      finish (ok a, s) p e q = (uf a).at s p e q
      finish (err g, s) p e q = p

  -- Nothing throws once `m` has returned.
  pub Unwinds-commit :
      (m : Exec S A) (f : A → Exec S B)
      → Unwinds P m
      → ((a : A) → NeverThrows (f a))
      → Unwinds P (m >>= f)
  unfolding ◌>>=◌
  Unwinds-commit m f um nf = record { at = λ s p. finish (m s) (um.at s p) }
    where
      finish :
          (x : Result A × S)
          → ((e : Failure) → x.0 ≡ err e → P x.1)
          → (e : Failure) → (continue x f).0 ≡ err e
          → P (continue x f).1
      finish (ok a, s) k e q = absurd ((nf a).at s e q)
      finish (err g, s) k e q = k g refl

  -- What `m` returns passes a test, and what follows keeps `P` for such values.
  pub Keeps-returned :
      {p : A → Bool} (m : Exec S A) (f : A → Exec S B)
      → Keeps P m
      → Returns p m
      → ((a : A) → p a ≡ true → Keeps P (f a))
      → Keeps P (m >>= f)
  unfolding ◌>>=◌
  Keeps-returned {p = p} m f km rm kf = record { at = λ s h. finish (m s) (km.at s h) (rm.of s) }
    where
      finish : (x : Result A × S) → P x.1 → ((a : A) → x.0 ≡ ok a → p a ≡ true) → P (continue x f).1
      finish (ok a, s) h k = (kf a (k a refl)).at s h
      finish (err g, s) h k = h

module _ {S B : Type 0} {P : S → Type 0} where
  -- What stands behind a guard that fails is not run.
  pub Keeps-refused : (b : Bool) (e : Failure) (n : Exec S B) → b ≡ false → Keeps P (guard b e >> n)
  unfolding ◌>>=◌ guard
  Keeps-refused true e n h = absurd cc
  Keeps-refused false e n h = record { at = λ s p. p }

-- What holds when `m` has returned, if `P` held before.
pub record Ensures {S A : Type 0} (P Q : S → Type 0) (m : Exec S A) : Type 0 where
  pub at : (s : S) → P s → (a : A) → (m s).0 ≡ ok a → Q (m s).1

module _ {S : Type 0} {P Q : S → Type 0} where
  pub Ensures-modify : (f : S → S) → ((s : S) → P s → Q (f s)) → Ensures P Q (modify f)
  unfolding modify
  Ensures-modify f k = record { at = λ s h a e. k s h }

module _ {S A B : Type 0} {P Q : S → Type 0} where
  pub Ensures-bind :
      (m : Exec S A) (f : A → Exec S B)
      → Keeps P m
      → ((a : A) → Ensures P Q (f a))
      → Ensures P Q (m >>= f)
  unfolding ◌>>=◌
  Ensures-bind m f km ef = record { at = λ s p. finish (m s) (km.at s p) }
    where
      finish : (x : Result A × S) → P x.1 → (b : B) → (continue x f).0 ≡ ok b → Q (continue x f).1
      finish (ok a, s) p b e = (ef a).at s p b e
      finish (err g, s) p b e = absurd cc

module _ {S A B : Type 0} {P R Q : S → Type 0} where
  -- What `m` ensures is what `f` starts from.
  pub Ensures-then :
      (m : Exec S A) (f : A → Exec S B)
      → Ensures P R m
      → ((a : A) → Ensures R Q (f a))
      → Ensures P Q (m >>= f)
  unfolding ◌>>=◌
  Ensures-then m f em ef = record { at = λ s p. finish (m s) (em.at s p) }
    where
      finish :
          (x : Result A × S)
          → ((a : A) → x.0 ≡ ok a → R x.1)
          → (b : B) → (continue x f).0 ≡ ok b
          → Q (continue x f).1
      finish (ok a, s) k b e = (ef a).at s (k a refl) b e
      finish (err g, s) k b e = absurd cc

-- A handler that catches every failure: what holds at the end, whichever way it goes.
module _ {S A : Type 0} {P Q R : S → Type 0} where
  pub Ensures-try_catch :
      (m : Exec S A) (h : Failure → Exec S A)
      → Ensures P Q m
      → Unwinds P m
      → ((e : Failure) → Ensures P R (h e))
      → Ensures P (λ s. Q s ⊎ R s) (try_catch m h)
  unfolding try_catch
  Ensures-try_catch m h em um eh = record { at = λ s p. finish (m s) (em.at s p) (um.at s p) }
    where
      finish :
          (x : Result A × S)
          → ((a : A) → x.0 ≡ ok a → Q x.1)
          → ((e : Failure) → x.0 ≡ err e → P x.1)
          → (a : A) → (on_failure x h).0 ≡ ok a
          → Q (on_failure x h).1 ⊎ R (on_failure x h).1
      finish (ok b, s) k l a e = inl (k a e)
      finish (err f, s) k l a e = inr ((eh f).at s (l f refl) a e)

-- A part that throws nothing returns.
module _ {S A : Type 0} where
  pub NeverThrows-returns : (m : Exec S A) (s : S) → NeverThrows m → (a : A) × ((m s).0 ≡ ok a)
  NeverThrows-returns m s never = finish (m s).0 (never.at s)
    where
      finish : (x : Result A) → ((e : Failure) → x ≡ err e → ⊥) → (a : A) × (x ≡ ok a)
      finish (ok a) k = (a, refl)
      finish (err e) k = absurd (k e refl)
