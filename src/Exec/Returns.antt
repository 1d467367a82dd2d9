-- ===== src/Exec/Returns.antt =====
-- Tests that hold when a part of a program returns: of the value, and of the state that it leaves.
use awg_control.Base.{◌≡◌, refl, Bool, true, arith}
use awg_control.Exec.{
  continue, on_failure, Failure, Result, ok, err, Exec, throw, pure, ◌>>=◌, ◌>>◌, try_catch,
  transaction, roll_back,
}

pub record Returns {S A : Type 0} (p : A → Bool) (m : Exec S A) : Type 0 where
  pub of : (s : S) (a : A) → (m s).0 ≡ ok a → p a ≡ true

module _ {S A : Type 0} {p : A → Bool} where
  pub Returns-pure : (a : A) → p a ≡ true → Returns {S = S} p (pure a)
  unfolding pure
  Returns-pure a q = record { of = λ s b e. ground (arith, e, q) }

  pub Returns-throw : (e : Failure) → Returns {S = S} p (throw e)
  unfolding throw
  Returns-throw e = record { of = λ s a h. absurd cc }

  pub Returns-try_catch :
      (m : Exec S A) (h : Failure → Exec S A)
      → Returns p m
      → ((e : Failure) → Returns p (h e))
      → Returns p (try_catch m h)
  unfolding try_catch
  Returns-try_catch m h rm rh = record { of = λ s a e. finish (m s) (λ b. rm.of s b) a e }
    where
      finish :
          (x : Result A × S)
          → ((b : A) → x.0 ≡ ok b → p b ≡ true)
          → (a : A) → (on_failure x h).0 ≡ ok a
          → p a ≡ true
      finish (ok b, s) k a e = k a e
      finish (err f, s) k a e = (rh f).of s a e

module _ {S A B : Type 0} {p : B → Bool} where
  pub Returns-bind :
      (m : Exec S A) (f : A → Exec S B) → ((a : A) → Returns p (f a)) → Returns p (m >>= f)
  unfolding ◌>>=◌
  Returns-bind m f rf = record { of = λ s b e. finish (m s) b e }
    where
      finish : (x : Result A × S) (b : B) → (continue x f).0 ≡ ok b → p b ≡ true
      finish (ok a, s) b e = (rf a).of s b e
      finish (err g, s) b e = absurd cc

  -- What `m` returns passes a test that `f` relies on.
  pub Returns-given :
      {q : A → Bool} (m : Exec S A) (f : A → Exec S B)
      → Returns q m
      → ((a : A) → q a ≡ true → Returns p (f a))
      → Returns p (m >>= f)
  unfolding ◌>>=◌
  Returns-given {q = q} m f rm rf = record { of = λ s. finish (m s) (rm.of s) }
    where
      finish :
          (x : Result A × S)
          → ((a : A) → x.0 ≡ ok a → q a ≡ true)
          → (b : B) → (continue x f).0 ≡ ok b
          → p b ≡ true
      finish (ok a, s) k b e = (rf a (k a refl)).of s b e
      finish (err g, s) k b e = absurd cc

  pub Returns-then : (m : Exec S A) (n : Exec S B) → Returns p n → Returns p (m >> n)
  Returns-then m n rn = Returns-bind m (λ _. n) (λ _. rn)

pub ruleset returns_rules = (Returns-throw, Returns-try_catch, Returns-bind, Returns-then)

pub record Leaves {S A : Type 0} (q : S → Bool) (m : Exec S A) : Type 0 where
  pub at : (s : S) (a : A) → (m s).0 ≡ ok a → q (m s).1 ≡ true

module _ {S A : Type 0} {q : S → Bool} where
  pub Leaves-transaction : (m : Exec S A) → Leaves q m → Leaves q (transaction m)
  unfolding transaction
  Leaves-transaction m lm = record { at = λ s a e. finish s (m s) (λ b. lm.at s b) a e }
    where
      finish :
          (s : S) (x : Result A × S)
          → ((b : A) → x.0 ≡ ok b → q x.1 ≡ true)
          → (a : A) → (roll_back s x).0 ≡ ok a
          → q (roll_back s x).1 ≡ true
      finish s (ok b, s') k a e = k a e
      finish s (err f, s') k a e = absurd cc

module _ {S A B : Type 0} {q : S → Bool} where
  pub Leaves-then : (m : Exec S A) (n : Exec S B) → Leaves q n → Leaves q (m >> n)
  unfolding ◌>>=◌
  Leaves-then m n ln = record { at = λ s b e. finish (m s) b e }
    where
      finish :
          (x : Result A × S) (b : B)
          → (continue x (λ _. n)).0 ≡ ok b
          → q (continue x (λ _. n)).1 ≡ true
      finish (ok a, s) b e = ln.at s b e
      finish (err g, s) b e = absurd cc

-- What `m` leaves is what `n` starts from.
module _ {S A B : Type 0} {q : S → Bool} {p : B → Bool} where
  pub Returns-after :
      (m : Exec S A) (n : Exec S B)
      → Leaves q m
      → ((s : S) (b : B) → q s ≡ true → (n s).0 ≡ ok b → p b ≡ true)
      → Returns p (m >> n)
  unfolding ◌>>=◌
  Returns-after m n lm k = record { of = λ s b e. finish (m s) (λ a. lm.at s a) b e }
    where
      finish :
          (x : Result A × S)
          → ((a : A) → x.0 ≡ ok a → q x.1 ≡ true)
          → (b : B) → (continue x (λ _. n)).0 ≡ ok b
          → p b ≡ true
      finish (ok a, s) l b e = k s b (l a refl) e
      finish (err g, s) l b e = absurd cc
