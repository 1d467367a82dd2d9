-- ===== src/Base/Tables/Laws.antt =====
-- How the statements of SQL act on what a later query finds.
use mathlib.Core.Path.{◌≡◌, refl}
use mathlib.Core.Bool.{Bool, true, false}
use mathlib.Core.Option.{Option, none, some}
use mathlib.Core.Option
use mathlib.Core.List.{List, [], ◌∷◌, ◌++◌}
use native.Mathlib.Omega.{arith}
use awg_control.Base.Tests.{if◌then◌else◌}
use awg_control.Base.Lists.{All, any}
use awg_control.Base.Tables.{find_where, select_where, update_where, delete_where}

module _ {ℓ} {A : Type ℓ} where
  -- A row that is found satisfies the query.
  pub find_where_sound :
      (p : A → Bool) (xs : List A) (x : A) → find_where p xs ≡ some x → p x ≡ true
  unfolding find_where
  find_where_sound p [] x h = cc
  find_where_sound p (y ∷ ys) x h = ground (arith, find_where_sound p ys x)

  -- What holds of every row holds of the row that is found.
  pub find_where-All {κ} :
      (P : A → Type κ) (p : A → Bool) (xs : List A) (x : A)
      → All P xs
      → find_where p xs ≡ some x
      → P x
  unfolding find_where
  find_where-All P p [] x a h = cc
  find_where-All P p (y ∷ ys) x a h = ground (arith, find_where-All P p ys x a.1)

  pub find_where-append :
      (p : A → Bool) (xs ys : List A)
      → find_where p (xs ++ ys)
        ≡ elim (find_where p xs) [ none ↦ find_where p ys | some x ↦ some x ]
  unfolding find_where
  find_where-append p [] ys = refl
  find_where-append p (x ∷ xs) ys = ground (arith, find_where-append p xs ys)

  pub find_where-none_of_any :
      (p : A → Bool) (xs : List A) → any p xs ≡ false → find_where p xs ≡ none
  unfolding find_where
  find_where-none_of_any p [] h = refl
  find_where-none_of_any p (x ∷ xs) h = ground (arith, find_where-none_of_any p xs)

  -- An update that does not change whether `p` holds maps the row that `p` finds.
  pub find_where-update_where :
      (p q : A → Bool) (f : A → A) (xs : List A)
      → ((x : A) → p (f x) ≡ p x)
      → find_where p (update_where q f xs)
        ≡ Option.map (λ x. if q x then f x else x) (find_where p xs)
  unfolding find_where update_where
  find_where-update_where p q f [] h = refl
  find_where-update_where p q f (x ∷ xs) h = ground (arith, h x, find_where-update_where p q f xs h)

  pub All-update_where {κ} :
      (P : A → Type κ) (q : A → Bool) (f : A → A) (xs : List A)
      → ((x : A) → P x → q x ≡ true → P (f x))
      → All P xs
      → All P (update_where q f xs)
  unfolding update_where
  All-update_where P q f [] h a = tt
  All-update_where P q f (x ∷ xs) h a = (ground (arith, h x a.0), All-update_where P q f xs h a.1)

  pub All-delete_where {κ} :
      (P : A → Type κ) (q : A → Bool) (xs : List A) → All P xs → All P (delete_where q xs)
  unfolding delete_where
  All-delete_where P q [] a = tt
  All-delete_where P q (x ∷ xs) a = ground (arith, All-delete_where P q xs a.1)

  -- The rows that a DELETE leaves do not satisfy its WHERE clause.
  pub delete_where_clears :
      (q : A → Bool) (xs : List A) → All (λ x. q x ≡ false) (delete_where q xs)
  unfolding delete_where
  delete_where_clears q [] = tt
  delete_where_clears q (x ∷ xs) = ground (arith, delete_where_clears q xs)

  pub find_where-delete_where :
      (p q : A → Bool) (xs : List A)
      → ((x : A) → p x ≡ true → q x ≡ false)
      → find_where p (delete_where q xs) ≡ find_where p xs
  unfolding find_where delete_where
  find_where-delete_where p q [] h = refl
  find_where-delete_where p q (x ∷ xs) h = ground (arith, h x, find_where-delete_where p q xs h)

  pub find_where-delete_where_same :
      (q : A → Bool) (xs : List A) → find_where q (delete_where q xs) ≡ none
  unfolding find_where delete_where
  find_where-delete_where_same q [] = refl
  find_where-delete_where_same q (x ∷ xs) = ground (arith, find_where-delete_where_same q xs)

  pub select_where_sound : (p : A → Bool) (xs : List A) → All (λ x. p x ≡ true) (select_where p xs)
  unfolding select_where
  select_where_sound p [] = tt
  select_where_sound p (x ∷ xs) = ground (arith, select_where_sound p xs)

  -- If no row satisfies `p`, and the update makes none satisfy `q`, then `q` finds none after it.
  pub find_where-none-update_where :
      (p q u : A → Bool) (f : A → A) (xs : List A)
      → ((x : A) → p x ≡ false → q (if u x then f x else x) ≡ false)
      → find_where p xs ≡ none
      → find_where q (update_where u f xs) ≡ none
  unfolding find_where update_where
  find_where-none-update_where p q u f [] h e = refl
  find_where-none-update_where p q u f (x ∷ xs) h e =
      ground (arith, h x, find_where-none-update_where p q u f xs h)

  -- An update that keeps whether rows satisfy `p`, and the rows that do, is not seen by `p`.
  pub find_where-update_where_same :
      (p q u : A → Bool) (f : A → A) (xs : List A)
      → ((x : A) → q (if u x then f x else x) ≡ p x)
      → ((x : A) → p x ≡ true → u x ≡ false)
      → find_where q (update_where u f xs) ≡ find_where p xs
  unfolding find_where update_where
  find_where-update_where_same p q u f [] h k = refl
  find_where-update_where_same p q u f (x ∷ xs) h k =
      ground (arith, h x, k x, find_where-update_where_same p q u f xs h k)

  pub find_where-cong :
      (p q : A → Bool) (xs : List A) → ((x : A) → p x ≡ q x) → find_where p xs ≡ find_where q xs
  unfolding find_where
  find_where-cong p q [] h = refl
  find_where-cong p q (x ∷ xs) h = ground (arith, h x, find_where-cong p q xs h)

  -- A property that an update gives to every row holds of the row found after it.
  pub find_where-update_where_sound {κ} :
      (P : A → Type κ) (q u : A → Bool) (f : A → A) (xs : List A) (x : A)
      → ((y : A) → q (if u y then f y else y) ≡ true → P (if u y then f y else y))
      → find_where q (update_where u f xs) ≡ some x
      → P x
  unfolding find_where update_where
  find_where-update_where_sound P q u f [] x h e = cc
  find_where-update_where_sound P q u f (y ∷ ys) x h e =
      ground (arith, h y, find_where-update_where_sound P q u f ys x h)

  pub find_where-delete_where-none :
      (p q : A → Bool) (xs : List A)
      → ((x : A) → p x ≡ true → q x ≡ true)
      → find_where p (delete_where q xs) ≡ none
  unfolding find_where delete_where
  find_where-delete_where-none p q [] h = refl
  find_where-delete_where-none p q (x ∷ xs) h =
      ground (arith, h x, find_where-delete_where-none p q xs h)
