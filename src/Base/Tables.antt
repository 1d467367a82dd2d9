-- ===== src/Base/Tables.antt =====
-- A database table as the list of its rows, in the order of their insertion, and the statements of
-- SQL on it. A WHERE clause is a Boolean test of a row.
pub mod Laws
use Prim.Native.Nat.{ℕ, ◌+◌}
use mathlib.Core.Bool.{Bool}
use mathlib.Core.Option.{Option, none, some}
use mathlib.Core.List.{List, [], ◌∷◌}
use awg_control.Base.Tests.{if◌then◌else◌}

module _ {ℓ} {A : Type ℓ} where
  -- SELECT … WHERE p, its first row (`.get()`).
  unfoldable pub find_where : (A → Bool) → List A → Option A
  find_where p [] = none
  find_where p (x ∷ xs) = if p x then some x else find_where p xs

  -- `new Map(rows.map((row) => [key, row])).get(…)`: of the rows with a key, the last.
  unfoldable pub find_last : (A → Bool) → List A → Option A
  find_last p [] = none
  find_last p (x ∷ xs) = elim (find_last p xs) [
    | some later ↦ some later
    | none ↦ if p x then some x else none
  ]

  -- SELECT … WHERE p, all rows.
  unfoldable pub select_where : (A → Bool) → List A → List A
  select_where p [] = []
  select_where p (x ∷ xs) = let rest = select_where p xs in if p x then x ∷ rest else rest

  -- UPDATE … SET f WHERE p.
  unfoldable pub update_where : (A → Bool) → (A → A) → List A → List A
  update_where p f [] = []
  update_where p f (x ∷ xs) = (if p x then f x else x) ∷ update_where p f xs

  -- DELETE … WHERE p.
  unfoldable pub delete_where : (A → Bool) → List A → List A
  delete_where p [] = []
  delete_where p (x ∷ xs) = let rest = delete_where p xs in if p x then rest else x ∷ rest

  -- The `changes` of an UPDATE: the rows that its WHERE clause selects.
  unfoldable pub count_where : (A → Bool) → List A → ℕ
  count_where p [] = 0
  count_where p (x ∷ xs) = (if p x then 1 else 0) + count_where p xs

  -- ORDER BY, as a stable insertion sort: `le a b` when `a` may stand before `b`.
  insert_by : (A → A → Bool) → A → List A → List A
  insert_by le x [] = x ∷ []
  insert_by le x (y ∷ ys) = let rest = insert_by le x ys in if le x y then x ∷ y ∷ ys else y ∷ rest

  unfoldable pub order_by : (A → A → Bool) → List A → List A
  unfolding insert_by
  order_by le [] = []
  order_by le (x ∷ xs) = insert_by le x (order_by le xs)
