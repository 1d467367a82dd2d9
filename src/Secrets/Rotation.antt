-- ===== src/Secrets/Rotation.antt =====
-- What the rotation of the master key leaves in the tables.
use mathlib.Core.Option
use mathlib.Core.Path.{subst}
use awg_control.Base.{
  All, ℕ, ◌≡◌, refl, ap, sym, ◌∙◌, String, Bool, true, false, Option, none, some, List, [], ◌∷◌,
  Text, arith, Option-cases, Bool-cases, inl, inr, ◌==◌, if◌then◌else◌,
}
use awg_control.Base.Tables.{find_where, find_last, update_where}
use awg_control.Base.Tables.Laws.{find_where_sound, find_where-update_where}
use awg_control.Exec.{Result, ok, err, pure, continue, ◌>>=◌, require, modify}
use awg_control.Secrets.{Cipher, Holder, rotate_row, rotate_rows}

-- The branch that a test has chosen.
chosen : (A B : Type 0) (b : Bool) → b ≡ true → (if b then A else B) → A
chosen A B true h x = x
chosen A B false h x = absurd cc

-- A holder sets the secret of a row and nothing else that it reads.
pub record IsLawful {Row : Type 0} (holder : Holder Row) : Type 0 where
  pub same_id : (v : String) (row : Row) → holder.id (holder.set v row) ≡ holder.id row
  pub has_value : (v : String) (row : Row) → holder.value (holder.set v row) ≡ some v

module _ (cipher : Cipher) (key next_key : Text) {Row : Type 0} (holder : Holder Row)
    (lawful : IsLawful holder) where
  abbrev has : ℕ → Row → Bool
  has id row = holder.id row == id

  -- The secret of `value` under the old key is that of `new` under the new one; a row without a
  -- secret is left.
  abbrev Rekeyed : ℕ → Option String → Row → Row → Type 0
  Rekeyed id none old new = new ≡ old
  Rekeyed id (some value) old new =
      (secret : String) × (cipher.decrypt key (holder.purpose id) value ≡ some secret)
      × (holder.value new ≡ some (cipher.encrypt next_key (holder.purpose id) secret))

  -- One step of the loop, for the row itself and for the others.
  row_at :
      (id : ℕ) (value : Option String) (table : List Row) (k : ℕ) (old : Row)
      → (rotate_row cipher key next_key holder id value table).0 ≡ ok tt
      → find_where (has k) table ≡ some old
      → (new : Row) × (find_where (has k) (rotate_row cipher key next_key holder id value table).1
          ≡ some new)
        × (if id == k then Rekeyed id value old new else (new ≡ old))
  unfolding rotate_row ◌>>=◌ require modify
  row_at id none table k old e f = elim (Bool-cases (id == k)) [
    | inl h ↦ (old, f, rw h refl)
    | inr h ↦ (old, f, rw h refl)
  ]
  row_at id (some value) table k old e f =
      elim (Option-cases (cipher.decrypt key (holder.purpose id) value)) [
        | inl d ↦ absurd (ground (arith, e, d))
        | inr (secret, d) ↦
            let fresh : Row → Row =
              holder.set (cipher.encrypt next_key (holder.purpose id) secret) in
            let step : find_where (has k) (update_where (has id) fresh table)
                ≡ Option.map (λ x. if has id x then fresh x else x) (find_where (has k) table) =
              find_where-update_where (has k) (has id) fresh table
                (λ x. ap (λ n. n == k) (lawful.same_id _ x)) in
            elim (Bool-cases (id == k)) [
              | inl h ↦ (
                fresh old,
                rw d (ground (arith, step, f, h, find_where_sound (has k) table old f)),
                rw h (secret, d, lawful.has_value _ old),
              )
              | inr h ↦ (
                old,
                rw d (ground (arith, step, f, h, find_where_sound (has k) table old f)),
                rw h refl,
              )
            ]
      ]

  row_absent :
      (id : ℕ) (value : String) (table : List Row) (k : ℕ)
      → (rotate_row cipher key next_key holder id (some value) table).0 ≡ ok tt
      → find_where (has k) table ≡ none
      → find_where (has k) (rotate_row cipher key next_key holder id (some value) table).1 ≡ none
  unfolding rotate_row ◌>>=◌ require modify
  row_absent id value table k e n =
      elim (Option-cases (cipher.decrypt key (holder.purpose id) value)) [
        | inl d ↦ absurd (ground (arith, e, d))
        | inr (secret, d) ↦
            let fresh : Row → Row =
              holder.set (cipher.encrypt next_key (holder.purpose id) secret) in
            rw d (
              find_where-update_where (has k) (has id) fresh table
                (λ x. ap (λ j. j == k) (lawful.same_id _ x))
              ∙ ap (Option.map (λ x. if has id x then fresh x else x)) n)
      ]

  -- One step, for an id that has no secret in it.
  row_bare :
      (id : ℕ) (value : Option String) (table : List Row) (k : ℕ)
      → (rotate_row cipher key next_key holder id value table).0 ≡ ok tt
      → ((id == k) ≡ true → value ≡ none)
      → find_where (has k) (rotate_row cipher key next_key holder id value table).1
        ≡ find_where (has k) table
  row_bare id none table k e a = unfold rotate_row pure in refl
  row_bare id (some value) table k e a = elim (Bool-cases (id == k)) [
    | inl h ↦ absurd (ground (arith, a h))
    | inr h ↦ elim (Option-cases (find_where (has k) table)) [
      | inr (old, f) ↦
          let (new, f', w) = row_at id (some value) table k old e f in
          let kept : new ≡ old = ground (arith, w, h) in f' ∙ (ap some kept ∙ sym f)
      | inl n ↦ row_absent id value table k e n ∙ sym n
    ]
  ]

  -- A loop that returns has run its first step and then the others.
  first_step :
      (row : Row) (rows table : List Row)
      → (rotate_rows cipher key next_key holder (row ∷ rows) table).0 ≡ ok tt
      → ((rotate_row cipher key next_key holder (holder.id row) (holder.value row) table).0 ≡ ok tt)
        × (rotate_rows cipher key next_key holder (row ∷ rows) table
            ≡ rotate_rows cipher key next_key holder rows
                (rotate_row cipher key next_key holder (holder.id row) (holder.value row) table).1)
  unfolding rotate_rows ◌>>=◌
  first_step row rows table e =
      go (rotate_row cipher key next_key holder (holder.id row) (holder.value row) table) e
    where
      go :
          (x : Result (Unit {0}) × List Row)
          → (continue x (λ u. rotate_rows cipher key next_key holder rows)).0 ≡ ok tt
          → (x.0 ≡ ok tt)
            × (continue x (λ u. rotate_rows cipher key next_key holder rows)
                ≡ rotate_rows cipher key next_key holder rows x.1)
      go (ok tt, s) e = (refl, refl)
      go (err f, s) e = absurd cc

  -- A row that no step is for stays as it is.
  rows_untouched :
      (rows table : List Row) (k : ℕ) (old : Row)
      → (rotate_rows cipher key next_key holder rows table).0 ≡ ok tt
      → find_where (has k) table ≡ some old
      → find_last (has k) rows ≡ none
      → find_where (has k) (rotate_rows cipher key next_key holder rows table).1 ≡ some old
  rows_untouched [] table k old e f g = unfold rotate_rows pure in f
  rows_untouched (row ∷ rows) table k old e f g =
      let (done, same) = first_step row rows table e in
      let table' : List Row =
        (rotate_row cipher key next_key holder (holder.id row) (holder.value row) table).1 in
      let (new, f', h) = row_at (holder.id row) (holder.value row) table k old done f in
      let other : find_last (has k) rows ≡ none = unfold find_last in ground (arith, g) in
      let mine : has k row ≡ false = unfold find_last in ground (arith, g) in
      let kept : new ≡ old = ground (arith, h, mine) in
      ap (λ x. find_where (has k) x.1) same
      ∙ (rows_untouched rows table' k new (ap (λ x. x.0) (sym same) ∙ e) f' other ∙ ap some kept)

  -- Where every row of an id is bare, the loop does not touch what the id finds.
  pub rows_bare :
      (rows table : List Row) (k : ℕ)
      → (rotate_rows cipher key next_key holder rows table).0 ≡ ok tt
      → All (λ row. has k row ≡ true → holder.value row ≡ none) rows
      → find_where (has k) (rotate_rows cipher key next_key holder rows table).1
        ≡ find_where (has k) table
  rows_bare [] table k e a = unfold rotate_rows pure in refl
  rows_bare (row ∷ rows) table k e a =
      let (done, same) = first_step row rows table e in
      let table' : List Row =
        (rotate_row cipher key next_key holder (holder.id row) (holder.value row) table).1 in
      ap (λ x. find_where (has k) x.1) same
      ∙ (rows_bare rows table' k (ap (λ x. x.0) (sym same) ∙ e) a.1
          ∙ row_bare (holder.id row) (holder.value row) table k done a.0)

  -- A row with a secret is encrypted anew.
  pub rows_rekeyed :
      (rows table : List Row) (k : ℕ) (old row : Row) (value : String)
      → (rotate_rows cipher key next_key holder rows table).0 ≡ ok tt
      → find_where (has k) table ≡ some old
      → find_last (has k) rows ≡ some row
      → holder.value row ≡ some value
      → (new : Row) × (find_where (has k) (rotate_rows cipher key next_key holder rows table).1
          ≡ some new)
        × ((secret : String) × (cipher.decrypt key (holder.purpose k) value ≡ some secret)
            × (holder.value new ≡ some (cipher.encrypt next_key (holder.purpose k) secret)))
  rows_rekeyed [] table k old row value e f g v = unfold find_last in absurd cc
  rows_rekeyed (r ∷ rows) table k old row value e f g v =
      let (done, same) = first_step r rows table e in
      let table' : List Row =
        (rotate_row cipher key next_key holder (holder.id r) (holder.value r) table).1 in
      let (mid, f', h) = row_at (holder.id r) (holder.value r) table k old done f in
      let e' : (rotate_rows cipher key next_key holder rows table').0 ≡ ok tt =
        ap (λ x. x.0) (sym same) ∙ e in
      elim (Option-cases (find_last (has k) rows)) [
        | inl n ↦
            let mine : (has k r ≡ true) × (r ≡ row) = unfold find_last in ground (arith, g, n) in
            let (secret, d, w) =
              here r table k old mid value mine.0 (ap holder.value mine.1 ∙ v) h in
            (
              mid,
              ap (λ x. find_where (has k) x.1) same ∙ rows_untouched rows table' k mid e' f' n,
              (secret, d, w),
            )
        | inr (later, n) ↦
            let g' : find_last (has k) rows ≡ some row = unfold find_last in ground (arith, g, n) in
            let (new, f'', w) = rows_rekeyed rows table' k mid row value e' f' g' v in
            (new, ap (λ x. find_where (has k) x.1) same ∙ f'', w)
      ]
    where
      here :
          (r : Row) (table : List Row) (k : ℕ) (old mid : Row) (value : String)
          → has k r ≡ true
          → holder.value r ≡ some value
          → (if holder.id r == k
              then Rekeyed (holder.id r) (holder.value r) old mid
              else (mid ≡ old))
          → (secret : String) × (cipher.decrypt key (holder.purpose k) value ≡ some secret)
            × (holder.value mid ≡ some (cipher.encrypt next_key (holder.purpose k) secret))
      here r table k old mid value mine v h =
          let w : Rekeyed (holder.id r) (holder.value r) old mid = chosen _ _ (has k r) mine h in
          subst
            (λ j.
              (secret : String) × (cipher.decrypt key (holder.purpose j) value ≡ some secret)
              × (holder.value mid ≡ some (cipher.encrypt next_key (holder.purpose j) secret)))
            (ground (arith, mine)) (subst (λ o. Rekeyed (holder.id r) o old mid) v w)
