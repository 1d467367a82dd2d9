-- ===== src/Store/Idempotency/Laws.antt =====
-- The contract of the journal: each key is started once, and keeps its request and its outcome.
use mathlib.Core.Option
use text.Mathlib.TextPositions.{eq_refl}
use awg_control.Base.{
  ℕ, ◌≡◌, ◌≢◌, refl, sym, ◌∙◌, ap, String, str_eq, str_eq_iff, true, false, Option, none, some, [],
  ◌∷◌, arith, if◌then◌else◌, Option-cases, Bool-cases, inl, inr, ==_refl, ◌⊎◌,
}
use awg_control.Base.Tables.{find_where}
use awg_control.Base.Tables.Laws.{
  find_where_sound, find_where-append, find_where-update_where, find_where-update_where_same,
}
use awg_control.Panel.{Panel, IdempotencyRow, IdempotencyStatus, Scope}
use awg_control.Store.Idempotency.{
  Start, new, repeat, conflict, subject_eq, is_record_of, started_row, begin_idempotency, finished,
  finish_idempotency, to_result, idempotency_result, IdempotencyResult,
}

subject_eq_refl : (o : Option ℕ) → subject_eq o o ≡ true
subject_eq_refl none = refl
subject_eq_refl (some a) = ==_refl a

started_is_record :
    (scope : Scope) (op fingerprint : String) (now : ℕ)
    → is_record_of scope op (started_row scope op fingerprint now) ≡ true
unfolding is_record_of
started_is_record scope op fingerprint now = simp (eq_refl, subject_eq_refl)

-- What a second request with a key is told: `repeat` exactly for the same fingerprint.
abbrev pub second_start : String → String → Start
second_start first fingerprint = if str_eq first fingerprint then repeat else conflict

-- Once a key is started, a second request with it is a repeat or a conflict by its fingerprint
-- alone, and writes nothing.
begin_idempotency_twice :
    (scope : Scope) (op first second : String) (now later : ℕ) (db : Panel)
    → (begin_idempotency scope op first now db).0 ≡ new
    → begin_idempotency scope op second later (begin_idempotency scope op first now db).1
      ≡ (second_start first second, (begin_idempotency scope op first now db).1)
unfolding begin_idempotency
begin_idempotency_twice scope op first second now later db h =
    elim (Option-cases (find_where (is_record_of scope op) db.idempotency_records)) [
      | inr (row, e) ↦ absurd (ground arith)
      | inl e ↦ ground (
        arith,
        find_where-append (is_record_of scope op) db.idempotency_records
            (started_row scope op first now ∷ []),
        find_one scope op first now,
      )
    ]
  where
    find_one :
        (scope : Scope) (op first : String) (now : ℕ)
        → find_where (is_record_of scope op) (started_row scope op first now ∷ [])
          ≡ some (started_row scope op first now)
    find_one scope op first now = unfold find_where in rw started_is_record refl

subject_eq→eq : (a b : Option ℕ) → subject_eq a b ≡ true → a ≡ b
subject_eq→eq a b h = ground arith

-- A record belongs to one key.
record_key :
    (scope : Scope) (op : String) (row : IdempotencyRow)
    → is_record_of scope op row ≡ true
    → (row.scope ≡ scope) × (row.operation_id ≡ op)
unfolding is_record_of
record_key scope op row h = ground (
  arith,
  str_eq_iff row.scope.prefix scope.prefix,
  str_eq_iff row.operation_id op,
  subject_eq→eq row.scope.subject scope.subject,
)

other_key :
    (other scope : Scope) (other_op op : String) (row : IdempotencyRow)
    → ¬ ((other ≡ scope) × (other_op ≡ op))
    → is_record_of other other_op row ≡ true
    → is_record_of scope op row ≡ false
other_key other scope other_op op row ne h = elim (Bool-cases (is_record_of scope op row)) [
  | inl k ↦
      let (s, o) = record_key scope op row k in
      let (s', o') = record_key other other_op row h in absurd (ne (sym s' ∙ s, sym o' ∙ o))
  | inr k ↦ k
]

-- Finishing a started operation sets its outcome.
pub finish_idempotency_outcome :
    (scope : Scope) (op : String) (status : IdempotencyStatus) (result_id : Option ℕ)
    (error_code : Option String) (now : ℕ) (db : Panel)
    → idempotency_result scope op db ≢ none
    → idempotency_result scope op (finish_idempotency scope op status result_id error_code now db)
      ≡ some (record { status = status; result_id = result_id; error_code = error_code })
unfolding idempotency_result finish_idempotency
finish_idempotency_outcome scope op status result_id error_code now db started =
    elim (Option-cases (find_where (is_record_of scope op) db.idempotency_records)) [
      | inl e ↦ absurd (started (ground arith))
      | inr (row, e) ↦ ground (
        arith,
        find_where-update_where (is_record_of scope op) (is_record_of scope op)
            (finished status result_id error_code now) db.idempotency_records
            (λ x. unfold is_record_of in refl),
        find_where_sound (is_record_of scope op) db.idempotency_records row e,
      )
    ]

-- Finishing an operation changes the outcome of no other key.
finish_idempotency_others :
    (scope : Scope) (op : String) (status : IdempotencyStatus) (result_id : Option ℕ)
    (error_code : Option String) (now : ℕ) (db : Panel) (other : Scope) (other_op : String)
    → ¬ ((other ≡ scope) × (other_op ≡ op))
    → idempotency_result other other_op
        (finish_idempotency scope op status result_id error_code now db)
      ≡ idempotency_result other other_op db
unfolding idempotency_result finish_idempotency
finish_idempotency_others scope op status result_id error_code now db other other_op ne =
    ap (Option.map to_result) (
      find_where-update_where_same (is_record_of other other_op) (is_record_of other other_op)
        (is_record_of scope op) (finished status result_id error_code now) db.idempotency_records
        (λ x. unfold is_record_of in ground arith)
        (λ x h. other_key other scope other_op op x ne h))

-- A key that the journal holds is not started again.
pub begin_idempotency_existing :
    (scope : Scope) (op fingerprint : String) (now : ℕ) (db : Panel) (prior : IdempotencyResult)
    → idempotency_result scope op db ≡ some prior
    → (begin_idempotency scope op fingerprint now db ≡ (repeat, db))
      ⊎ (begin_idempotency scope op fingerprint now db ≡ (conflict, db))
unfolding begin_idempotency idempotency_result
begin_idempotency_existing scope op fingerprint now db prior e =
    elim (Option-cases (find_where (is_record_of scope op) db.idempotency_records)) [
      | inl n ↦ absurd (ground (arith, n, e))
      | inr (row, f) ↦ elim (Bool-cases (str_eq row.request_hash fingerprint)) [
        | inl h ↦ inl (ground (arith, f, h))
        | inr h ↦ inr (ground (arith, f, h))
      ]
    ]

-- Starting an operation writes to the journal only.
pub connections-begin_idempotency :
    (scope : Scope) (op fingerprint : String) (now : ℕ) (db : Panel)
    → (begin_idempotency scope op fingerprint now db).1.connections ≡ db.connections
unfolding begin_idempotency
connections-begin_idempotency scope op fingerprint now db = ground arith
