-- ===== src/Store/Idempotency.antt =====
-- The idempotency journal in apps/api/src/repository.ts: one record for each scope and operation id.
pub mod Laws
use awg_control.Base.{
  ℕ, String, str_eq, Bool, true, false, ◌&&◌, Option, none, some, List, [], ◌∷◌, ◌++◌, ◌==◌,
  if◌then◌else◌,
}
use awg_control.Base.Tables.{find_where, update_where}
use awg_control.Panel.{Panel, IdempotencyRow, IdempotencyStatus, Scope}

pub data Start : Type 0 where
  new repeat conflict : Start

abbrev pub subject_eq : Option ℕ → Option ℕ → Bool
subject_eq none none = true
subject_eq (some a) (some b) = a == b
subject_eq _ _ = false

-- scope = ? AND operation_id = ?
unfoldable pub is_record_of : Scope → String → IdempotencyRow → Bool
is_record_of scope operation_id row =
    str_eq row.scope.prefix scope.prefix
    && subject_eq row.scope.subject scope.subject
    && str_eq row.operation_id operation_id

abbrev pub started_row : Scope → String → String → ℕ → IdempotencyRow
started_row scope operation_id fingerprint now = record {
  scope = scope;
  operation_id = operation_id;
  request_hash = fingerprint;
  result_id = none;
  status = IdempotencyStatus.started;
  error_code = none;
  created_at = now;
  updated_at = now;
}

unfoldable pub begin_idempotency : Scope → String → String → ℕ → Panel → Start × Panel
begin_idempotency scope operation_id fingerprint now db =
    elim (find_where (is_record_of scope operation_id) db.idempotency_records) [
      | some existing ↦
          ((if str_eq existing.request_hash fingerprint then repeat else conflict), db)
      | none ↦ (
        new,
        record db {
          idempotency_records =
              db.idempotency_records ++ started_row scope operation_id fingerprint now ∷ [];
        },
      )
    ]

abbrev pub finished :
    IdempotencyStatus → Option ℕ → Option String → ℕ → IdempotencyRow → IdempotencyRow
finished status result_id error_code now row = record row {
  status = status;
  result_id = result_id;
  error_code = error_code;
  updated_at = now;
}

unfoldable pub finish_idempotency :
    Scope → String → IdempotencyStatus → Option ℕ → Option String → ℕ → Panel → Panel
finish_idempotency scope operation_id status result_id error_code now db = record db {
  idempotency_records =
      update_where (is_record_of scope operation_id) (finished status result_id error_code now)
        db.idempotency_records;
}

pub record IdempotencyResult : Type 0 where
  pub status : IdempotencyStatus
  pub result_id : Option ℕ
  pub error_code : Option String

abbrev pub to_result : IdempotencyRow → IdempotencyResult
to_result row = record {
  status = row.status;
  result_id = row.result_id;
  error_code = row.error_code;
}

unfoldable pub idempotency_result : Scope → String → Panel → Option IdempotencyResult
idempotency_result scope operation_id db =
    elim (find_where (is_record_of scope operation_id) db.idempotency_records) [
      | none ↦ none
      | some row ↦ some (to_result row)
    ]
