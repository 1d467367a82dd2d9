-- ===== src/Relay/Journal/Serial.antt =====
-- The constraints on the journal of operations: the operation ids of a relay are unique, and at
-- most one operation of a relay is open.
use awg_control.Base.{
  ℕ, ◌≡◌, refl, ◌⊎◌, inl, inr, String, str_eq, str_eq_iff, Bool, false, ◌&&◌, ◌||◌, Option, List,
  [], ◌∷◌, ◌++◌, any, ◌==◌, if◌then◌else◌, arith, Bool-cases, ||-false, false-||,
}
use awg_control.Base.Tables.{update_where}
use awg_control.Exec.{read, require}
use awg_control.Exec.Laws.{Keeps}
use awg_control.Panel.{Panel, RelayOperationRow, RelayOperationStatus, StoredRequest}
use awg_control.Relay.Store.{is_open, is_operation, get_operation}
use awg_control.Relay.Journal.{begin, blocks_begin, pending_row, finish, settled, is_other_open}

-- Two operations that the tables do not hold together.
abbrev pub clash : RelayOperationRow → RelayOperationRow → Bool
clash x y =
    x.relay_id == y.relay_id
    && (str_eq x.operation_id y.operation_id || is_open x.status && is_open y.status)

abbrev pub AreSerial : List RelayOperationRow → Type 0
AreSerial [] = Unit
AreSerial (x ∷ xs) = (any (clash x) xs ≡ false) × AreSerial xs

abbrev pub IsSerial : Panel → Type 0
IsSerial db = AreSerial db.relay_operations

any-clash-append :
    (x row : RelayOperationRow) (xs : List RelayOperationRow)
    → any (clash x) xs ≡ false
    → clash x row ≡ false
    → any (clash x) (xs ++ row ∷ []) ≡ false
any-clash-append x row [] h k = ground (arith, k)
any-clash-append x row (y ∷ ys) h k = ground (arith, k, any-clash-append x row ys)

AreSerial-append :
    (relay_id : ℕ) (op hash : String) (request : StoredRequest) (id now : ℕ)
    (xs : List RelayOperationRow)
    → AreSerial xs
    → any (blocks_begin relay_id op id) xs ≡ false
    → AreSerial (xs ++ pending_row relay_id op hash request id now ∷ [])
unfolding blocks_begin
AreSerial-append relay_id op hash request id now [] h k = (refl, tt)
AreSerial-append relay_id op hash request id now (x ∷ xs) h k = (
  any-clash-append x (pending_row relay_id op hash request id now) xs h.0 (ground (arith, k)),
  AreSerial-append relay_id op hash request id now xs h.1 (ground (arith, k)),
)

pub begin-IsSerial :
    (relay_id : ℕ) (op hash : String) (request : StoredRequest) (id now : ℕ)
    → Keeps IsSerial (begin relay_id op hash request id now)
unfolding begin read require get_operation
begin-IsSerial relay_id op hash request id now = record {
  at = λ s h. elim (Bool-cases (any (blocks_begin relay_id op id) s.relay_operations)) [
    | inl e ↦ ground (arith, e, h)
    | inr e ↦
        ground
          (arith, e, h, AreSerial-append relay_id op hash request id now s.relay_operations h e)
  ];
}

-- Why an update of an operation's status keeps the constraints.
abbrev Allowed : ℕ → String → RelayOperationStatus → List RelayOperationRow → Type 0
Allowed relay_id op status xs =
    (is_open status ≡ false)
    ⊎ (any (is_operation relay_id op) xs ≡ false)
    ⊎ (any (is_other_open relay_id op) xs ≡ false)

module _ (relay_id : ℕ) (op : String) (status : RelayOperationStatus) (code : Option String)
    (now : ℕ) where
  abbrev after : RelayOperationRow → RelayOperationRow
  after x = if is_operation relay_id op x then settled status code now x else x

  clash-closed :
      (x y : RelayOperationRow)
      → is_open status ≡ false
      → clash x y ≡ false
      → clash (after x) (after y) ≡ false
  clash-closed x y s h = ground (arith, s, h)

  clash-open :
      (x y : RelayOperationRow)
      → is_other_open relay_id op x ≡ false
      → is_other_open relay_id op y ≡ false
      → clash x y ≡ false
      → clash (after x) (after y) ≡ false
  clash-open x y p q h = ground (
    arith,
    str_eq_iff x.operation_id y.operation_id,
    str_eq_iff x.operation_id op,
    str_eq_iff y.operation_id op,
  )

  clash-after :
      (x y : RelayOperationRow) (ys : List RelayOperationRow)
      → Allowed relay_id op status (x ∷ y ∷ ys)
      → clash x y ≡ false
      → clash (after x) (after y) ≡ false
  clash-after x y ys (inl s) h = clash-closed x y s h
  clash-after x y ys (inr (inl n)) h = ground (arith, n, h)
  clash-after x y ys (inr (inr o)) h = clash-open x y (ground (arith, o)) (ground (arith, o)) h

  Allowed-tail :
      (x : RelayOperationRow) (xs : List RelayOperationRow)
      → Allowed relay_id op status (x ∷ xs)
      → Allowed relay_id op status xs
  Allowed-tail x xs a = ground (arith, a)

  Allowed-skip :
      (x y : RelayOperationRow) (xs : List RelayOperationRow)
      → Allowed relay_id op status (x ∷ y ∷ xs)
      → Allowed relay_id op status (x ∷ xs)
  Allowed-skip x y xs a = ground (arith, a)

  any-clash-after :
      (x : RelayOperationRow) (xs : List RelayOperationRow)
      → Allowed relay_id op status (x ∷ xs)
      → any (clash x) xs ≡ false
      → any (clash (after x)) (update_where (is_operation relay_id op) (settled status code now) xs)
        ≡ false
  unfolding update_where
  any-clash-after x [] a h = refl
  any-clash-after x (y ∷ ys) a h =
      false-|| (clash (after x) (after y)) _ (clash-after x y ys a (||-false (clash x y) _ h).0)
        (any-clash-after x ys (Allowed-skip x y ys a) (||-false (clash x y) _ h).1)

  AreSerial-update_where :
      (xs : List RelayOperationRow)
      → Allowed relay_id op status xs
      → AreSerial xs
      → AreSerial (update_where (is_operation relay_id op) (settled status code now) xs)
  unfolding update_where
  AreSerial-update_where [] a h = tt
  AreSerial-update_where (x ∷ xs) a h =
      (any-clash-after x xs a h.0, AreSerial-update_where xs (Allowed-tail x xs a) h.1)

  allowed :
      (xs : List RelayOperationRow)
      → (is_open status && any (is_operation relay_id op) xs && any (is_other_open relay_id op) xs)
        ≡ false
      → Allowed relay_id op status xs
  allowed xs h = ground (arith, h)

  pub finish-IsSerial : Keeps IsSerial (finish relay_id op status code now)
  unfolding finish
  finish-IsSerial = record {
    at = λ s h.
        elim (Bool-cases (
          is_open status
          && any (is_operation relay_id op) s.relay_operations
          && any (is_other_open relay_id op) s.relay_operations)) [
            | inl e ↦ ground (arith, e, h)
            | inr e ↦ ground (
              arith,
              e,
              AreSerial-update_where s.relay_operations (allowed s.relay_operations e) h,
            )
          ];
  }
