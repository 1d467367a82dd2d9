-- ===== src/Relay/Changes/Exclusion.antt =====
-- What a change of a relay does while another operation of the relay is open.
use awg_control.Base.{
  ℕ, ◌≡◌, refl, ap, ◌∙◌, ◌⊎◌, inl, inr, String, str_eq, str_eq_iff, Bool, true, false, some, List,
  [], ◌∷◌, any, ◌==◌, arith, Option-cases, Bool-cases,
}
use awg_control.Base.Tables.{find_where, delete_where}
use awg_control.Base.Tables.Laws.{find_where_sound}
use awg_control.Crypto.{Hashes, request_fingerprint}
use awg_control.Exec.{Failure, Result, ok, err, conflict, not_found, pure, throw, ◌>>=◌}
use awg_control.Panel.{Panel, Readings, RelayBody, RelayOperationRow, RelayOperationStatus}
use awg_control.Helper.{HelperClient}
use awg_control.Relay.Store.{
  RelayOperation, StoredRelayOperation, is_open, is_open_on, is_operation, get_operation, stored_of,
  operation, get_relay, pending,
}
use awg_control.Relay.Journal.Serial.{clash, AreSerial, IsSerial}
use awg_control.Relay.Service.{RelayClient, exclusively, start_running, stop_running, finally}
use awg_control.Relay.Changes.{change_json, resume, proceed, perform, store, mutate}

any_found :
    (p q : RelayOperationRow → Bool) (rows : List RelayOperationRow) (row : RelayOperationRow)
    → find_where p rows ≡ some row
    → q row ≡ true
    → any q rows ≡ true
unfolding find_where
any_found p q [] row h k = absurd cc
any_found p q (r ∷ rows) row h k = elim (Bool-cases (p r)) [
  | inl e ↦ ground (arith, h, e, k)
  | inr e ↦ ground (arith, any_found p q rows row (ground (arith, h, e)) k)
]

none_found :
    (p q : RelayOperationRow → Bool) (rows : List RelayOperationRow) (row : RelayOperationRow)
    → find_where p rows ≡ some row
    → any q rows ≡ false
    → q row ≡ false
none_found p q rows row h k = elim (Bool-cases (q row)) [
  | inl e ↦ absurd (ground (arith, k, any_found p q rows row h e))
  | inr e ↦ e
]

-- Two open operations of one relay in a serial journal are the same operation.
open_once :
    (id : ℕ) (op other : String) (rows : List RelayOperationRow) (x y : RelayOperationRow)
    → AreSerial rows
    → find_where (is_operation id op) rows ≡ some x
    → find_where (is_operation id other) rows ≡ some y
    → is_open x.status ≡ true
    → is_open y.status ≡ true
    → str_eq op other ≡ true
unfolding find_where
open_once id op other [] x y s h k p q = absurd cc
open_once id op other (r ∷ rows) x y s h k p q = elim (Bool-cases (is_operation id op r)) [
  | inl a ↦ elim (Bool-cases (is_operation id other r)) [
    | inl b ↦ ground (
      arith,
      a,
      b,
      str_eq_iff r.operation_id op,
      str_eq_iff r.operation_id other,
      str_eq_iff op other,
    )
    | inr b ↦
        let k' : find_where (is_operation id other) rows ≡ some y = ground (arith, k, b) in
        let of_y = find_where_sound (is_operation id other) rows y k' in
        absurd (
          ground
            (arith, h, a, p, q, of_y, none_found (is_operation id other) (clash r) rows y k' s.0))
  ]
  | inr a ↦
      let h' : find_where (is_operation id op) rows ≡ some x = ground (arith, h, a) in
      elim (Bool-cases (is_operation id other r)) [
        | inl b ↦
            let of_x = find_where_sound (is_operation id op) rows x h' in
            absurd (
              ground
                (arith, k, b, p, q, of_x, none_found (is_operation id op) (clash r) rows x h' s.0))
        | inr b ↦ open_once id op other rows x y s.1 h' (ground (arith, k, b)) p q
      ]
]

delete_none :
    (id : ℕ) (ks : List ℕ) → any (λ k. k == id) ks ≡ false → delete_where (λ k. k == id) ks ≡ ks
unfolding delete_where
delete_none id [] h = refl
delete_none id (k ∷ ks) h = ground (arith, h, delete_none id ks)

-- The lock is as it was.
released :
    (id : ℕ) (db : Panel)
    → any (λ k. k == id) db.running_relays ≡ false
    → stop_running id (start_running id db) ≡ db
unfolding stop_running start_running delete_where
released id db h =
    ap (λ ks. record db { running_relays = ks })
      (unfold delete_where in ground (arith, delete_none id db.running_relays h))

-- The program throws and writes nothing, or answers with an operation that has succeeded earlier and
-- writes nothing.
abbrev pub IsInert : Panel → Result RelayOperation × Panel → Type 0
IsInert db x =
    ((e : Failure) × (x ≡ (err e, db)))
    ⊎ ((o : RelayOperation) × (x ≡ (ok o, db)) × (o.status ≡ RelayOperationStatus.succeeded))

module _ (client : RelayClient) (helper : HelperClient) (is_ipv4 : String → Bool) (hashes : Hashes)
    (r : Readings) (id : ℕ) where
  resume-IsInert :
      (body : RelayBody) (op : String) (stored : StoredRelayOperation) (db : Panel)
      (status : RelayOperationStatus)
      → stored.state.status ≡ status
      → is_open status ≡ false
      → IsInert db (resume client helper is_ipv4 hashes r id body op stored status db)
  unfolding resume pure throw
  resume-IsInert body op stored db RelayOperationStatus.succeeded e h = inr (stored.state, refl, e)
  resume-IsInert body op stored db RelayOperationStatus.failed e h = inl (_, refl)
  resume-IsInert body op stored db RelayOperationStatus.pending e h = absurd cc
  resume-IsInert body op stored db RelayOperationStatus.uncertain e h = absurd cc

  perform-IsInert :
      (op other : String) (body : RelayBody) (db : Panel) (row : RelayOperationRow)
      → find_where (is_operation id other) db.relay_operations ≡ some row
      → is_open row.status ≡ true
      → str_eq op other ≡ false
      → IsSerial db
      → IsInert db (perform client helper is_ipv4 hashes r id op body db)
  unfolding perform ◌>>=◌ proceed store get_operation pending operation find_where
  perform-IsInert op other body db row found still differs serial =
      elim (Option-cases (get_relay id db)) [
        | inl n ↦ inl (not_found, rw n refl)
        | inr (relay, g) ↦
            elim (Option-cases (find_where (is_operation id op) db.relay_operations)) [
              | inl n ↦
                  let of_row =
                    find_where_sound (is_operation id other) db.relay_operations row found in
                  let busy : any (is_open_on id) db.relay_operations ≡ true =
                    any_found (is_operation id other) (is_open_on id) db.relay_operations row found
                      (ground (arith, still, of_row)) in
                  inl (conflict "RELAY_BUSY", rw (g, n, busy) refl)
              | inr (mine, n) ↦
                  elim (Bool-cases
                    (str_eq mine.request_hash (request_fingerprint hashes (change_json body)))) [
                      | inr d ↦ inl (conflict "IDEMPOTENCY_CONFLICT", rw (g, n, d) refl)
                      | inl d ↦ elim (Bool-cases (is_open mine.status)) [
                        | inl o ↦ absurd (
                            ground (
                              arith,
                              differs,
                              open_once id op other db.relay_operations mine row serial n found o
                                  still,
                            ))
                        | inr o ↦
                            rw (g, n, d)
                              (resume-IsInert body op (stored_of mine) db mine.status refl o)
                      ]
                    ]
            ]
      ]

  -- While an operation of a relay is open, a request to change the relay with another key does
  -- nothing, whatever it asks for, whether its key is new or known, and whether the operation is being
  -- carried out or has been left open: it throws, or it is answered with the operation of its key that
  -- has succeeded earlier, and the panel is as it was, the lock of the relay included. The journal is
  -- one in which at most one operation of each relay is open.
  pub mutate_excluded :
      (op other : String) (body : RelayBody) (db : Panel) (row : RelayOperationRow)
      → find_where (is_operation id other) db.relay_operations ≡ some row
      → is_open row.status ≡ true
      → str_eq op other ≡ false
      → IsSerial db
      → IsInert db (mutate client helper is_ipv4 hashes r id op body db)
  unfolding mutate exclusively ◌>>=◌ finally stop_running start_running
  mutate_excluded op other body db row found still differs serial =
      elim (Bool-cases (any (λ k. k == id) db.running_relays)) [
        | inl b ↦ inl (conflict "RELAY_BUSY", rw b refl)
        | inr b ↦ rw b (
            inert_released (perform client helper is_ipv4 hashes r id op body (start_running id db))
              (perform-IsInert op other body (start_running id db) row found still differs serial)
              (released id db b))
      ]
    where
      inert_released :
          (x : Result RelayOperation × Panel)
          → IsInert (start_running id db) x
          → stop_running id (start_running id db) ≡ db
          → IsInert db (x.0, stop_running id x.1)
      inert_released x (inl (e, same)) back =
          inl (e, ap (λ y. (y.0, stop_running id y.1)) same ∙ ap (λ t. (err e, t)) back)
      inert_released x (inr (o, same, done)) back =
          inr (o, ap (λ y. (y.0, stop_running id y.1)) same ∙ ap (λ t. (ok o, t)) back, done)
