-- ===== src/Relay/Changes/Outcomes.antt =====
-- What a change of a relay answers.
use awg_control.Base.{
  ℕ, ◌≡◌, refl, String, Bool, true, false, Option, none, some, List, arith, Option-cases, inl, inr,
  on_some,
}
use awg_control.Base.Tables.{find_where, update_where}
use awg_control.Base.Tables.Laws.{find_where-update_where_sound}
use awg_control.Crypto.{Hashes}
use awg_control.Exec.{ok, other_error, pure, read, modify, ◌>>=◌, ◌>>◌}
use awg_control.Exec.Returns.{
  Returns, Returns-pure, Returns-throw, Returns-bind, Returns-then, returns_rules, Leaves,
  Leaves-transaction, Leaves-then, Returns-after,
}
use awg_control.Panel.{
  Panel, Readings, RelayBody, RelayChange, RelayRoute, RelayOperationStatus, RelayOperationRow,
}
use awg_control.Store.Audit.{AuditInput, add_audit}
use awg_control.Helper.{HelperClient}
use awg_control.Relay.Store.{
  RelayServer, RelayOperation, StoredRelayOperation, is_operation, get_operation, operation,
}
use awg_control.Relay.Journal.{commit, finish, settled}
use awg_control.Relay.Service.{RelayClient}
use awg_control.Relay.Changes.{carry_out, settle, attempt, resume, proceed, perform}

abbrev pub has_succeeded : RelayOperation → Bool
has_succeeded o = elim o.status [
  | RelayOperationStatus.succeeded ↦ true
  | RelayOperationStatus.pending ↦ false
  | RelayOperationStatus.failed ↦ false
  | RelayOperationStatus.uncertain ↦ false
]

-- The row that is read after an update to `succeeded` has succeeded.
found_succeeded :
    (id : ℕ) (op : String) (code : Option String) (now : ℕ) (rows : List RelayOperationRow)
    (row : RelayOperationRow)
    → find_where
        (is_operation id op)
        (update_where (is_operation id op) (settled RelayOperationStatus.succeeded code now) rows)
      ≡ some row
    → has_succeeded (operation row) ≡ true
unfolding operation
found_succeeded id op code now rows row e =
    find_where-update_where_sound (λ x. has_succeeded (operation x) ≡ true) (is_operation id op)
      (is_operation id op) (settled RelayOperationStatus.succeeded code now) rows row
      (λ y h. ground (arith, h)) e

-- The journal's record of the operation, if there is one, says that it has succeeded.
abbrev is_settled : ℕ → String → Panel → Bool
is_settled id op db = on_some true (λ o. has_succeeded o.state) (get_operation id op db)

finish-settled :
    (id : ℕ) (op : String) (code : Option String) (now : ℕ)
    → Leaves (is_settled id op) (finish id op RelayOperationStatus.succeeded code now)
unfolding finish get_operation
finish-settled id op code now = record {
  at = λ s a e.
      elim (Option-cases (
        find_where (is_operation id op) (
          update_where (is_operation id op) (settled RelayOperationStatus.succeeded code now)
            s.relay_operations))) [
              | inl n ↦ ground (arith, n)
              | inr (row, f) ↦
                  ground (arith, f, found_succeeded id op code now s.relay_operations row f)
            ];
}

commit-settled :
    (id : ℕ) (op : String) (rs : List RelayRoute) (f v : String) (i a : Bool) (clock : ℕ → ℕ)
    → Leaves (is_settled id op) (commit id op rs f v i a clock)
unfolding commit
commit-settled id op rs f v i a clock =
    Leaves-transaction _
      (Leaves-then _ _ (Leaves-then _ _ (Leaves-then _ _ (finish-settled id op none (clock 2)))))

commit_tail :
    (id : ℕ) (op : String) (rs : List RelayRoute) (f v : String) (i a : Bool) (clock : ℕ → ℕ)
    (event : AuditInput) (k now : ℕ)
    → Returns has_succeeded (do
      commit id op rs f v i a clock
      modify (add_audit event k now)
      done ← read (get_operation id op) (other_error "TypeError")
      pure done.state)
commit_tail id op rs f v i a clock event k now =
    Returns-after _ _ (commit-settled id op rs f v i a clock)
      (λ s b q e. unfold ◌>>=◌ in unfold add_audit in unfold get_operation in ground (arith, q, e))

module _ (client : RelayClient) (helper : HelperClient) (is_ipv4 : String → Bool) (hashes : Hashes)
    (r : Readings) (id : ℕ) where
  attempt_succeeded :
      (action : RelayChange) (op : String) (stored : StoredRelayOperation)
      → Returns has_succeeded (attempt client helper is_ipv4 hashes r id action op stored)
  unfolding attempt carry_out settle
  attempt_succeeded action op stored = search (returns_rules, commit_tail) depth 30

  resume_succeeded :
      (body : RelayBody) (op : String) (stored : StoredRelayOperation) (s : RelayOperationStatus)
      → stored.state.status ≡ s
      → Returns has_succeeded (resume client helper is_ipv4 hashes r id body op stored s)
  unfolding resume
  resume_succeeded body op stored RelayOperationStatus.succeeded e =
      Returns-pure stored.state (ground (arith, e))
  resume_succeeded body op stored RelayOperationStatus.failed e = Returns-throw _
  resume_succeeded body op stored RelayOperationStatus.pending e =
      attempt_succeeded body.change op stored
  resume_succeeded body op stored RelayOperationStatus.uncertain e =
      attempt_succeeded body.change op stored

  proceed_succeeded :
      (relay : RelayServer) (op : String) (body : RelayBody) (prior : Option StoredRelayOperation)
      → Returns has_succeeded (proceed client helper is_ipv4 hashes r id relay op body prior)
  unfolding proceed
  proceed_succeeded relay op body none = search (returns_rules, attempt_succeeded) depth 20
  proceed_succeeded relay op body (some stored) =
      Returns-then _ _ (resume_succeeded body op stored stored.state.status refl)

  -- An operation that `perform` returns has succeeded, whatever the relay and the node did: every
  -- other outcome is thrown.
  pub perform_succeeded :
      (op : String) (body : RelayBody) (db : Panel) (o : RelayOperation)
      → (perform client helper is_ipv4 hashes r id op body db).0 ≡ ok o
      → o.status ≡ RelayOperationStatus.succeeded
  unfolding perform
  perform_succeeded op body db o e = ground (
    arith,
    (Returns-bind _ _
          (λ relay. Returns-bind _ _ (λ prior. proceed_succeeded relay op body prior))).of
        db o e,
  )
