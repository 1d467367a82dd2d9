-- ===== src/Routes/Frames.antt =====
-- What the parts that handlers share leave as it was.
use awg_control.Base.{ℕ, ◌≡◌, ◌∙◌, String, Option, List, arith}
use awg_control.Exec.{Failure, modify, run}
use awg_control.Exec.Laws.{Keeps, Keeps-throw, Keeps-run, Keeps-modify}
use awg_control.Panel.{Panel, Scope, ConnectionRow, IdempotencyStatus}
use awg_control.Store.Audit.{AuditInput, add_audit}
use awg_control.Store.Idempotency.{begin_idempotency, finish_idempotency}
use awg_control.Store.Idempotency.Laws.{connections-begin_idempotency}
use awg_control.Helper.{Response, accepted, refused, accept, handle_helper_error}
use awg_control.Http.{Request, operation_id}

module _ {P : Panel → Type 0} where
  pub Keeps-operation_id : (q : Request) → Keeps P (operation_id q)
  unfolding operation_id
  Keeps-operation_id q = record { at = λ s h. ground arith }

  pub Keeps-accept :
      {A : Type 0} (status : ℕ) (response : Response A) → Keeps P (accept status response)
  Keeps-accept status (accepted a) = record { at = λ s h. h }
  Keeps-accept status (refused code) = record { at = λ s h. h }

  pub Keeps-handle_helper_error :
      {A : Type 0} (e : Failure) → Keeps P (handle_helper_error {A = A} e)
  unfolding handle_helper_error
  Keeps-handle_helper_error (Failure.app_error status code) = Keeps-throw _
  Keeps-handle_helper_error (Failure.transport_error code) = Keeps-throw _
  Keeps-handle_helper_error (Failure.other_error message) = Keeps-throw _

-- The journals leave the connections alone.
module _ (rows : List ConnectionRow) where
  pub Keeps-begin :
      (scope : Scope) (op fingerprint : String) (now : ℕ)
      → Keeps (λ s. s.connections ≡ rows) (run (begin_idempotency scope op fingerprint now))
  Keeps-begin scope op fingerprint now =
      Keeps-run (begin_idempotency scope op fingerprint now)
        (λ s e. connections-begin_idempotency scope op fingerprint now s ∙ e)

  pub Keeps-finish :
      (scope : Scope) (op : String) (status : IdempotencyStatus) (id : Option ℕ)
      (code : Option String) (now : ℕ)
      → Keeps (λ s. s.connections ≡ rows) (modify (finish_idempotency scope op status id code now))
  unfolding finish_idempotency
  Keeps-finish scope op status id code now = Keeps-modify _ (λ s e. e)

  pub Keeps-audit :
      (input : AuditInput) (id now : ℕ)
      → Keeps (λ s. s.connections ≡ rows) (modify (add_audit input id now))
  unfolding add_audit
  Keeps-audit input id now = Keeps-modify _ (λ s e. e)

pub ruleset frame_rules = (
  Keeps-operation_id, Keeps-accept, Keeps-handle_helper_error, Keeps-begin, Keeps-finish,
  Keeps-audit,
)
