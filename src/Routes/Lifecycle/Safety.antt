-- ===== src/Routes/Lifecycle/Safety.antt =====
-- Which transitions the lifecycle handler makes, and when it makes none.
use awg_control.Base.{ℕ, ◌≡◌, ◌≢◌, refl, ap, ◌∙◌, String, Bool, Option, none, some, List, arith}
use awg_control.Contracts.Entities.{Connection}
use awg_control.Contracts.Instances.{InstanceRecord}
use awg_control.Crypto.{Hashes}
use awg_control.Exec.{Result, ok, err, ◌>>=◌}
use awg_control.Exec.Laws.{Keeps, Keeps-throw, keeps_rules}
use awg_control.Panel.{Panel, ConnectionRow, Readings}
use awg_control.Store.Nodes.{NodeSecretRecord}
use awg_control.Store.Idempotency.{
  Start, new, repeat, conflict as clash, IdempotencyResult, idempotency_result, finish_idempotency,
}
use awg_control.Store.Audit.{add_audit}
use awg_control.Helper.{
  HelperClient, HelperRequest, Response, MutationResult, accepted, refused, handle_helper_error,
}
use awg_control.Http.{Request}
use awg_control.Routes.Frames.{frame_rules}
use awg_control.Routes.Lifecycle.{
  LifecycleAction, perform, mutation_request, proceed, repeat_outcome, scope_of, change_connection,
}

-- Answering a repeat writes nothing.
pub Keeps-repeat_outcome :
    {P : Panel → Type 0} (id : ℕ) (o : Option IdempotencyResult) → Keeps P (repeat_outcome id o)
unfolding repeat_outcome ◌>>=◌
Keeps-repeat_outcome id none = record { at = λ s h. h }
Keeps-repeat_outcome id (some o) = record { at = λ s h. ground arith }

module _ (helper : HelperClient) (hashes : Hashes) (r : Readings) (request : Request)
    (action : LifecycleAction) where
  -- What the helper must not do for a request to leave the connections alone: accept it, or let
  -- another request change them while it is awaited.
  abbrev pub Declines : Type 0
  Declines =
      (node : NodeSecretRecord) (q : HelperRequest) (s : Panel)
      → ((helper.mutate node q s).1.connections ≡ s.connections)
        × ((a : MutationResult) → (helper.mutate node q s).0 ≢ ok (accepted a))

  perform_declined :
      (id : ℕ) (op : String) (c : Connection) (i : InstanceRecord) (node : NodeSecretRecord)
      (override : Bool) (s : Panel)
      → Declines
      → (perform helper hashes r request action id op c i node override s).1.connections
        ≡ s.connections
  unfolding perform ◌>>=◌ handle_helper_error finish_idempotency add_audit
  perform_declined id op c i node override s h =
      go (helper.mutate node (mutation_request helper hashes r request action op c i override) s)
        refl (h node (mutation_request helper hashes r request action op c i override) s)
    where
      go :
          (x : Result (Response MutationResult) × Panel)
          → helper.mutate node (mutation_request helper hashes r request action op c i override) s
            ≡ x
          → ((helper.mutate node
                (mutation_request helper hashes r request action op c i override)
                s).1.connections
              ≡ s.connections)
            × ((a : MutationResult)
                → (helper.mutate node
                    (mutation_request helper hashes r request action op c i override)
                    s).0
                  ≢ ok (accepted a))
          → (perform helper hashes r request action id op c i node override s).1.connections
            ≡ s.connections
      go (ok (accepted a), s') e k = absurd (k.1 a (ap (λ y. y.0) e))
      go (ok (refused code), s') e k = ground (arith, e, k.0)
      go (err f, s') e k = ground (arith, e, k.0)

  proceed_declined :
      (id : ℕ) (op : String) (c : Connection) (i : InstanceRecord) (node : NodeSecretRecord)
      (override : Bool) (start : Start) (rows : List ConnectionRow)
      → Declines
      → Keeps
          (λ s. s.connections ≡ rows)
          (proceed helper hashes r request action id op c i node override start)
  unfolding proceed
  proceed_declined id op c i node override new rows h = record {
    at = λ s e. perform_declined id op c i node override s h ∙ e;
  }
  proceed_declined id op c i node override repeat rows h = record {
    at = λ s e.
        (Keeps-repeat_outcome {P = λ t. t.connections ≡ rows} id
            (idempotency_result (scope_of action id) op s)).at
          s e;
  }
  proceed_declined id op c i node override clash rows h = Keeps-throw _

  change_connection-Keeps :
      (id : ℕ) (body_override : Bool) (rows : List ConnectionRow)
      → Declines
      → Keeps
          (λ s. s.connections ≡ rows)
          (change_connection helper hashes r request action id body_override)
  unfolding change_connection
  change_connection-Keeps id body_override rows h =
      search (keeps_rules, frame_rules, proceed_declined) depth 20

  -- The panel records no transition that the helper has not accepted: if the helper declines, the
  -- handler leaves every connection as it was, whatever it answers.
  pub change_connection_declined :
      (id : ℕ) (body_override : Bool) (db : Panel)
      → Declines
      → (change_connection helper hashes r request action id body_override db).1.connections
        ≡ db.connections
  change_connection_declined id body_override db h =
      (change_connection-Keeps id body_override db.connections h).at db refl
