-- ===== src/Routes/Issuance/Atomic.antt =====
-- An issuance that fails stores no connection.
use awg_control.Base.{ℕ, ◌≡◌, refl, String, Option, none, some, List}
use awg_control.Contracts.Entities.{VpnUser}
use awg_control.Contracts.Instances.{InstanceRecord}
use awg_control.Crypto.{Hashes}
use awg_control.Exec.{Failure, err, modify}
use awg_control.Exec.Laws.{Keeps, Keeps-throw, Keeps-gets, Keeps-modify, keeps_rules}
use awg_control.Exec.Unwinds.{
  Unwinds, Unwinds-Keeps, Unwinds-try_catch, Unwinds-bind, Unwinds-commit, Unwinds-transaction,
  NeverThrows-pure,
}
use awg_control.Panel.{Panel, Readings, ConnectionRow, IdempotencyStatus}
use awg_control.Store.Nodes.{NodeSecretRecord}
use awg_control.Store.Instances.{update_instance_fingerprint}
use awg_control.Store.Connections.{Issuance, complete_connection_issuance}
use awg_control.Store.Idempotency.{Start, new, repeat, conflict as clash, IdempotencyResult}
use awg_control.Helper.{HelperClient, HelperRequest, CreateResult}
use awg_control.Relay.Store.{RelayEndpoint}
use awg_control.Http.{Request}
use awg_control.Routes.Frames.{frame_rules}
use awg_control.Routes.Issuance.{
  ConnectionBody, earlier_outcome, repeated_issue, compensate, issue, proceed_issue,
  issue_connection,
}

Unwinds-complete :
    {P : Panel → Type 0} (input : Issuance) (now audit_id : ℕ)
    → Unwinds P (complete_connection_issuance input now audit_id)
unfolding complete_connection_issuance
Unwinds-complete input now audit_id = Unwinds-transaction _

module _ {P : Panel → Type 0} where
  Keeps-earlier_outcome :
      (status : IdempotencyStatus) (code : Option String) → Keeps P (earlier_outcome status code)
  unfolding earlier_outcome
  Keeps-earlier_outcome IdempotencyStatus.succeeded code = Keeps-throw _
  Keeps-earlier_outcome IdempotencyStatus.failed code = Keeps-throw _
  Keeps-earlier_outcome IdempotencyStatus.started code = Keeps-throw _

  Keeps-repeated_issue : (prior : Option IdempotencyResult) → Keeps P (repeated_issue prior)
  unfolding repeated_issue
  Keeps-repeated_issue none = Keeps-throw _
  Keeps-repeated_issue (some prior) = Keeps-earlier_outcome prior.status prior.error_code

Keeps-fingerprint :
    (rows : List ConnectionRow) (id : ℕ) (fingerprint : String) (now : ℕ)
    → Keeps (λ s. s.connections ≡ rows) (modify (update_instance_fingerprint id fingerprint now))
unfolding update_instance_fingerprint
Keeps-fingerprint rows id fingerprint now = Keeps-modify _ (λ s e. e)

module _ (helper : HelperClient) (hashes : Hashes) (r : Readings) (request : Request) (user_id : ℕ)
    (body : ConnectionBody) (rows : List ConnectionRow)
    (quiet_create : (node : NodeSecretRecord) (q : HelperRequest)
      → Keeps (λ s. s.connections ≡ rows) (helper.create node q))
    (quiet_mutate : (node : NodeSecretRecord) (q : HelperRequest)
      → Keeps (λ s. s.connections ≡ rows) (helper.mutate node q)) where
  Keeps-compensate :
      (i : InstanceRecord) (node : NodeSecretRecord) (result : CreateResult) (e : Failure)
      → Keeps
          (λ s. s.connections ≡ rows)
          (compensate helper hashes r request user_id body i node result e)
  unfolding compensate
  Keeps-compensate i node result e =
      search (keeps_rules, frame_rules, quiet_mutate, Keeps-fingerprint) depth 20

  Unwinds-issue :
      (op : String) (user : VpnUser) (i : InstanceRecord) (node : NodeSecretRecord)
      (endpoint : Option RelayEndpoint)
      → Unwinds
          (λ s. s.connections ≡ rows)
          (issue helper hashes r request user_id body op user i node endpoint)
  unfolding issue
  Unwinds-issue op user i node endpoint =
      Unwinds-try_catch _ _
        (Unwinds-bind _ _ (quiet_create node _) λ response.
          Unwinds-bind _ _ (search frame_rules) λ result.
            Unwinds-commit _ _
              (Unwinds-try_catch _ _ (Unwinds-complete _ _ _)
                (λ e. Unwinds-Keeps _ (Keeps-compensate i node result e)))
              (λ connection. NeverThrows-pure _))
        (λ e. Unwinds-Keeps _ (search (keeps_rules, frame_rules) depth 20))

  Unwinds-proceed :
      (op : String) (user : VpnUser) (i : InstanceRecord) (start : Start)
      → Unwinds
          (λ s. s.connections ≡ rows)
          (proceed_issue helper hashes r request user_id body op user i start)
  unfolding proceed_issue
  Unwinds-proceed op user i clash = Unwinds-Keeps _ (Keeps-throw _)
  Unwinds-proceed op user i repeat =
      Unwinds-bind _ _ (Keeps-gets _) λ prior. Unwinds-Keeps _ (Keeps-repeated_issue prior)
  Unwinds-proceed op user i new = Unwinds-bind _ _ (search keeps_rules) λ node.
      Unwinds-bind _ _ (search keeps_rules) λ endpoint. Unwinds-issue op user i node endpoint

  Unwinds-issue_connection :
      Unwinds (λ s. s.connections ≡ rows) (issue_connection helper hashes r request user_id body)
  unfolding issue_connection
  Unwinds-issue_connection = Unwinds-bind _ _ (search keeps_rules) λ user.
      Unwinds-bind _ _ (search keeps_rules) λ i. Unwinds-bind _ _ (search keeps_rules) λ u.
        Unwinds-bind _ _ (search keeps_rules) λ u. Unwinds-bind _ _ (search keeps_rules) λ fits.
          Unwinds-bind _ _ (search keeps_rules) λ u.
            Unwinds-bind _ _ (search frame_rules)
              λ op. Unwinds-bind _ _ (search frame_rules) λ start. Unwinds-proceed op user i start

-- An issuance that fails at any point stores no connection: if the helper's calls leave the
-- connections alone and the handler throws, then they are as they were before.
pub issue_connection_atomic :
    (helper : HelperClient) (hashes : Hashes) (r : Readings) (request : Request) (user_id : ℕ)
    (body : ConnectionBody) (db : Panel) (e : Failure)
    → ((node : NodeSecretRecord) (q : HelperRequest)
        → Keeps (λ s. s.connections ≡ db.connections) (helper.create node q))
    → ((node : NodeSecretRecord) (q : HelperRequest)
        → Keeps (λ s. s.connections ≡ db.connections) (helper.mutate node q))
    → (issue_connection helper hashes r request user_id body db).0 ≡ err e
    → (issue_connection helper hashes r request user_id body db).1.connections ≡ db.connections
issue_connection_atomic helper hashes r request user_id body db e create mutate h =
    (Unwinds-issue_connection helper hashes r request user_id body db.connections create mutate).at
      db refl e h
