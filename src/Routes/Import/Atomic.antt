-- ===== src/Routes/Import/Atomic.antt =====
-- An import stores all of its peers or none.
use awg_control.Base.{ℕ, ◌≡◌, refl, String, Option, none, some, List, [], ◌∷◌}
use awg_control.Contracts.Instances.{InstanceRecord}
use awg_control.Crypto.{Hashes}
use awg_control.Exec.{Failure, err}
use awg_control.Exec.Laws.{Keeps, Keeps-pure, Keeps-throw, Keeps-gets, keeps_rules}
use awg_control.Exec.Unwinds.{
  Unwinds, Unwinds-Keeps, Unwinds-try_catch, Unwinds-bind, Unwinds-commit, Unwinds-transaction,
  never_throws_rules,
}
use awg_control.Panel.{Panel, Readings, ConnectionRow, IdempotencyStatus}
use awg_control.Store.Nodes.{NodeSecretRecord}
use awg_control.Store.Connections.{ImportInput, import_connections}
use awg_control.Store.Idempotency.{Start, new, repeat, conflict as clash, IdempotencyResult}
use awg_control.Helper.{HelperClient, HelperRequest, Peer, PeerListResult}
use awg_control.Http.{Request}
use awg_control.Routes.Frames.{frame_rules}
use awg_control.Routes.Import.{
  ImportPeer, check_peers, store_import, import_failed, earlier_outcome, earlier_import,
  proceed_import, import_peers,
}

Keeps-check_peers :
    {P : Panel → Type 0} (node_id : ℕ) (observed : List Peer) (peers : List ImportPeer)
    → Keeps P (check_peers node_id observed peers)
unfolding check_peers
Keeps-check_peers node_id observed [] = Keeps-pure tt
Keeps-check_peers {P = P} node_id observed (p ∷ ps) =
    let rest = Keeps-check_peers {P = P} node_id observed ps in search keeps_rules depth 20

Unwinds-import_connections :
    {P : Panel → Type 0} (inputs : List ImportInput) (ids : ℕ → ℕ) (now : ℕ)
    → Unwinds P (import_connections inputs ids now)
unfolding import_connections
Unwinds-import_connections inputs ids now = Unwinds-transaction _

module _ {P : Panel → Type 0} (helper : HelperClient) (hashes : Hashes) (r : Readings)
    (request : Request) (id : ℕ) (peers : List ImportPeer) where
  Keeps-earlier_outcome :
      (status : IdempotencyStatus) (code : Option String)
      → Keeps P (earlier_outcome helper hashes r request id peers status code)
  unfolding earlier_outcome
  Keeps-earlier_outcome IdempotencyStatus.succeeded code = Keeps-gets _
  Keeps-earlier_outcome IdempotencyStatus.failed code = Keeps-throw _
  Keeps-earlier_outcome IdempotencyStatus.started code = Keeps-throw _

  Keeps-earlier_import :
      (prior : Option IdempotencyResult)
      → Keeps P (earlier_import helper hashes r request id peers prior)
  unfolding earlier_import
  Keeps-earlier_import none = Keeps-throw _
  Keeps-earlier_import (some prior) = Keeps-earlier_outcome prior.status prior.error_code

module _ (helper : HelperClient) (hashes : Hashes) (r : Readings) (request : Request) (id : ℕ)
    (peers : List ImportPeer) (rows : List ConnectionRow)
    (quiet : (node : NodeSecretRecord) (q : HelperRequest)
      → Keeps (λ s. s.connections ≡ rows) (helper.list node q)) where
  Keeps-import_failed :
      (op : String) (i : InstanceRecord) (e : Failure)
      → Keeps (λ s. s.connections ≡ rows) (import_failed helper hashes r request id peers op i e)
  unfolding import_failed
  Keeps-import_failed op i e = search (keeps_rules, frame_rules) depth 20

  Unwinds-store_import :
      (op : String) (i : InstanceRecord) (result : PeerListResult)
      → Unwinds
          (λ s. s.connections ≡ rows)
          (store_import helper hashes r request id peers op i result)
  unfolding store_import
  Unwinds-store_import op i result = Unwinds-bind _ _ (search keeps_rules) λ u.
      Unwinds-bind _ _ (Keeps-check_peers _ _ _) λ u.
        Unwinds-commit _ _ (Unwinds-import_connections _ _ _)
          λ imported. search never_throws_rules depth 20

  Unwinds-proceed :
      (op : String) (i : InstanceRecord) (start : Start)
      → Unwinds
          (λ s. s.connections ≡ rows)
          (proceed_import helper hashes r request id peers op i start)
  unfolding proceed_import
  Unwinds-proceed op i clash = Unwinds-Keeps _ (Keeps-throw _)
  Unwinds-proceed op i repeat =
      Unwinds-bind _ _ (Keeps-gets _)
        λ prior. Unwinds-Keeps _ (Keeps-earlier_import helper hashes r request id peers prior)
  Unwinds-proceed op i new =
      Unwinds-try_catch _ _
        (Unwinds-bind _ _ (search keeps_rules) λ node. Unwinds-bind _ _ (quiet node _) λ response.
          Unwinds-bind _ _ (search frame_rules) λ result. Unwinds-store_import op i result)
        (λ e. Unwinds-Keeps _ (Keeps-import_failed op i e))

  Unwinds-import_peers :
      Unwinds (λ s. s.connections ≡ rows) (import_peers helper hashes r request id peers)
  unfolding import_peers
  Unwinds-import_peers = Unwinds-bind _ _ (search keeps_rules) λ instance.
      Unwinds-bind _ _ (search frame_rules)
        λ op. Unwinds-bind _ _ (search frame_rules) λ start. Unwinds-proceed op instance start

-- An import that fails, whatever the reason, has stored no connection: if the helper's listing
-- leaves the connections alone and the handler throws, then they are as they were before.
pub import_peers_atomic :
    (helper : HelperClient) (hashes : Hashes) (r : Readings) (request : Request) (id : ℕ)
    (peers : List ImportPeer) (db : Panel) (e : Failure)
    → ((node : NodeSecretRecord) (q : HelperRequest)
        → Keeps (λ s. s.connections ≡ db.connections) (helper.list node q))
    → (import_peers helper hashes r request id peers db).0 ≡ err e
    → (import_peers helper hashes r request id peers db).1.connections ≡ db.connections
import_peers_atomic helper hashes r request id peers db e quiet h =
    (Unwinds-import_peers helper hashes r request id peers db.connections quiet).at db refl e h
