-- ===== src/Routes/Lifecycle/Refinement.antt =====
-- The lifecycle handlers implement the abstract machine of connections.
use awg_control.Base.{ℕ, Bool, List, [], ◌∷◌}
use awg_control.Crypto.{Hashes}
use awg_control.Exec.Turns.{Turns}
use awg_control.Panel.{Panel, Readings}
use awg_control.Store.Idempotency.{conflict as clash}
use awg_control.Helper.{HelperClient}
use awg_control.Http.{Request}
use awg_control.Routes.Lifecycle.{LifecycleAction, change_connection}

-- A request to suspend, resume or revoke a connection.
pub record LifecycleCall : Type 0 where
  pub action : LifecycleAction
  pub connection_id : ℕ
  pub body_override : Bool
  pub request : Request
  pub readings : Readings

module _ (helper : HelperClient) (hashes : Hashes) where
  -- Requests one after the other, whatever becomes of each.
  unfoldable pub serve : List LifecycleCall → Panel → Panel
  serve [] db = db
  serve (c ∷ cs) db =
      serve cs
        (change_connection helper hashes c.readings c.request c.action c.connection_id
          c.body_override db).1
