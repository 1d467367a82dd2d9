-- ===== src/Relay/Changes/Serial.antt =====
-- An operation on a relay keeps the constraints of the journal.
use awg_control.Base.{ℕ, String, Bool, Option, none, some, List, [], ◌∷◌, arith}
use awg_control.Base.Tables.{delete_where}
use awg_control.Crypto.{Hashes}
use awg_control.Exec.{modify}
use awg_control.Exec.Laws.{
  Keeps, Keeps-pure, Keeps-throw, Keeps-modify, Keeps-bind, Keeps-then, Keeps-guard, Keeps-gets,
  keeps_rules,
}
use awg_control.Panel.{
  Panel, Action, Readings, RelayBody, RelayChange, RelayRoute, RelayServerStatus,
  RelayOperationStatus, install, update, uninstall, apply, disable, remove,
}
use awg_control.Store.Audit.{AuditInput, add_audit}
use awg_control.Store.Nodes.{NodeSecretRecord}
use awg_control.Helper.{HelperClient, HelperRequest, Response, accepted, refused, accept}
use awg_control.Relay.Store.{on_relay, RelaySecret, StoredRelayOperation, RelayServer}
use awg_control.Relay.Journal.{insert_route, insert_routes, health, commit}
use awg_control.Relay.Journal.Serial.{IsSerial, begin-IsSerial, finish-IsSerial}
use awg_control.Relay.Service.{
  RelayClient, RelayRequest, call, finally, start_running, stop_running, exclusively,
}
use awg_control.Relay.Plans.{discover, plan_apply, plan}
use awg_control.Relay.Changes.{store, carry_out, settle, attempt, resume, proceed, perform, mutate}

Keeps-accept :
    {A : Type 0} {P : Panel → Type 0} (http : ℕ) (x : Response A) → Keeps P (accept http x)
Keeps-accept http (accepted a) = record { at = λ s h. h }
Keeps-accept http (refused code) = record { at = λ s h. h }

Keeps-finally :
    {A : Type 0} {P : Panel → Type 0} (m : Action A) (f : Panel → Panel)
    → Keeps P m
    → ((s : Panel) → P s → P (f s))
    → Keeps P (finally m f)
unfolding finally
Keeps-finally m f km kf = record { at = λ s h. kf (m s).1 (km.at s h) }

insert_route-IsSerial : (new : RelayRoute) → Keeps IsSerial (insert_route new)
unfolding insert_route
insert_route-IsSerial new = record { at = λ s h. ground (arith, h) }

insert_routes-IsSerial : (id : ℕ) (rs : List RelayRoute) → Keeps IsSerial (insert_routes id rs)
unfolding insert_routes
insert_routes-IsSerial id [] = Keeps-pure tt
insert_routes-IsSerial id (r ∷ rs) =
    Keeps-then _ _ (insert_route-IsSerial _) (insert_routes-IsSerial id rs)

add_audit-IsSerial :
    (input : AuditInput) (id now : ℕ) → Keeps IsSerial (modify (add_audit input id now))
unfolding add_audit
add_audit-IsSerial input id now = Keeps-modify (add_audit input id now) (λ s h. h)

health-IsSerial :
    (id : ℕ) (status : RelayServerStatus) (f v e : Option String) (t now : ℕ)
    → Keeps IsSerial (modify (health id status f v e t now))
unfolding health
health-IsSerial id status f v e t now = Keeps-modify (health id status f v e t now) (λ s h. h)

clear-IsSerial :
    (id : ℕ)
    → Keeps IsSerial
        (modify λ db. record db { relay_routes = delete_where (on_relay id) db.relay_routes })
clear-IsSerial id = Keeps-modify _ (λ s h. h)

commit-IsSerial :
    (id : ℕ) (op : String) (rs : List RelayRoute) (f v : String) (i a : Bool) (clock : ℕ → ℕ)
    → Keeps IsSerial (commit id op rs f v i a clock)
unfolding commit
commit-IsSerial id op rs f v i a clock =
    search (keeps_rules, clear-IsSerial, insert_routes-IsSerial, health-IsSerial, finish-IsSerial)
      depth 20

Keeps-exclusively :
    {A : Type 0} (id : ℕ) (m : Action A) → Keeps IsSerial m → Keeps IsSerial (exclusively id m)
unfolding exclusively start_running stop_running
Keeps-exclusively id m km = Keeps-bind _ _ (Keeps-gets _) λ running.
    Keeps-then _ _ (Keeps-guard _ _) (
      Keeps-then _ _ (Keeps-modify (start_running id) (λ s h. h))
        (Keeps-finally m (stop_running id) km (λ s h. h)))

module _ (client : RelayClient) (helper : HelperClient) (is_ipv4 : String → Bool) (hashes : Hashes)
    (r : Readings) (id : ℕ)
    (client_keeps : (secret : RelaySecret) (q : RelayRequest)
      → Keeps IsSerial (client.call secret q))
    (helper_keeps : (node : NodeSecretRecord) (q : HelperRequest)
      → Keeps IsSerial (helper.discover node q)) where
  call-IsSerial : (q : RelayRequest) → Keeps IsSerial (call client is_ipv4 id q)
  unfolding call
  call-IsSerial q = search (keeps_rules, client_keeps, Keeps-accept) depth 20

  discover-IsSerial : (node : NodeSecretRecord) → Keeps IsSerial (discover helper is_ipv4 r id node)
  unfolding discover
  discover-IsSerial node = search (keeps_rules, helper_keeps, Keeps-accept) depth 20

  plan_apply-IsSerial :
      (body : RelayBody) (instance_id : ℕ) (port : Option ℕ) (rs : List RelayRoute)
      → Keeps IsSerial (plan_apply helper is_ipv4 r id body instance_id port rs)
  unfolding plan_apply
  plan_apply-IsSerial body instance_id port rs = search (keeps_rules, discover-IsSerial) depth 40

  plan-IsSerial :
      (body : RelayBody) (change : RelayChange) (rs : List RelayRoute)
      → Keeps IsSerial (plan helper is_ipv4 r id body change rs)
  unfolding plan
  plan-IsSerial body install rs = Keeps-pure _
  plan-IsSerial body update rs = Keeps-pure _
  plan-IsSerial body uninstall rs = Keeps-pure _
  plan-IsSerial body (apply i port) rs = plan_apply-IsSerial body i port rs
  plan-IsSerial body (disable k) rs = search keeps_rules depth 20
  plan-IsSerial body (remove k) rs = search keeps_rules depth 20

  store-IsSerial :
      (relay : RelayServer) (op : String) (body : RelayBody)
      → Keeps IsSerial (store client helper is_ipv4 hashes r id relay op body)
  unfolding store
  store-IsSerial relay op body = search (keeps_rules, plan-IsSerial, begin-IsSerial) depth 20

  carry_out-IsSerial :
      (action : RelayChange) (op : String) (stored : StoredRelayOperation)
      → Keeps IsSerial (carry_out client helper is_ipv4 hashes r id action op stored)
  unfolding carry_out
  carry_out-IsSerial action op stored =
      search (keeps_rules, call-IsSerial, commit-IsSerial, add_audit-IsSerial) depth 20

  attempt-IsSerial :
      (action : RelayChange) (op : String) (stored : StoredRelayOperation)
      → Keeps IsSerial (attempt client helper is_ipv4 hashes r id action op stored)
  unfolding attempt settle
  attempt-IsSerial action op stored =
      search (keeps_rules, carry_out-IsSerial, finish-IsSerial, health-IsSerial, add_audit-IsSerial)
        depth 20

  resume-IsSerial :
      (body : RelayBody) (op : String) (stored : StoredRelayOperation) (s : RelayOperationStatus)
      → Keeps IsSerial (resume client helper is_ipv4 hashes r id body op stored s)
  unfolding resume
  resume-IsSerial body op stored RelayOperationStatus.succeeded = Keeps-pure _
  resume-IsSerial body op stored RelayOperationStatus.failed = Keeps-throw _
  resume-IsSerial body op stored RelayOperationStatus.pending =
      attempt-IsSerial body.change op stored
  resume-IsSerial body op stored RelayOperationStatus.uncertain =
      attempt-IsSerial body.change op stored

  proceed-IsSerial :
      (relay : RelayServer) (op : String) (body : RelayBody) (prior : Option StoredRelayOperation)
      → Keeps IsSerial (proceed client helper is_ipv4 hashes r id relay op body prior)
  unfolding proceed
  proceed-IsSerial relay op body none =
      search (keeps_rules, store-IsSerial, attempt-IsSerial) depth 20
  proceed-IsSerial relay op body (some stored) = search (keeps_rules, resume-IsSerial) depth 20

  perform-IsSerial :
      (op : String) (body : RelayBody)
      → Keeps IsSerial (perform client helper is_ipv4 hashes r id op body)
  unfolding perform
  perform-IsSerial op body = search (keeps_rules, proceed-IsSerial) depth 20

  -- From a journal in which at most one operation of each relay is open and each operation id stands
  -- at most once on its relay, a change of a relay leaves such a journal, whatever the relay and the
  -- node answer, and whether the request succeeds or throws. What runs while the helpers are awaited
  -- is assumed to keep this too.
  mutate-IsSerial :
      (op : String) (body : RelayBody) (db : Panel)
      → IsSerial db
      → IsSerial (mutate client helper is_ipv4 hashes r id op body db).1
  unfolding mutate
  mutate-IsSerial op body db h =
      (Keeps-exclusively id (perform client helper is_ipv4 hashes r id op body)
          (perform-IsSerial op body)).at
        db h
