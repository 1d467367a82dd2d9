-- ===== src/Worker/Frames.antt =====
-- What a poll keeps, if its parts do.
use awg_control.Base.{ℕ, suc, Option, none, some, List, [], ◌∷◌, Bool-cases, inl, inr}
use awg_control.Contracts.{ConnectionStatus, ◌is◌}
use awg_control.Contracts.Entities.{Connection}
use awg_control.Contracts.Instances.{InstanceRecord}
use awg_control.Exec.{Failure, modify}
use awg_control.Exec.Laws.{Keeps, Keeps-pure, Keeps-then, Keeps-try_catch, Keeps-throw, keeps_rules}
use awg_control.Panel.{Panel, Action, Readings}
use awg_control.Store.Audit.{AuditInput, add_audit}
use awg_control.Store.Nodes.{NodeSecretRecord}
use awg_control.Store.Connections.{update_connection_status}
use awg_control.Store.Policies.{Calendar}
use awg_control.Helper.{
  HelperClient, HelperRequest, Response, accepted, refused, PeerStats, PolicyStatus,
}
use awg_control.Worker.{
  accept_plain, count_peers, is_enforced_status, enforce_found, enforce_one, enforce, poll_instance,
  fail_after, poll_instances, poll_work,
}

-- The helper's calls, while which other requests run, keep a property of the panel.
pub record HelperKeeps (P : Panel → Type 0) (helper : HelperClient) : Type 0 where
  pub health : (node : NodeSecretRecord) (q : HelperRequest) → Keeps P (helper.health node q)
  pub stats : (node : NodeSecretRecord) (q : HelperRequest) → Keeps P (helper.stats node q)
  pub apply_policy :
      (node : NodeSecretRecord) (q : HelperRequest) → Keeps P (helper.apply_policy node q)

-- The writes of a poll keep it.
pub record WritesKeep (P : Panel → Type 0) : Type 0 where
  pub counts :
      (connections : List Connection) (peers : List PeerStats) (clock : ℕ → ℕ) (k : ℕ)
      → Keeps P (modify (count_peers connections peers clock k))
  pub enforces :
      (id : ℕ) (status : ConnectionStatus) (now : ℕ)
      → Keeps P (update_connection_status id status now)
  pub audits : (input : AuditInput) (id now : ℕ) → Keeps P (modify (add_audit input id now))

Keeps-accept_plain :
    {A : Type 0} {P : Panel → Type 0} (response : Response A) → Keeps P (accept_plain response)
unfolding accept_plain
Keeps-accept_plain (accepted a) = Keeps-pure a
Keeps-accept_plain (refused code) = Keeps-throw _

module _ {P : Panel → Type 0} (writes : WritesKeep P) (node_id : ℕ) (r : Readings) where
  Keeps-enforce_found :
      (k : ℕ) (status : ConnectionStatus) (o : Option Connection)
      → Keeps P (enforce_found node_id r k status o)
  unfolding enforce_found
  Keeps-enforce_found k status none = Keeps-pure tt
  Keeps-enforce_found k status (some c) = elim (Bool-cases (c.status is status)) [
    | inl e ↦ rw e (Keeps-pure tt)
    | inr e ↦ rw e (search (keeps_rules, writes.enforces, writes.audits) depth 20)
  ]

  Keeps-enforce_one : (k : ℕ) (policy : PolicyStatus) → Keeps P (enforce_one node_id r k policy)
  unfolding enforce_one
  Keeps-enforce_one k policy = elim (Bool-cases (is_enforced_status policy.status)) [
    | inl e ↦ rw e (search (keeps_rules, Keeps-enforce_found) depth 20)
    | inr e ↦ rw e (Keeps-pure tt)
  ]

  Keeps-enforce : (k : ℕ) (policies : List PolicyStatus) → Keeps P (enforce node_id r k policies)
  unfolding enforce
  Keeps-enforce k [] = Keeps-pure tt
  Keeps-enforce k (policy ∷ policies) =
      Keeps-then _ _ (Keeps-enforce_one k policy) (Keeps-enforce (suc (suc k)) policies)

module _ {P : Panel → Type 0} (writes : WritesKeep P) (helper : HelperClient)
    (quiet : HelperKeeps P helper) (cal : Calendar) (node : NodeSecretRecord) where
  Keeps-poll_instance :
      (r : Readings) (i : InstanceRecord) → Keeps P (poll_instance helper cal node r i)
  unfolding poll_instance
  Keeps-poll_instance r i =
      search (keeps_rules, quiet.stats, Keeps-accept_plain, writes.counts) depth 20

  Keeps-fail_after :
      (others : Action (Unit {0})) (e : Failure) → Keeps P others → Keeps P (fail_after others e)
  unfolding fail_after
  Keeps-fail_after others e h =
      Keeps-then _ _ (Keeps-try_catch _ _ h (λ later. Keeps-pure tt)) (Keeps-throw e)

  Keeps-poll_instances :
      (r : ℕ → Readings) (k : ℕ) (rows : List InstanceRecord)
      → Keeps P (poll_instances helper cal node r k rows)
  unfolding poll_instances
  Keeps-poll_instances r k [] = Keeps-pure tt
  Keeps-poll_instances r k (row ∷ rows) =
      let others = Keeps-poll_instances r (suc k) rows in
      Keeps-then _ _
        (Keeps-try_catch _ _ (Keeps-poll_instance (r k) row) (λ e. Keeps-fail_after _ e others))
        others

  pub Keeps-poll_work : (r : ℕ → Readings) → Keeps P (poll_work helper cal node r)
  unfolding poll_work
  Keeps-poll_work r =
      search
        (
          keeps_rules, quiet.health, quiet.apply_policy, Keeps-accept_plain, Keeps-poll_instances,
          Keeps-enforce,
        )
        depth 20
