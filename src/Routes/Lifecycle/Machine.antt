-- ===== src/Routes/Lifecycle/Machine.antt =====
-- The abstract machine of connections: one status for each, and steps along
-- `canTransitionConnection` of packages/contracts/src/index.ts.
use mathlib.Core.Option
use mathlib.Core.Path.{subst}
use awg_control.Base.{
  ℕ, ◌≡◌, refl, ap, sym, ◌∙◌, String, true, false, not, ◌&&◌, Option, some, arith, Bool-cases, inl,
  inr, any, if◌then◌else◌,
}
use awg_control.Base.Tables.{find_where, update_where}
use awg_control.Base.Tables.Laws.{find_where-update_where, find_where_sound}
use awg_control.Contracts.{ConnectionStatus, can_transition_connection}
use awg_control.Exec.{modify}
use awg_control.Exec.Laws.{Keeps, Keeps-modify}
use awg_control.Exec.Turns.{Turns}
use awg_control.Panel.{Panel, Scope, ConnectionRow, IdempotencyStatus}
use awg_control.Store.Instances.{update_instance_fingerprint}
use awg_control.Store.Connections.{has_id, collides, overridden, update_connection}
use awg_control.Store.Idempotency.{finish_idempotency}
use awg_control.Store.Audit.{AuditInput, add_audit}

-- Statuses that a connection can come to.
pub data Reaches : ConnectionStatus → ConnectionStatus → Type 0 where
  here : (s : ConnectionStatus) → Reaches s s
  step :
      {a b c : ConnectionStatus} → Reaches a b → can_transition_connection b c ≡ true → Reaches a c

Reaches-trans : {a b c : ConnectionStatus} → Reaches a b → Reaches b c → Reaches a c
Reaches-trans f (here s) = f
Reaches-trans f (step g e) = step (Reaches-trans f g) e

-- Nothing is reached from a revoked connection.
pub Reaches-revoked :
    {a b : ConnectionStatus}
    → Reaches a b
    → a ≡ ConnectionStatus.revoked
    → b ≡ ConnectionStatus.revoked
unfolding can_transition_connection
Reaches-revoked (here s) e = e
Reaches-revoked (step {b = b} {c = c} f e) r = absurd (none_leave b c (Reaches-revoked f r) e)
  where
    none_leave :
        (b c : ConnectionStatus)
        → b ≡ ConnectionStatus.revoked
        → can_transition_connection b c ≡ true
        → ⊥
    none_leave b c h e = ground (arith, h, e)

-- Each connection of `db` is still there in `s`, in a status that it can come to.
pub record Refines (db s : Panel) : Type 0 where
  pub moves :
      (id : ℕ) (c : ConnectionRow)
      → find_where (has_id id) db.connections ≡ some c
      → (c' : ConnectionRow) × (find_where (has_id id) s.connections ≡ some c')
        × Reaches c.status c'.status

pub Refines-same : (db s t : Panel) → s.connections ≡ t.connections → Refines db s → Refines db t
Refines-same db s t same h = record {
  moves = λ id c e.
      let (c', e', k) = h.moves id c e in (c', ap (find_where (has_id id)) (sym same) ∙ e', k);
}

pub Refines-refl : (db : Panel) → Refines db db
Refines-refl db = record { moves = λ id c e. (c, e, here c.status) }

pub Refines-trans : (a b c : Panel) → Refines a b → Refines b c → Refines a c
Refines-trans a b c f g = record {
  moves = λ id row e.
      let (row', e', k) = f.moves id row e in
      let (row'', e'', k') = g.moves id row' e' in (row'', e'', Reaches-trans k k');
}

-- An update of one row that steps along the table.
module _ (db : Panel) (id : ℕ) (row : ConnectionRow) (f : ConnectionRow → ConnectionRow)
    (found : find_where (has_id id) db.connections ≡ some row)
    (allowed : can_transition_connection row.status (f row).status ≡ true)
    (same_id : (c : ConnectionRow) → (f c).id ≡ c.id) where
  update_Refines :
      Refines db (record db { connections = update_where (has_id id) f db.connections })
  update_Refines = record {
    moves = λ k c e. elim (Bool-cases (has_id id c)) [
      | inl h ↦ (
        f c,
        moved k c e h,
        step (here c.status) (
            subst (λ x. can_transition_connection x.status (f x).status ≡ true)
              (sym (same_row k c e h)) allowed),
      )
      | inr h ↦ (c, kept k c e h, here c.status)
    ];
  }
    where
      mapped :
          (k : ℕ)
          → find_where (has_id k) (update_where (has_id id) f db.connections)
            ≡ Option.map
                (λ x. if has_id id x then f x else x)
                (find_where (has_id k) db.connections)
      mapped k =
          find_where-update_where (has_id k) (has_id id) f db.connections
            (λ x. ground (arith, same_id x))

      same_row :
          (k : ℕ) (c : ConnectionRow)
          → find_where (has_id k) db.connections ≡ some c
          → has_id id c ≡ true
          → c ≡ row
      same_row k c e h =
          let key : k ≡ id = ground (arith, find_where_sound (has_id k) db.connections c e, h) in
          let both : find_where (has_id k) db.connections ≡ find_where (has_id id) db.connections =
            ap (λ n. find_where (has_id n) db.connections) key in
          ground (arith, both, e, found)

      moved :
          (k : ℕ) (c : ConnectionRow)
          → find_where (has_id k) db.connections ≡ some c
          → has_id id c ≡ true
          → find_where (has_id k) (update_where (has_id id) f db.connections) ≡ some (f c)
      moved k c e h = ground (arith, mapped k, e, h)

      kept :
          (k : ℕ) (c : ConnectionRow)
          → find_where (has_id k) db.connections ≡ some c
          → has_id id c ≡ false
          → find_where (has_id k) (update_where (has_id id) f db.connections) ≡ some c
      kept k c e h = ground (arith, mapped k, e, h)

-- An update that the store makes, from the panel of which the transition was checked.
module _ (db : Panel) (id : ℕ) (row : ConnectionRow) (f : ConnectionRow → ConnectionRow)
    (found : find_where (has_id id) db.connections ≡ some row)
    (allowed : can_transition_connection row.status (f row).status ≡ true)
    (same_id : (c : ConnectionRow) → (f c).id ≡ c.id) where
  pub update_connection-Turns :
      Turns (λ s. s.connections ≡ db.connections) (Refines db) (update_connection id f)
  unfolding update_connection
  update_connection-Turns = record {
    at = λ s h.
        let found' : find_where (has_id id) s.connections ≡ some row =
          ap (find_where (has_id id)) h ∙ found in
        Refines-trans db s (update_connection id f s).1
          (Refines-same db db s (sym h) (Refines-refl db))
          (elim (Bool-cases (any (λ c. not (has_id id c) && collides (f row) c) s.connections)) [
            | inl b ↦ rw (found', b, update_connection) (Refines-refl s)
            | inr b ↦
                rw (found', b, update_connection) (update_Refines s id row f found' allowed same_id)
          ]);
  }

pub overridden_status :
    (status : ConnectionStatus) (now : ℕ) (c : ConnectionRow)
    → (overridden status now c).status ≡ ConnectionStatus.active
unfolding overridden
overridden_status status now c = ground arith

pub overridden_id :
    (status : ConnectionStatus) (now : ℕ) (c : ConnectionRow) → (overridden status now c).id ≡ c.id
unfolding overridden
overridden_id status now c = ground arith

module _ (db : Panel) where
  pub Keeps-finish :
      (scope : Scope) (op : String) (status : IdempotencyStatus) (id : Option ℕ)
      (code : Option String) (now : ℕ)
      → Keeps (Refines db) (modify (finish_idempotency scope op status id code now))
  Keeps-finish scope op status id code now = Keeps-modify _ λ s h.
      Refines-same db s (finish_idempotency scope op status id code now s)
        (unfold finish_idempotency in refl) h

  pub Keeps-audit :
      (input : AuditInput) (id now : ℕ) → Keeps (Refines db) (modify (add_audit input id now))
  Keeps-audit input id now =
      Keeps-modify _
        λ s h. Refines-same db s (add_audit input id now s) (unfold add_audit in refl) h

  pub Keeps-fingerprint :
      (id : ℕ) (fingerprint : String) (now : ℕ)
      → Keeps
          (λ s. s.connections ≡ db.connections)
          (modify (update_instance_fingerprint id fingerprint now))
  unfolding update_instance_fingerprint
  Keeps-fingerprint id fingerprint now = Keeps-modify _ (λ s h. h)

  pub unchanged : (s : Panel) → s.connections ≡ db.connections → Refines db s
  unchanged s h = Refines-same db db s (sym h) (Refines-refl db)
