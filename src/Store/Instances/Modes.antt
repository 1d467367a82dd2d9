-- ===== src/Store/Instances/Modes.antt =====
-- How an instance comes to be managed.
use mathlib.Core.Option
use awg_control.Base.{
  not, ◌||◌, ℕ, ◌≡◌, ◌≢◌, refl, ap, ◌∙◌, Bool, none, some, List, [], ◌∷◌, ◌++◌, map, arith, All,
  any, if◌then◌else◌, Option-cases, Bool-cases, inl, inr, ◌==◌,
}
use awg_control.Base.Tables.{find_where, update_where}
use awg_control.Base.Tables.Laws.{find_where-append, find_where-update_where}
use awg_control.Contracts.{InstanceMode}
use awg_control.Panel.{Panel, InstanceRow}
use awg_control.Exec.Laws.{Keeps, Keeps-pure, Keeps-then, Keeps-gets, Keeps-transaction}
use awg_control.Contracts.Instances.{InstanceRecord}
use awg_control.Store.Instances.{
  next_mode, same_key, merge, upsert_instance, upsert_all, upsert_instances, to_row,
}

-- Discovery confirms management: the upsert leaves an instance managed exactly where it was managed
-- and is found with the same adapter and protocol and not read-only, or where what is discovered
-- says so itself.
next_mode_managed :
    (old new : InstanceRow)
    → new.mode ≢ InstanceMode.managed
    → next_mode old new ≡ InstanceMode.managed
    → (old.mode ≡ InstanceMode.managed)
      × (old.adapter ≡ new.adapter)
      × (old.protocol_version ≡ new.protocol_version)
      × (new.mode ≡ InstanceMode.observed)
unfolding next_mode
next_mode_managed old new h e = ground arith

abbrev has_id : ℕ → InstanceRow → Bool
has_id id i = i.id == id

-- Each managed instance of `db'` was managed in `db`, with the same adapter and protocol.
abbrev pub WereManaged : Panel → Panel → Type 0
WereManaged db db' =
    (id : ℕ) (i : InstanceRow)
    → find_where (λ x. x.id == id) db'.instances ≡ some i
    → i.mode ≡ InstanceMode.managed
    → (old : InstanceRow) × (find_where (λ x. x.id == id) db.instances ≡ some old)
      × (old.mode ≡ InstanceMode.managed)
      × (old.adapter ≡ i.adapter)
      × (old.protocol_version ≡ i.protocol_version)

pub WereManaged-refl : (db : Panel) → WereManaged db db
WereManaged-refl db id i e m = (i, e, m, refl, refl)

-- The other tables do not matter.
pub WereManaged-same :
    (db s t : Panel) → s.instances ≡ t.instances → WereManaged db s → WereManaged db t
WereManaged-same db s t same h id i e m = h id i (ap (find_where (λ x. x.id == id)) same ∙ e) m

WereManaged-trans : (a b c : Panel) → WereManaged a b → WereManaged b c → WereManaged a c
WereManaged-trans a b c f g id i e m =
    let (j, e', m', s, t) = g id i e m in
    let (k, e'', m'', s', t') = f id j e' m' in (k, e'', m'', s' ∙ s, t' ∙ t)

module _ (new : InstanceRow) (db : Panel) (plain : new.mode ≢ InstanceMode.managed) where
  merged-WereManaged :
      WereManaged db
        (record db { instances = update_where (same_key new) (merge new) db.instances })
  unfolding merge
  merged-WereManaged id i e m = elim (Option-cases (find_where (has_id id) db.instances)) [
    | inl n ↦ absurd (ground (arith, found))
    | inr (x, k) ↦ elim (Bool-cases (same_key new x)) [
      | inl h ↦
          let eq : merge new x ≡ i = ground (arith, found) in
          let managed = next_mode_managed x new plain (ap (λ r. r.mode) eq ∙ m) in
          (
            x,
            k,
            managed.0,
            managed.1 ∙ ap (λ r. r.adapter) eq,
            managed.2 ∙ ap (λ r. r.protocol_version) eq,
          )
      | inr h ↦
          let eq : x ≡ i = ground (arith, found) in
          (x, k, ap (λ r. r.mode) eq ∙ m, ap (λ r. r.adapter) eq, ap (λ r. r.protocol_version) eq)
    ]
  ]
    where
      found :
          find_where (has_id id) (update_where (same_key new) (merge new) db.instances)
          ≡ Option.map
              (λ x. if same_key new x then merge new x else x)
              (find_where (has_id id) db.instances)
      found =
          find_where-update_where (has_id id) (same_key new) (merge new) db.instances
            (λ x. unfold merge in refl)

  added-WereManaged : WereManaged db (record db { instances = db.instances ++ new ∷ [] })
  unfolding find_where
  added-WereManaged id i e m = elim (Option-cases (find_where (has_id id) db.instances)) [
    | inl n ↦ absurd (ground (arith, found, plain))
    | inr (x, k) ↦
        let eq : x ≡ i = ground (arith, found) in
        (x, k, ap (λ r. r.mode) eq ∙ m, ap (λ r. r.adapter) eq, ap (λ r. r.protocol_version) eq)
  ]
    where
      found :
          find_where (has_id id) (db.instances ++ new ∷ [])
          ≡ elim (find_where (has_id id) db.instances) [
            | none ↦ find_where (has_id id) (new ∷ [])
            | some x ↦ some x
          ]
      found = find_where-append (has_id id) db.instances (new ∷ [])

  upsert-WereManaged : WereManaged db (upsert_instance new db).1
  unfolding upsert_instance
  upsert-WereManaged = elim (Bool-cases (any (same_key new) db.instances)) [
    | inl h ↦ rw h merged-WereManaged
    | inr h ↦
        elim (Bool-cases
          (any (has_id new.id) db.instances || not (any (λ n. n.id == new.node_id) db.nodes))) [
            | inl k ↦ rw (h, k) (λ id i e m. (i, e, m, refl, refl))
            | inr k ↦ rw (h, k) added-WereManaged
          ]
  ]

module _ (db₀ : Panel) where
  upsert-Keeps :
      (new : InstanceRow)
      → new.mode ≢ InstanceMode.managed
      → Keeps (WereManaged db₀) (upsert_instance new)
  upsert-Keeps new plain = record {
    at = λ db h.
        WereManaged-trans db₀ db (upsert_instance new db).1 h (upsert-WereManaged new db plain);
  }

  upsert_all-Keeps :
      (news : List InstanceRow)
      → All (λ new. new.mode ≢ InstanceMode.managed) news
      → Keeps (WereManaged db₀) (upsert_all news)
  unfolding upsert_all
  upsert_all-Keeps [] plain = Keeps-pure tt
  upsert_all-Keeps (new ∷ news) (p, plain) =
      Keeps-then (upsert_instance new) (upsert_all news) (upsert-Keeps new p)
        (upsert_all-Keeps news plain)

module _ (db₀ : Panel) where
  pub upsert_instances-Keeps :
      (node_id : ℕ) (discovered : List InstanceRecord)
      → All (λ new. new.mode ≢ InstanceMode.managed) (map (to_row node_id) discovered)
      → Keeps (WereManaged db₀) (upsert_instances node_id discovered)
  unfolding upsert_instances
  upsert_instances-Keeps node_id discovered plain =
      Keeps-then _ _
        (Keeps-transaction _ (upsert_all-Keeps db₀ (map (to_row node_id) discovered) plain))
        (Keeps-gets _)

upsert_instances-WereManaged :
    (node_id : ℕ) (discovered : List InstanceRecord) (db : Panel)
    → All (λ new. new.mode ≢ InstanceMode.managed) (map (to_row node_id) discovered)
    → WereManaged db (upsert_instances node_id discovered db).1
upsert_instances-WereManaged node_id discovered db plain =
    (upsert_instances-Keeps db node_id discovered plain).at db (WereManaged-refl db)

-- Discovery never turns an instance to managed: if nothing discovered claims to be managed, then an
-- instance that is managed after the upsert, whether it succeeds or fails, was managed before it,
-- with the same adapter and the same protocol version.
upsert_instances_no_promotion :
    (node_id : ℕ) (discovered : List InstanceRecord) (db : Panel) (id : ℕ) (i : InstanceRow)
    → All (λ new. new.mode ≢ InstanceMode.managed) (map (to_row node_id) discovered)
    → find_where (λ x. x.id == id) (upsert_instances node_id discovered db).1.instances ≡ some i
    → i.mode ≡ InstanceMode.managed
    → (old : InstanceRow) × (find_where (λ x. x.id == id) db.instances ≡ some old)
      × (old.mode ≡ InstanceMode.managed)
      × (old.adapter ≡ i.adapter)
      × (old.protocol_version ≡ i.protocol_version)
upsert_instances_no_promotion node_id discovered db id i plain e m =
    upsert_instances-WereManaged node_id discovered db plain id i e m
