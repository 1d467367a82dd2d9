-- ===== src/Store/Traffic/Conservation.antt =====
-- No byte is lost between the totals of a connection and its buckets.
use awg_control.Base.{
  ℕ, ◌+◌, ◌≡◌, refl, ◌&&◌, some, List, [], ◌∷◌, arith, sum_by, if◌then◌else◌, Option-cases, inl,
  inr, ◌==◌,
}
use awg_control.Base.Tables.{find_where}
use awg_control.Base.Tables.Laws.{find_where_sound}
use awg_control.Panel.{Panel, ConnectionRow, RollupRow, BucketKind}
use awg_control.Store.Connections.{has_id}
use awg_control.Store.Traffic.{
  Sample, delta_rx, delta_tx, counted, kind_eq, add_rollup, bucket, hour_of, day_of, record_traffic,
  update_traffic,
}
use awg_control.Store.Traffic.Counters.{poll, find-record_traffic}

abbrev pub rx_in : ℕ → BucketKind → RollupRow → ℕ
rx_in id kind r = if r.connection_id == id && kind_eq r.bucket_kind kind then r.rx_bytes else 0

abbrev pub tx_in : ℕ → BucketKind → RollupRow → ℕ
tx_in id kind r = if r.connection_id == id && kind_eq r.bucket_kind kind then r.tx_bytes else 0

-- The buckets of one kind add up to the totals of their connection.
pub record IsBalanced (db : Panel) : Type 0 where
  pub rx :
      (kind : BucketKind) (id : ℕ) (c : ConnectionRow)
      → find_where (has_id id) db.connections ≡ some c
      → sum_by (rx_in id kind) db.rollups ≡ c.rx_bytes_total
  pub tx :
      (kind : BucketKind) (id : ℕ) (c : ConnectionRow)
      → find_where (has_id id) db.connections ≡ some c
      → sum_by (tx_in id kind) db.rollups ≡ c.tx_bytes_total

module _ (id : ℕ) (kind : BucketKind) (new : RollupRow) where
  rx-add_rollup :
      (rows : List RollupRow)
      → sum_by (rx_in id kind) (add_rollup new rows)
        ≡ rx_in id kind new + sum_by (rx_in id kind) rows
  unfolding add_rollup
  rx-add_rollup [] = refl
  rx-add_rollup (r ∷ rs) = ground (arith, rx-add_rollup rs)

  tx-add_rollup :
      (rows : List RollupRow)
      → sum_by (tx_in id kind) (add_rollup new rows)
        ≡ tx_in id kind new + sum_by (tx_in id kind) rows
  unfolding add_rollup
  tx-add_rollup [] = refl
  tx-add_rollup (r ∷ rs) = ground (arith, tx-add_rollup rs)

module _ (id : ℕ) (kind : BucketKind) (input : Sample) (row : ConnectionRow) (now : ℕ)
    (db : Panel) where
  -- A sample adds its bytes to one bucket of each kind.
  rx-record_traffic :
      sum_by (rx_in id kind) (record_traffic input row now db).rollups
      ≡ (if input.connection_id == id then delta_rx input row else 0)
        + sum_by (rx_in id kind) db.rollups
  unfolding record_traffic
  rx-record_traffic = ground (
    arith,
    rx-add_rollup id kind (bucket input row (day_of now) BucketKind.daily)
        (add_rollup (bucket input row (hour_of now) BucketKind.hourly) db.rollups),
    rx-add_rollup id kind (bucket input row (hour_of now) BucketKind.hourly) db.rollups,
  )

  tx-record_traffic :
      sum_by (tx_in id kind) (record_traffic input row now db).rollups
      ≡ (if input.connection_id == id then delta_tx input row else 0)
        + sum_by (tx_in id kind) db.rollups
  unfolding record_traffic
  tx-record_traffic = ground (
    arith,
    tx-add_rollup id kind (bucket input row (day_of now) BucketKind.daily)
        (add_rollup (bucket input row (hour_of now) BucketKind.hourly) db.rollups),
    tx-add_rollup id kind (bucket input row (hour_of now) BucketKind.hourly) db.rollups,
  )

record_traffic-IsBalanced :
    (input : Sample) (row : ConnectionRow) (now : ℕ) (db : Panel)
    → find_where (has_id input.connection_id) db.connections ≡ some row
    → IsBalanced db
    → IsBalanced (record_traffic input row now db)
record_traffic-IsBalanced input row now db e h = record {
  rx = λ kind id c f. elim (Option-cases (find_where (has_id id) db.connections)) [
    | inl n ↦ absurd (ground (arith, find-record_traffic input row now id db))
    | inr (x, k) ↦
        unfold counted in
        ground (
          arith,
          find-record_traffic input row now id db,
          rx-record_traffic id kind input row now db,
          h.rx kind id x k,
          find_where_sound (has_id id) db.connections x k,
          find_where_sound (has_id input.connection_id) db.connections row e,
        )
  ];
  tx = λ kind id c f. elim (Option-cases (find_where (has_id id) db.connections)) [
    | inl n ↦ absurd (ground (arith, find-record_traffic input row now id db))
    | inr (x, k) ↦
        unfold counted in
        ground (
          arith,
          find-record_traffic input row now id db,
          tx-record_traffic id kind input row now db,
          h.tx kind id x k,
          find_where_sound (has_id id) db.connections x k,
          find_where_sound (has_id input.connection_id) db.connections row e,
        )
  ];
}

pub update_traffic-IsBalanced :
    (input : Sample) (now : ℕ) (db : Panel)
    → IsBalanced db
    → IsBalanced (update_traffic input now db)
unfolding update_traffic
update_traffic-IsBalanced input now db h =
    elim (Option-cases (find_where (has_id input.connection_id) db.connections)) [
      | inl e ↦ rw (e, update_traffic) h
      | inr (row, e) ↦ rw (e, update_traffic) (record_traffic-IsBalanced input row now db e h)
    ]

pub poll-IsBalanced :
    (samples : List (Sample × ℕ)) (db : Panel) → IsBalanced db → IsBalanced (poll samples db)
unfolding poll
poll-IsBalanced [] db h = h
poll-IsBalanced ((sample, now) ∷ samples) db h =
    poll-IsBalanced samples (update_traffic sample now db)
      (update_traffic-IsBalanced sample now db h)

-- Whatever samples the polls report, the hourly buckets of a connection, and its daily ones, add up
-- to its totals, if those of every connection did so before.
pub poll_balances :
    (samples : List (Sample × ℕ)) (db : Panel) (kind : BucketKind) (id : ℕ) (c : ConnectionRow)
    → IsBalanced db
    → find_where (has_id id) (poll samples db).connections ≡ some c
    → (sum_by (rx_in id kind) (poll samples db).rollups ≡ c.rx_bytes_total)
      × (sum_by (tx_in id kind) (poll samples db).rollups ≡ c.tx_bytes_total)
poll_balances samples db kind id c h e =
    let k = poll-IsBalanced samples db h in (k.rx kind id c e, k.tx kind id c e)
