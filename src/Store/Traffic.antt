-- ===== src/Store/Traffic.antt =====
-- Traffic accounting in apps/api/src/repository.ts: `updateTraffic` adds what a peer's counters show
-- to the totals of its connection and to an hourly and a daily bucket.
pub mod Counters
pub mod Conservation
use awg_control.Base.{
  ℕ, ◌+◌, ◌-◌, ◌*◌, ◌%◌, Bool, true, false, ◌&&◌, ◌||◌, Option, none, some, List, [], ◌∷◌, map, ltb,
  leb, ◌==◌, if◌then◌else◌,
}
use awg_control.Base.Tables.{find_where, select_where, update_where, delete_where, order_by}
use awg_control.Panel.{Panel, ConnectionRow, RollupRow, BucketKind}
use awg_control.Store.Connections.{has_id, get_connection}

pub record Sample : Type 0 where
  pub connection_id : ℕ
  pub rx : ℕ
  pub tx : ℕ
  pub last_handshake_at : Option ℕ

-- A counter below its last reading has been reset.
unfoldable pub is_reset : Sample → ConnectionRow → Bool
is_reset input row = ltb input.rx row.last_counter_rx || ltb input.tx row.last_counter_tx

unfoldable pub delta_rx : Sample → ConnectionRow → ℕ
unfolding is_reset
delta_rx input row = if is_reset input row then input.rx else input.rx - row.last_counter_rx

unfoldable pub delta_tx : Sample → ConnectionRow → ℕ
unfolding is_reset
delta_tx input row = if is_reset input row then input.tx else input.tx - row.last_counter_tx

unfoldable pub counted : Sample → ConnectionRow → ℕ → ConnectionRow → ConnectionRow
unfolding delta_rx delta_tx
counted input row now c = record c {
  rx_bytes_total = c.rx_bytes_total + delta_rx input row;
  tx_bytes_total = c.tx_bytes_total + delta_tx input row;
  last_counter_rx = input.rx;
  last_counter_tx = input.tx;
  counter_epoch = c.counter_epoch + (if is_reset input row then 1 else 0);
  quota_override_used_bytes =
      c.quota_override_used_bytes + (delta_rx input row + delta_tx input row);
  last_handshake_at = input.last_handshake_at;
  updated_at = now;
}

-- `${now.slice(0, 13)}:00:00.000Z` and `${now.slice(0, 10)}T00:00:00.000Z`.
abbrev pub hour_of : ℕ → ℕ
hour_of now = now - now % 3_600_000

abbrev pub day_of : ℕ → ℕ
day_of now = now - now % 86_400_000

abbrev pub is_hourly : BucketKind → Bool
is_hourly BucketKind.hourly = true
is_hourly BucketKind.daily = false

abbrev pub kind_eq : BucketKind → BucketKind → Bool
kind_eq BucketKind.hourly k = is_hourly k
kind_eq BucketKind.daily BucketKind.hourly = false
kind_eq BucketKind.daily BucketKind.daily = true

-- INSERT … ON CONFLICT (connection_id, bucket_start, bucket_kind) DO UPDATE.
unfoldable pub add_rollup : RollupRow → List RollupRow → List RollupRow
add_rollup new [] = new ∷ []
add_rollup new (r ∷ rs) =
    let rest = add_rollup new rs in
    if r.connection_id == new.connection_id
      && r.bucket_start == new.bucket_start
      && kind_eq r.bucket_kind new.bucket_kind
    then record r { rx_bytes = r.rx_bytes + new.rx_bytes; tx_bytes = r.tx_bytes + new.tx_bytes }
      ∷ rs
    else r ∷ rest

abbrev pub bucket : Sample → ConnectionRow → ℕ → BucketKind → RollupRow
bucket input row start kind = record {
  connection_id = input.connection_id;
  bucket_start = start;
  bucket_kind = kind;
  rx_bytes = delta_rx input row;
  tx_bytes = delta_tx input row;
}

-- The writes of `updateTraffic`, once the connection's row is read.
unfoldable pub record_traffic : Sample → ConnectionRow → ℕ → Panel → Panel
unfolding counted add_rollup
record_traffic input row now db = record db {
  connections = update_where (has_id input.connection_id) (counted input row now) db.connections;
  rollups =
      add_rollup (bucket input row (day_of now) BucketKind.daily)
        (add_rollup (bucket input row (hour_of now) BucketKind.hourly) db.rollups);
}

unfoldable pub update_traffic : Sample → ℕ → Panel → Panel
unfolding record_traffic
update_traffic input now db = elim (find_where (has_id input.connection_id) db.connections) [
  | none ↦ db
  | some row ↦ record_traffic input row now db
]

pub record BucketTotal : Type 0 where
  pub bucket_start : ℕ
  pub rx_bytes : ℕ
  pub tx_bytes : ℕ

pub record TrafficReport : Type 0 where
  pub rx_total : ℕ
  pub tx_total : ℕ
  pub hourly : List BucketTotal
  pub daily : List BucketTotal

abbrev buckets : BucketKind → List RollupRow → List BucketTotal
buckets kind rows =
    map
      (λ r. record { bucket_start = r.bucket_start; rx_bytes = r.rx_bytes; tx_bytes = r.tx_bytes })
      (select_where (λ r. kind_eq r.bucket_kind kind) rows)

-- The rows of one connection, ordered by their start.
abbrev rollups_of : ℕ → Panel → List RollupRow
rollups_of connection_id db =
    order_by (λ a b. leb a.bucket_start b.bucket_start)
      (select_where (λ r. r.connection_id == connection_id) db.rollups)

unfoldable pub traffic : ℕ → Panel → Option TrafficReport
unfolding get_connection
traffic connection_id db = elim (get_connection connection_id db) [
  | none ↦ none
  | some connection ↦ some (record {
    rx_total = connection.rx_bytes_total;
    tx_total = connection.tx_bytes_total;
    hourly = buckets BucketKind.hourly (rollups_of connection_id db);
    daily = buckets BucketKind.daily (rollups_of connection_id db);
  })
]

unfoldable pub prune_traffic : ℕ → ℕ → Panel → Panel
prune_traffic hourly_before daily_before db = record db {
  rollups =
      delete_where
        (λ r.
          is_hourly r.bucket_kind && ltb r.bucket_start hourly_before
          || kind_eq BucketKind.daily r.bucket_kind && ltb r.bucket_start daily_before)
        db.rollups;
}
