-- ===== src/Store/Traffic/Counters.antt =====
-- What the totals of a connection are, after any sequence of samples.
use awg_control.Base.{
  ℕ, ◌+◌, ◌≤◌, ◌≡◌, ap, ◌∙◌, refl, some, List, [], ◌∷◌, arith, ◌≢◌, if◌then◌else◌, Option-cases,
  inl, inr,
}
use mathlib.Core.Option
use awg_control.Base.Tables.{find_where}
use awg_control.Base.Tables.Laws.{find_where_sound, find_where-update_where}
use awg_control.Panel.{Panel, ConnectionRow}
use awg_control.Store.Connections.{has_id}
use awg_control.Store.Traffic.{Sample, delta_rx, delta_tx, counted, record_traffic, update_traffic}

-- The totals are at least what the counters show, and are exactly that while no counter was reset.
pub record IsCounted (c : ConnectionRow) : Type 0 where
  pub rx_covered : c.last_counter_rx ≤ c.rx_bytes_total
  pub tx_covered : c.last_counter_tx ≤ c.tx_bytes_total
  pub rx_exact : c.counter_epoch ≡ 0 → c.rx_bytes_total ≡ c.last_counter_rx
  pub tx_exact : c.counter_epoch ≡ 0 → c.tx_bytes_total ≡ c.last_counter_tx

-- A batch of samples, as the polls of a worker report them, each with the time of its poll.
unfoldable pub poll : List (Sample × ℕ) → Panel → Panel
poll [] db = db
poll ((sample, now) ∷ samples) db = poll samples (update_traffic sample now db)

counted-IsCounted :
    (input : Sample) (c : ConnectionRow) (now : ℕ) → IsCounted c → IsCounted (counted input c now c)
unfolding counted
counted-IsCounted input c now h = ground arith

-- Every connection that the store finds is counted.
abbrev pub AllCounted : Panel → Type 0
AllCounted db =
    (id : ℕ) (c : ConnectionRow) → find_where (has_id id) db.connections ≡ some c → IsCounted c

-- How a sample changes what the store finds.
pub find-record_traffic :
    (input : Sample) (row : ConnectionRow) (now id : ℕ) (db : Panel)
    → find_where (has_id id) (record_traffic input row now db).connections
      ≡ Option.map
          (λ x. if has_id input.connection_id x then counted input row now x else x)
          (find_where (has_id id) db.connections)
unfolding record_traffic
find-record_traffic input row now id db =
    find_where-update_where (has_id id) (has_id input.connection_id) (counted input row now)
      db.connections (λ x. unfold counted in refl)

record_traffic-AllCounted :
    (input : Sample) (row : ConnectionRow) (now : ℕ) (db : Panel)
    → find_where (has_id input.connection_id) db.connections ≡ some row
    → AllCounted db
    → AllCounted (record_traffic input row now db)
record_traffic-AllCounted input row now db e h id c f =
    elim (Option-cases (find_where (has_id id) db.connections)) [
      | inl n ↦ absurd (ground (arith, find-record_traffic input row now id db))
      | inr (x, k) ↦ ground (
        arith,
        find-record_traffic input row now id db,
        h id x k,
        find_where_sound (has_id id) db.connections x k,
        find_where_sound (has_id input.connection_id) db.connections row e,
        counted-IsCounted input row now,
      )
    ]

update_traffic-AllCounted :
    (input : Sample) (now : ℕ) (db : Panel)
    → AllCounted db
    → AllCounted (update_traffic input now db)
unfolding update_traffic
update_traffic-AllCounted input now db h =
    elim (Option-cases (find_where (has_id input.connection_id) db.connections)) [
      | inl e ↦ rw (e, update_traffic) h
      | inr (row, e) ↦ rw (e, update_traffic) (record_traffic-AllCounted input row now db e h)
    ]

pub poll-AllCounted :
    (samples : List (Sample × ℕ)) (db : Panel) → AllCounted db → AllCounted (poll samples db)
unfolding poll
poll-AllCounted [] db h = h
poll-AllCounted ((sample, now) ∷ samples) db h =
    poll-AllCounted samples (update_traffic sample now db)
      (update_traffic-AllCounted sample now db h)

-- Whatever samples the polls report, and in whatever order, the totals of a connection are at least
-- its last counters, if the accounting of every connection was right before.
poll_covers :
    (samples : List (Sample × ℕ)) (db : Panel) (id : ℕ) (c : ConnectionRow)
    → AllCounted db
    → find_where (has_id id) (poll samples db).connections ≡ some c
    → (c.last_counter_rx ≤ c.rx_bytes_total) × (c.last_counter_tx ≤ c.tx_bytes_total)
poll_covers samples db id c h e =
    let k = poll-AllCounted samples db h id c e in (k.rx_covered, k.tx_covered)

-- A connection whose counters were never reset has exactly its last counters as its totals after
-- any polls, if every connection was so counted before them.
pub poll_exact :
    (samples : List (Sample × ℕ)) (db : Panel) (id : ℕ) (c : ConnectionRow)
    → AllCounted db
    → find_where (has_id id) (poll samples db).connections ≡ some c
    → c.counter_epoch ≡ 0
    → (c.rx_bytes_total ≡ c.last_counter_rx) × (c.tx_bytes_total ≡ c.last_counter_tx)
poll_exact samples db id c h e z =
    let k = poll-AllCounted samples db h id c e in (k.rx_exact z, k.tx_exact z)

-- What one sample makes of a connection.
abbrev sampled : Sample → ℕ → ConnectionRow → ConnectionRow
sampled input now c = if has_id input.connection_id c then counted input c now c else c

find-update_traffic :
    (input : Sample) (now id : ℕ) (db : Panel) (c : ConnectionRow)
    → find_where (has_id id) db.connections ≡ some c
    → find_where (has_id id) (update_traffic input now db).connections ≡ some (sampled input now c)
unfolding update_traffic
find-update_traffic input now id db c e =
    elim (Option-cases (find_where (has_id input.connection_id) db.connections)) [
      | inl n ↦ ground (arith, find_where_sound (has_id id) db.connections c e)
      | inr (row, f) ↦ ground (
        arith,
        find_where_sound (has_id id) db.connections c e,
        find_where_sound (has_id input.connection_id) db.connections row f,
        find-record_traffic input row now id db,
      )
    ]

-- One sample adds to the totals, and to the bytes used since an override, of its connection exactly
-- what it counts for it.
update_traffic_effect :
    (input : Sample) (now : ℕ) (db : Panel) (c : ConnectionRow)
    → find_where (has_id input.connection_id) db.connections ≡ some c
    → (c' : ConnectionRow) × (find_where
          (has_id input.connection_id)
          (update_traffic input now db).connections
        ≡ some c')
      × (c'.rx_bytes_total ≡ c.rx_bytes_total + delta_rx input c)
      × (c'.tx_bytes_total ≡ c.tx_bytes_total + delta_tx input c)
      × (c'.quota_override_used_bytes
          ≡ c.quota_override_used_bytes + delta_rx input c + delta_tx input c)
unfolding counted
update_traffic_effect input now db c e =
    let same = find_where_sound (has_id input.connection_id) db.connections c e in
    (
      sampled input now c,
      find-update_traffic input now input.connection_id db c e,
      ground (arith, same),
      ground (arith, same),
      ground (arith, same),
    )

-- A sample of one connection leaves every other connection as it was.
update_traffic_others :
    (input : Sample) (now id : ℕ) (db : Panel) (c : ConnectionRow)
    → id ≢ input.connection_id
    → find_where (has_id id) db.connections ≡ some c
    → find_where (has_id id) (update_traffic input now db).connections ≡ some c
update_traffic_others input now id db c ne e =
    let same = find_where_sound (has_id id) db.connections c e in
    find-update_traffic input now id db c e ∙ ap some (ground (arith, same, ne))
