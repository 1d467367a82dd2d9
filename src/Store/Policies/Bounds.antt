-- ===== src/Store/Policies/Bounds.antt =====
-- The usage that a node is told of, against the totals of the connection.
use awg_control.Base.{
  ℕ, ◌+◌, ◌≤◌, ◌≡◌, refl, ap, ◌∙◌, true, Option, none, some, List, [], ◌∷◌, arith, sum_by,
}
use awg_control.Base.Tables.{find_where, select_where}
use awg_control.Base.Tables.Laws.{find_where_sound}
use awg_control.Contracts.{ConnectionStatus}
use awg_control.Panel.{Panel, ConnectionRow, QuotaPolicyRow, RollupRow, BucketKind}
use awg_control.Store.Connections.{has_id, overridden}
use awg_control.Store.Traffic.Conservation.{rx_in, tx_in, IsBalanced}
use awg_control.Store.Policies.{
  thirty_days, Calendar, override_at, used_since, calendar_month_start, period_usage,
  override_applies, usage,
}

used_since_bound :
    (id shift cut : ℕ) (rows : List RollupRow)
    → used_since id shift cut rows
      ≤ sum_by (rx_in id BucketKind.daily) rows + sum_by (tx_in id BucketKind.daily) rows
unfolding used_since select_where
used_since_bound id shift cut [] = omega arith
used_since_bound id shift cut (row ∷ rows) = ground (arith, used_since_bound id shift cut rows)

period_bound :
    (cal : Calendar) (now : ℕ) (c : ConnectionRow) (q : Option QuotaPolicyRow)
    (rows : List RollupRow)
    → sum_by (rx_in c.id BucketKind.daily) rows ≡ c.rx_bytes_total
    → sum_by (tx_in c.id BucketKind.daily) rows ≡ c.tx_bytes_total
    → (period_usage cal now c q rows).0 ≤ c.rx_bytes_total + c.tx_bytes_total
unfolding period_usage
period_bound cal now c none rows h k = omega arith
period_bound cal now c (some q) rows h k = ground (
  arith,
  h,
  k,
  used_since_bound c.id thirty_days now rows,
  used_since_bound c.id 0 (calendar_month_start cal q.reset_timezone now) rows,
)

-- Where the buckets add up to the totals, the usage of a connection without an override, whatever
-- the period of its policy, is at most all the bytes that it ever used.
pub usage_bound :
    (cal : Calendar) (now id : ℕ) (q : Option QuotaPolicyRow) (c : ConnectionRow) (db : Panel)
    → IsBalanced db
    → find_where (has_id id) db.connections ≡ some c
    → c.quota_override_at ≡ none
    → (usage cal now c q db.rollups).0 ≤ c.rx_bytes_total + c.tx_bytes_total
unfolding usage
usage_bound cal now id q c db balanced e plain =
    let same : c.id ≡ id = ground (arith, find_where_sound (has_id id) db.connections c e) in
    let e' : find_where (has_id c.id) db.connections ≡ some c =
      ap (λ k. find_where (has_id k) db.connections) same ∙ e in
    ground (
      arith,
      plain,
      period_bound cal now c q db.rollups (balanced.rx BucketKind.daily c.id c e')
          (balanced.tx BucketKind.daily c.id c e'),
    )

-- An override of a connection that exceeded its quota starts its usage at zero bytes, in an epoch of
-- its own, for as long as the override lies in the period of its policy.
usage-overridden :
    (cal : Calendar) (now at : ℕ) (q : Option QuotaPolicyRow) (c : ConnectionRow)
    (rows : List RollupRow)
    → override_applies cal now q at ≡ true
    → usage cal now (overridden ConnectionStatus.quota_exceeded at c) q rows ≡ (0, override_at at)
unfolding usage overridden
usage-overridden cal now at q c rows h = rw h refl
