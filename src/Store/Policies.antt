-- ===== src/Store/Policies.antt =====
-- The policies that a node enforces, `policyProjectionForNode` of apps/api/src/repository.ts.
pub mod Bounds
use awg_control.Base.{
  ℕ, ◌+◌, ◌-◌, ◌*◌, String, Bool, true, false, not, ◌&&◌, ◌||◌, Option, none, some, List, map, leb,
  ◌==◌, if◌then◌else◌, is_some, sum_by, any,
}
use awg_control.Base.Tables.{find_where, select_where}
use awg_control.Contracts.{ConnectionStatus, QuotaPeriod, ◌is◌, is_managed}
use awg_control.Panel.{Panel, ConnectionRow, QuotaPolicyRow, RollupRow, BucketKind}
use awg_control.Store.Traffic.{kind_eq}

-- What Intl.DateTimeFormat and Date.UTC give: the local date and time of an instant in a zone, and
-- the instant of a date and time (its month counted from 0) in UTC.
pub record DateParts : Type 0 where
  pub year : ℕ
  pub month : ℕ
  pub day : ℕ
  pub hour : ℕ
  pub minute : ℕ
  pub second : ℕ

pub record Calendar : Type 0 where
  pub zone_parts : String → ℕ → DateParts
  pub utc : ℕ → ℕ → ℕ → ℕ → ℕ → ℕ → ℕ

-- `calendarMonthStart`: the first of the month, less the offset `localGuess - now`.
unfoldable pub calendar_month_start : Calendar → String → ℕ → ℕ
calendar_month_start cal time_zone now =
    let parts = cal.zone_parts time_zone now in
    let local_guess =
      cal.utc parts.year (parts.month - 1) parts.day parts.hour parts.minute parts.second in
    cal.utc parts.year (parts.month - 1) 1 0 0 0 + now - local_guess

pub data UsageEpoch : Type 0 where
  lifetime_epoch rolling_month : UsageEpoch
  month_from : ℕ → UsageEpoch
  override_at : ℕ → UsageEpoch

pub record PolicyProjection : Type 0 where
  pub connection_id : ℕ
  pub instance_id : ℕ
  pub public_key : String
  pub expires_at : Option ℕ
  pub limit_bytes : Option ℕ
  pub used_bytes : ℕ
  pub status : ConnectionStatus
  pub usage_epoch : UsageEpoch

-- The sum over the daily buckets of a connection that start at `cut` or later; `shift` stands on the
-- left where the code subtracts it from the clock.
unfoldable pub used_since : ℕ → ℕ → ℕ → List RollupRow → ℕ
used_since id shift cut rollups =
    sum_by (λ r. r.rx_bytes + r.tx_bytes)
      (select_where
        (λ r.
          r.connection_id == id
          && kind_eq r.bucket_kind BucketKind.daily
          && leb cut (r.bucket_start + shift))
        rollups)

abbrev pub thirty_days : ℕ
thirty_days = 30 * 86_400_000

abbrev limit_of : Option QuotaPolicyRow → Option ℕ
limit_of none = none
limit_of (some q) = some q.limit_bytes

-- LEFT JOIN quota_policies q ON q.id = c.quota_policy_id
unfoldable pub quota_of : Panel → ConnectionRow → Option QuotaPolicyRow
quota_of db c = elim c.quota_policy_id [
  | none ↦ none
  | some id ↦ find_where (λ q. q.id == id) db.quota_policies
]

-- The WHERE clause of the projection.
unfoldable pub is_enforced : ℕ → Panel → ConnectionRow → Bool
is_enforced node_id db c =
    any (λ i. i.id == c.instance_id && i.node_id == node_id) db.instances
    && is_managed c.management_mode
    && (c.status is ConnectionStatus.active
        || c.status is ConnectionStatus.suspended
        || c.status is ConnectionStatus.expired
        || c.status is ConnectionStatus.quota_exceeded)
    && (is_some c.expires_at
        || is_some c.quota_policy_id
        || not (c.status is ConnectionStatus.active))

module _ (cal : Calendar) (now : ℕ) where
  -- Bytes used, and the epoch in which they were, before overrides.
  unfoldable pub period_usage :
      ConnectionRow → Option QuotaPolicyRow → List RollupRow → ℕ × UsageEpoch
  unfolding calendar_month_start used_since
  period_usage c none rollups = (c.rx_bytes_total + c.tx_bytes_total, lifetime_epoch)
  period_usage c (some q) rollups = elim q.period [
    | QuotaPeriod.lifetime ↦ (c.rx_bytes_total + c.tx_bytes_total, lifetime_epoch)
    | QuotaPeriod.month ↦ (used_since c.id thirty_days now rollups, rolling_month)
    | QuotaPeriod.calendar_month ↦
        let start = calendar_month_start cal q.reset_timezone now in
        (used_since c.id 0 start rollups, month_from start)
  ]

  -- Whether an override at a time still counts.
  unfoldable pub override_applies : Option QuotaPolicyRow → ℕ → Bool
  unfolding calendar_month_start
  override_applies none at = false
  override_applies (some q) at = elim q.period [
    | QuotaPeriod.lifetime ↦ true
    | QuotaPeriod.month ↦ leb now (at + thirty_days)
    | QuotaPeriod.calendar_month ↦ leb (calendar_month_start cal q.reset_timezone now) at
  ]

  unfoldable pub usage : ConnectionRow → Option QuotaPolicyRow → List RollupRow → ℕ × UsageEpoch
  unfolding period_usage override_applies
  usage c q rollups = elim c.quota_override_at [
    | none ↦ period_usage c q rollups
    | some at ↦
        if override_applies q at
        then (c.quota_override_used_bytes, override_at at)
        else period_usage c q rollups
  ]

  unfoldable pub project : Panel → ConnectionRow → PolicyProjection
  unfolding usage quota_of
  project db c =
      let q = quota_of db c in
      let (used_bytes, usage_epoch) = usage c q db.rollups in
      record {
        connection_id = c.id;
        instance_id = c.instance_id;
        public_key = c.public_key;
        expires_at = c.expires_at;
        limit_bytes = limit_of q;
        used_bytes = used_bytes;
        status = c.status;
        usage_epoch = usage_epoch;
      }

  unfoldable pub policy_projection_for_node : ℕ → Panel → List PolicyProjection
  unfolding project is_enforced
  policy_projection_for_node node_id db =
      map (project db) (select_where (is_enforced node_id db) db.connections)
