-- ===== src/Routes/Registration/Quotas.antt =====
-- `POST /quota-policies` of apps/api/src/http/routes.ts.
use awg_control.Base.{ℕ, String, Bool, none, some, or_else}
use awg_control.Contracts.{QuotaPeriod}
use awg_control.Contracts.Entities.{QuotaPolicy}
use awg_control.Crypto.{Hashes, Json, obj, member, end, uuid, str, num, request_fingerprint}
use awg_control.Exec.{
  app_error, conflict, not_found, pure, throw, gets, read, run, guard, modify, try_catch, ◌>>=◌,
  ◌>>◌,
}
use awg_control.Panel.{Action, Readings, IdempotencyStatus}
use awg_control.Store.Audit.{add_audit}
use awg_control.Store.Nodes.{get_node}
use awg_control.Store.Users.{create_quota, get_quota}
use awg_control.Store.Idempotency.{
  Start, new, repeat, conflict as clash, begin_idempotency, finish_idempotency, idempotency_result,
}
use awg_control.Http.{Request, operation_id}
use awg_control.Routes.Registration.{whole, repeated, success}

pub record QuotaBody : Type 0 where
  pub node_id : ℕ
  pub name : String
  pub limit_bytes : ℕ
  pub period : QuotaPeriod
  pub reset_timezone : String

abbrev period_name : QuotaPeriod → String
period_name QuotaPeriod.lifetime = "lifetime"
period_name QuotaPeriod.month = "month"
period_name QuotaPeriod.calendar_month = "calendar-month"

abbrev quota_json : QuotaBody → Json
quota_json body = obj (
    member "nodeId" (uuid body.node_id) (
      member "name" (str body.name) (
        member "limitBytes" (num body.limit_bytes) (
          member "period" (str (period_name body.period))
            (member "resetTimezone" (str body.reset_timezone) end)))))

-- `is_zone` tells the time zones that Intl.DateTimeFormat accepts.
module _ (is_zone : String → Bool) (hashes : Hashes) (r : Readings) (request : Request)
    (body : QuotaBody) where
  unfoldable pub store_quota : String → Action QuotaPolicy
  store_quota op =
      try_catch
        (do
          quota ←
              create_quota
                (record {
                  node_id = body.node_id;
                  name = body.name;
                  limit_bytes = body.limit_bytes;
                  period = body.period;
                  reset_timezone = body.reset_timezone;
                })
                (r.uuid 0) (r.clock 1)
          modify (
              finish_idempotency (whole "quota-policies.create") op IdempotencyStatus.succeeded
                (some quota.id) none (r.clock 2))
          modify (
              add_audit (success request op "quota.create" "quota-policy" quota.id quota.node_id)
                (r.uuid 1) (r.clock 3))
          pure quota)
        λ error. do
          modify (
              finish_idempotency (whole "quota-policies.create") op IdempotencyStatus.failed none
                (some "INTERNAL_ERROR") (r.clock 4))
          throw error

  unfoldable pub proceed_quota : String → Start → Action QuotaPolicy
  proceed_quota op clash = throw (conflict "IDEMPOTENCY_CONFLICT")
  proceed_quota op repeat = do
    prior ← gets (idempotency_result (whole "quota-policies.create") op)
    repeated get_quota (λ code. or_else code "CONFLICT") prior
  proceed_quota op new = store_quota op

  unfoldable pub register_quota : Action QuotaPolicy
  register_quota = do
    op ← operation_id request
    read (get_node body.node_id) not_found
    guard (is_zone body.reset_timezone) (app_error 400 "VALIDATION_FAILED")
    start ← run (
        begin_idempotency (whole "quota-policies.create") op
          (request_fingerprint hashes (quota_json body)) (r.clock 0))
    proceed_quota op start
