-- ===== src/Store/Audit.antt =====
-- The journal of audit events in apps/api/src/repository.ts.
use awg_control.Base.{ℕ, String, Option, List, [], ◌∷◌, ◌++◌, Text, take, min, leb}
use awg_control.Base.Tables.{order_by}
use awg_control.Panel.{Panel, AuditRow, AuditResult, Detail}

pub record AuditInput : Type 0 where
  pub admin_id : Option ℕ
  pub action : String
  pub target_type : String
  pub target_id : Option ℕ
  pub node_id : Option ℕ
  pub operation_id : Option String
  pub result : AuditResult
  pub error_code : Option String
  pub remote_address : Option Text
  pub details : List (String × Detail)

unfoldable pub add_audit : AuditInput → ℕ → ℕ → Panel → Panel
add_audit input id now db = record db { audit_events = db.audit_events ++ row ∷ [] }
  where
    row : AuditRow
    row = record {
      id = id;
      occurred_at = now;
      admin_id = input.admin_id;
      action = input.action;
      target_type = input.target_type;
      target_id = input.target_id;
      node_id = input.node_id;
      operation_id = input.operation_id;
      result = input.result;
      error_code = input.error_code;
      remote_address = input.remote_address;
      details = input.details;
    }

unfoldable pub list_audit : ℕ → Panel → List AuditRow
list_audit limit db =
    take (min limit 500) (order_by (λ a b. leb b.occurred_at a.occurred_at) db.audit_events)
