-- ===== src/Store/Admins/Recovery.antt =====
-- A recovery code serves once.
use awg_control.Base.{ℕ, ◌≡◌, refl, String, false, List, [], ◌∷◌, arith, some}
use awg_control.Base.Tables.{update_where, count_where}
use awg_control.Panel.{Panel, RecoveryCodeRow}
use awg_control.Store.Admins.{is_unused_code, consume_recovery_code}

used_up :
    (admin_id now : ℕ) (hash : String) (rows : List RecoveryCodeRow)
    → count_where (is_unused_code admin_id hash) (
        update_where (is_unused_code admin_id hash) (λ row. record row { used_at = some now }) rows)
      ≡ 0
unfolding count_where update_where
used_up admin_id now hash [] = refl
used_up admin_id now hash (row ∷ rows) = ground (arith, used_up admin_id now hash rows)

-- Whatever a code answers the first time, the same code is refused the second time.
pub consume_recovery_code_once :
    (admin_id now later : ℕ) (hash : String) (db : Panel)
    → (consume_recovery_code admin_id hash later (consume_recovery_code admin_id hash now db).1).0
      ≡ false
unfolding consume_recovery_code
consume_recovery_code_once admin_id now later hash db =
    ground (arith, used_up admin_id now hash db.recovery_codes)
