-- ===== src/Relay/Service/Exclusion.antt =====
-- Two operations on one relay exclude each other.
use awg_control.Base.{ℕ, ◌≡◌, refl, Bool, false, any, ◌==◌, arith, List, [], ◌∷◌}
use awg_control.Base.Tables.{delete_where}
use awg_control.Exec.{◌>>=◌}
use awg_control.Panel.{Panel, Action}
use awg_control.Relay.Service.{exclusively, start_running, stop_running, finally}

abbrev pub is_running : ℕ → Panel → Bool
is_running id db = any (λ k. k == id) db.running_relays

any-delete_where :
    (id : ℕ) (ks : List ℕ) → any (λ k. k == id) (delete_where (λ k. k == id) ks) ≡ false
unfolding delete_where
any-delete_where id [] = refl
any-delete_where id (k ∷ ks) = ground (arith, any-delete_where id ks)

-- An operation that finds its relay free runs, and leaves it free when it ends, whether it returned
-- or threw.
pub exclusively_releases :
    {A : Type 0} (id : ℕ) (m : Action A) (db : Panel)
    → is_running id db ≡ false
    → (is_running id (exclusively id m db).1 ≡ false)
      × ((exclusively id m db).0 ≡ (m (start_running id db)).0)
unfolding exclusively ◌>>=◌ finally stop_running
exclusively_releases id m db h = (
  ground (arith, h, any-delete_where id (m (start_running id db)).1.running_relays),
  ground (arith, h),
)
