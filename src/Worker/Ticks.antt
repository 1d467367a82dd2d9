-- ===== src/Worker/Ticks.antt =====
-- A tick ends and leaves the worker free.
use mathlib.Core.Path.{subst}
use awg_control.Base.{
  Option, ltb, ◌-◌, ◌*◌, ◌==◌, ◌&&◌, ◌||◌, ◌⊎◌, inl, inr, Bool-cases, on_some, ℕ, suc, ◌+◌, ◌≡◌,
  refl, String, Bool, true, false, some, List, [], ◌∷◌, arith, All, ◌<◌, ◌/◌,
}
use awg_control.Base.Tables.Laws.{delete_where_clears}
use awg_control.Exec.{modify}
use awg_control.Base.Tables.{delete_where}
use awg_control.Exec.Laws.{Keeps, Keeps-gets}
use awg_control.Exec.Unwinds.{
  NeverThrows, NeverThrows-pure, NeverThrows-bind, NeverThrows-try_catch, NeverThrows-returns,
  never_throws_rules, Ensures, Ensures-then, Ensures-bind, Ensures-modify,
}
use awg_control.Panel.{Panel, Action, Readings, RollupRow, BucketKind}
use awg_control.Store.Traffic.{prune_traffic, is_hourly, kind_eq}
use awg_control.Store.Nodes.{NodeSecretRecord}
use awg_control.Store.Sessions.{is_stale, prune_sessions}
use awg_control.Relay.Store.{RelayServer}
use awg_control.Relay.Service.{RelayClient}
use awg_control.Crypto.{Hashes}
use awg_control.Store.Policies.{Calendar}
use awg_control.Helper.{HelperClient}
use awg_control.Worker.{
  poll_nodes, check_quietly, check_relays, Worker, in_panel, apply_retention, tick_body,
  finish_tick, mark_worker_heartbeat, tick, ready,
}
use awg_control.Worker.Schedule.{poll_node-NeverThrows}

poll_nodes-NeverThrows :
    (helper : HelperClient) (cal : Calendar) (r : ℕ → ℕ → Readings) (k : ℕ)
    (nodes : List NodeSecretRecord)
    → NeverThrows (poll_nodes helper cal r k nodes)
unfolding poll_nodes
poll_nodes-NeverThrows helper cal r k [] = NeverThrows-pure tt
poll_nodes-NeverThrows helper cal r k (node ∷ nodes) =
    NeverThrows-bind _ _ (poll_node-NeverThrows helper cal node (r k))
      (λ u. poll_nodes-NeverThrows helper cal r (suc k) nodes)

module _ (client : RelayClient) (is_ipv4 : String → Bool) (hashes : Hashes) where
  check_relays-NeverThrows :
      (r : ℕ → Readings) (k : ℕ) (relays : List RelayServer)
      → NeverThrows (check_relays client is_ipv4 hashes r k relays)
  unfolding check_relays check_quietly
  check_relays-NeverThrows r k [] = NeverThrows-pure tt
  check_relays-NeverThrows r k (relay ∷ relays) =
      NeverThrows-bind _ _ (NeverThrows-try_catch _ _ (λ e. NeverThrows-pure tt))
        (λ u. check_relays-NeverThrows r (suc k) relays)

NeverThrows-in_panel : {A : Type 0} (m : Action A) → NeverThrows m → NeverThrows (in_panel m)
unfolding in_panel
NeverThrows-in_panel m never = record { at = λ w. never.at w.panel }

-- No session of the panel is past its time.
abbrev pub AllFresh : ℕ → Panel → Type 0
AllFresh now db = All (λ row. is_stale now row ≡ false) db.sessions

prune_sessions-AllFresh : (now : ℕ) (db : Panel) → AllFresh now (prune_sessions now db)
unfolding prune_sessions
prune_sessions-AllFresh now db = delete_where_clears (is_stale now) db.sessions

-- A bucket that is older than retention allows at two instants: an hourly one of more than 90 days,
-- a daily one of more than 730 days.
abbrev pub is_expired : ℕ → ℕ → RollupRow → Bool
is_expired now now' row = elim row.bucket_kind [
  | BucketKind.hourly ↦ ltb (row.bucket_start + 7_776_000_000) now
  | BucketKind.daily ↦ ltb (row.bucket_start + 63_072_000_000) now'
]

abbrev pub AllRetained : ℕ → ℕ → Panel → Type 0
AllRetained now now' db = All (λ row. is_expired now now' row ≡ false) db.rollups

-- Retention was applied earlier on the same day, or no bucket is too old.
abbrev pub IsRetained : Readings → Option ℕ → Panel → Type 0
IsRetained r day db = (day ≡ some (r.clock 0 / 86_400_000)) ⊎ AllRetained (r.clock 1) (r.clock 2) db

All-delete_where :
    (q p : RollupRow → Bool) (rows : List RollupRow)
    → ((row : RollupRow) → q row ≡ false → p row ≡ false)
    → All (λ row. p row ≡ false) (delete_where q rows)
unfolding delete_where
All-delete_where q p [] h = tt
All-delete_where q p (row ∷ rows) h = elim (Bool-cases (q row)) [
  | inl e ↦ rw e (All-delete_where q p rows h)
  | inr e ↦ rw e (h row e, All-delete_where q p rows h)
]

prune_traffic-AllRetained :
    (now now' : ℕ) (db : Panel)
    → AllRetained now now' (prune_traffic (now - 90 * 86_400_000) (now' - 730 * 86_400_000) db)
unfolding prune_traffic
prune_traffic-AllRetained now now' db = All-delete_where _ _ db.rollups (λ row h. kept row h)
  where
    kept :
        (row : RollupRow)
        → (is_hourly row.bucket_kind && ltb row.bucket_start (now - 90 * 86_400_000)
            || kind_eq BucketKind.daily row.bucket_kind
              && ltb row.bucket_start (now' - 730 * 86_400_000))
          ≡ false
        → is_expired now now' row ≡ false
    kept row h = ground (arith, h)

-- What a tick leaves, before it is marked as finished; `day` is the day before it.
abbrev IsKeptUp : Readings → Option ℕ → Worker → Type 0
IsKeptUp r day w = (w.last_retention_day ≡ some (r.clock 0 / 86_400_000)) × IsRetained r day w.panel

apply_retention-IsKeptUp :
    (r : Readings) (w : Worker) → IsKeptUp r w.last_retention_day (apply_retention r w)
unfolding apply_retention
apply_retention-IsKeptUp r w =
    elim (Bool-cases
      (on_some false (λ day. (r.clock 0 / 86_400_000) == day) w.last_retention_day)) [
        | inl h ↦
            let same : w.last_retention_day ≡ some (r.clock 0 / 86_400_000) = ground (arith, h) in
            rw h (same, inl same)
        | inr h ↦ rw h (refl, inr (prune_traffic-AllRetained (r.clock 1) (r.clock 2) w.panel))
      ]

prune_Ensures :
    (r : Readings) (day : Option ℕ)
    → Ensures
        (IsKeptUp r day)
        (λ w. IsKeptUp r day w × AllFresh (r.clock 5) w.panel)
        (in_panel (modify (prune_sessions (r.clock 5))))
unfolding in_panel modify
prune_Ensures r day = record {
  at = λ w h a e. (unfold prune_sessions in h, prune_sessions-AllFresh (r.clock 5) w.panel);
}

Keeps-in_panel :
    {A : Type 0} (day : Option ℕ) (m : Action A)
    → Keeps (λ w. w.last_retention_day ≡ day) (in_panel m)
unfolding in_panel
Keeps-in_panel day m = record { at = λ w h. h }

module _ (helper : HelperClient) (cal : Calendar) (client : RelayClient) (is_ipv4 : String → Bool)
    (hashes : Hashes) (le : String → String → Bool) (r : Readings) (rs : ℕ → ℕ → Readings) where
  body-NeverThrows : NeverThrows (tick_body helper cal client is_ipv4 hashes le r rs)
  unfolding tick_body
  body-NeverThrows =
      search
        (never_throws_rules, NeverThrows-in_panel, poll_nodes-NeverThrows, check_relays-NeverThrows)
        depth 20

  body_Ensures :
      (day : Option ℕ)
      → Ensures
          (λ w. w.last_retention_day ≡ day)
          (λ w. IsKeptUp r day w × AllFresh (r.clock 5) w.panel)
          (tick_body helper cal client is_ipv4 hashes le r rs)
  unfolding tick_body
  body_Ensures day = Ensures-bind _ _ (Keeps-gets _) λ nodes.
      Ensures-bind _ _ (Keeps-in_panel day _) λ u. Ensures-bind _ _ (Keeps-gets _) λ relays.
        Ensures-bind _ _ (Keeps-in_panel day _)
          λ u. Ensures-then _ _ (Ensures-modify _ (λ w h. retained w h)) λ u. prune_Ensures r day
    where
      retained : (w : Worker) → w.last_retention_day ≡ day → IsKeptUp r day (apply_retention r w)
      retained w h =
          subst (λ d. IsKeptUp r d (apply_retention r w)) h (apply_retention-IsKeptUp r w)

-- A tick that is not kept off by another one runs to its end, whatever the helpers and the relays
-- answer: the worker is free again, its heartbeat counts for two minutes, and no session is left that
-- is past its time; retention has been applied for the day: unless an earlier tick of the day has done
-- so, no hourly bucket of more than 90 days and no daily one of more than 730 days is left.
pub tick_completes :
    (helper : HelperClient) (cal : Calendar) (client : RelayClient) (is_ipv4 : String → Bool)
    (hashes : Hashes) (le : String → String → Bool) (r : Readings) (rs : ℕ → ℕ → Readings)
    (polling_enabled : Bool) (later : ℕ) (w : Worker)
    → w.running ≡ false
    → later < r.clock 6 + 120_000
    → let w' : Worker = tick helper cal client is_ipv4 hashes le r rs w in
      (w'.running ≡ false)
      × (ready polling_enabled later w' ≡ true)
      × (w'.last_retention_day ≡ some (r.clock 0 / 86_400_000))
      × IsRetained r w.last_retention_day w'.panel
      × AllFresh (r.clock 5) w'.panel
unfolding tick finish_tick mark_worker_heartbeat ready
tick_completes helper cal client is_ipv4 hashes le r rs polling_enabled later w free soon =
    let (tt, e) =
      NeverThrows-returns (tick_body helper cal client is_ipv4 hashes le r rs)
        (record w { running = true }) (body-NeverThrows helper cal client is_ipv4 hashes le r rs) in
    let ((day, retained), fresh) =
      (body_Ensures helper cal client is_ipv4 hashes le r rs w.last_retention_day).at
        (record w { running = true }) refl tt e in
    rw (free, tick) (refl, ground (arith, soon), day, retained, fresh)
