-- ===== src/Routes/Issuance/Once.antt =====
-- A key issues at most one configuration.
use awg_control.Base.{
  ℕ, ◌≡◌, refl, ap, ◌∙◌, String, Bool, true, false, Option, none, some, arith, inl, inr,
}
use awg_control.Contracts.Entities.{VpnUser}
use awg_control.Contracts.Instances.{InstanceRecord}
use awg_control.Crypto.{Hashes}
use awg_control.Exec.{
  Failure, Result, ok, err, continue, guard, read, require, throw, run, gets, ◌>>=◌,
}
use awg_control.Panel.{Panel, Action, Readings, IdempotencyStatus}
use awg_control.Store.Idempotency.{repeat, begin_idempotency, idempotency_result, IdempotencyResult}
use awg_control.Store.Idempotency.Laws.{begin_idempotency_existing}
use awg_control.Helper.{HelperClient}
use awg_control.Http.{Request, operation_id}
use awg_control.Routes.Issuance.{
  ConnectionBody, issue_scope, earlier_outcome, repeated_issue, proceed_issue, issue_connection,
}

-- An action that throws at `s`, and writes nothing.
abbrev Refuses : {A : Type 0} → Panel → Action A → Type 0
Refuses s m = (e : Failure) × (m s ≡ (err e, s))

-- An action that writes nothing, before one that refuses.
Refuses-bind :
    {A B : Type 0} (s : Panel) (m : Action A) (f : A → Action B)
    → (m s).1 ≡ s
    → ((a : A) → (m s).0 ≡ ok a → Refuses s (f a))
    → Refuses s (m >>= f)
unfolding ◌>>=◌
Refuses-bind {A = A} {B = B} s m f quiet k = go (m s) quiet k
  where
    go :
        (x : Result A × Panel)
        → x.1 ≡ s
        → ((a : A) → x.0 ≡ ok a → Refuses s (f a))
        → (e : Failure) × (continue x f ≡ (err e, s))
    go (ok a, s') q k = let (e, h) = k a refl in (e, ap (f a) q ∙ h)
    go (err e, s') q k = (e, ap (λ t. (err e, t)) q)

read_quiet : {A : Type 0} (f : Panel → Option A) (e : Failure) (s : Panel) → (read f e s).1 ≡ s
unfolding read require
read_quiet f e s = ground arith

gets_quiet : {A : Type 0} (f : Panel → A) (s : Panel) → (gets f s).1 ≡ s
unfolding gets
gets_quiet f s = refl

guard_quiet : (b : Bool) (e : Failure) (s : Panel) → (guard b e s).1 ≡ s
unfolding guard
guard_quiet true e s = refl
guard_quiet false e s = refl

operation_id_quiet : (q : Request) (s : Panel) → (operation_id q s).1 ≡ s
unfolding operation_id
operation_id_quiet q s = ground arith

Refuses-earlier_outcome :
    (t : IdempotencyStatus) (code : Option String) (s : Panel) → Refuses s (earlier_outcome t code)
unfolding earlier_outcome throw
Refuses-earlier_outcome IdempotencyStatus.succeeded code s = (_, refl)
Refuses-earlier_outcome IdempotencyStatus.failed code s = (_, refl)
Refuses-earlier_outcome IdempotencyStatus.started code s = (_, refl)

Refuses-repeated_issue :
    (prior : Option IdempotencyResult) (s : Panel) → Refuses s (repeated_issue prior)
unfolding repeated_issue throw
Refuses-repeated_issue none s = (_, refl)
Refuses-repeated_issue (some prior) s = Refuses-earlier_outcome prior.status prior.error_code s

module _ (helper : HelperClient) (hashes : Hashes) (r : Readings) (request : Request) (user_id : ℕ)
    (body : ConnectionBody) where
  Refuses-repeat :
      (op : String) (user : VpnUser) (i : InstanceRecord) (s : Panel)
      → Refuses s (proceed_issue helper hashes r request user_id body op user i repeat)
  unfolding proceed_issue
  Refuses-repeat op user i s =
      Refuses-bind s _ _ (gets_quiet _ s) (λ prior h. Refuses-repeated_issue prior s)

  Refuses-begin :
      (op fingerprint : String) (user : VpnUser) (i : InstanceRecord) (s : Panel)
      (prior : IdempotencyResult)
      → idempotency_result (issue_scope user_id) op s ≡ some prior
      → Refuses s (do
        start ← run (begin_idempotency (issue_scope user_id) op fingerprint (r.clock 0))
        proceed_issue helper hashes r request user_id body op user i start)
  unfolding ◌>>=◌
  Refuses-begin op fingerprint user i s prior e =
      elim (begin_idempotency_existing (issue_scope user_id) op fingerprint (r.clock 0) s prior e) [
        | inl b ↦ rw b (Refuses-repeat op user i s)
        | inr b ↦ rw b (unfold proceed_issue throw in (_, refl))
      ]

  -- A key that the journal holds issues nothing: whatever became of the first request, and whether
  -- the second one is the same or not, the handler throws, writes nothing and does not ask the
  -- helper.
  pub issue_connection_once :
      (op : String) (db : Panel) (prior : IdempotencyResult)
      → (operation_id request db).0 ≡ ok op
      → idempotency_result (issue_scope user_id) op db ≡ some prior
      → (e : Failure) × (issue_connection helper hashes r request user_id body db ≡ (err e, db))
  unfolding issue_connection
  issue_connection_once op db prior named held = Refuses-bind db _ _ (read_quiet _ _ db) (λ user h.
      Refuses-bind db _ _ (read_quiet _ _ db) (λ i h.
        Refuses-bind db _ _ (guard_quiet _ _ db) (λ u h.
          Refuses-bind db _ _ (guard_quiet _ _ db) (λ u h.
            Refuses-bind db _ _ (gets_quiet _ db) (λ fits h.
              Refuses-bind db _ _ (guard_quiet _ _ db) (λ u h.
                Refuses-bind db _ _ (operation_id_quiet request db)
                  (λ a h. Refuses-begin a _ user i db prior (held_by a named held h))))))))
    where
      held_by :
          (a : String)
          → (operation_id request db).0 ≡ ok op
          → idempotency_result (issue_scope user_id) op db ≡ some prior
          → (operation_id request db).0 ≡ ok a
          → idempotency_result (issue_scope user_id) a db ≡ some prior
      held_by a n k h = cc
