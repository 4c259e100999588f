-- ===== src/OperationState/FutuRefresh/Lifecycle.antt =====
-- What every sequence of operations does to the requests of the refresh inbox.
use portfolio_management.Common.{
  ℕ, ◌≤◌, ◌≡◌, refl, sym, ap₂, subst, ◌∙◌, inl, inr, String, true, ◌&&◌, Option, none, some, List,
  [], ◌∷◌, arith, All, Bool-cases, Result-cases, Result, ok, err, >>=-eq-ok, str_eq, is_some,
  opt_is, Error, value_error,
}
use portfolio_management.Common.Table.{update, fetch_one}
use portfolio_management.Common.Table.Evolution.{
  Evolves, Evolves-refl, Evolves-update, Evolves-append, Evolves-trans, All-Evolves, found-Evolves,
}
use portfolio_management.OperationState.FutuRefresh.{
  Refresh, RefreshState, Store, SyncResult, ReceiptPayload, pending, running, completed, is_running,
  has_request, new_refresh, accept_futu_refresh, requeue, recover_futu_refreshes, begin_attempt,
  is_waiting, claim_row, claim_futu_refresh, settled, is_being_run, insert_refresh_receipt,
  settle_running, settle_in, settle_row, settle_futu_refresh, get_futu_refresh,
}

-- A request that is being run has begun an attempt.
abbrev pub HasBegun : Refresh → Type 0
HasBegun r = is_running r.state ≡ true → 1 ≤ r.attempt_count

-- What an operation does to a request: its key and creation time stay, no attempt is forgotten,
-- and a completed request is not touched.
pub record Follows (r r' : Refresh) : Type 0 where
  pub same_account : r'.account ≡ r.account
  pub same_id : r'.request_id ≡ r.request_id
  pub same_created : r'.created_at ≡ r.created_at
  pub attempts : r.attempt_count ≤ r'.attempt_count
  pub valid : HasBegun r → HasBegun r'
  pub final : r.state ≡ completed → r' ≡ r

stay : (r : Refresh) → Follows r r
stay r = record {
  same_account = refl;
  same_id = refl;
  same_created = refl;
  attempts = omega arith;
  valid = λ v. v;
  final = λ _. refl;
}

join : (x y z : Refresh) → Follows x y → Follows y z → Follows x z
join x y z d e = record {
  same_account = e.same_account ∙ d.same_account;
  same_id = e.same_id ∙ d.same_id;
  same_created = e.same_created ∙ d.same_created;
  attempts = omega (arith, d.attempts, e.attempts);
  valid = λ v. e.valid (d.valid v);
  final =
      λ q. e.final (subst (λ (w : Refresh). w.state ≡ completed) (sym (d.final q)) q) ∙ d.final q;
}

abbrev different : Error
different = value_error "completed Futu refresh has a different result"

abbrev pub Moves : List Refresh → List Refresh → Type 0
Moves = Evolves Follows HasBegun

Moves-refl : (t : List Refresh) → Moves t t
Moves-refl t = Evolves-refl Follows HasBegun stay t

Moves-trans : {t u v : List Refresh} → Moves t u → Moves u v → Moves t v
Moves-trans d e = Evolves-trans Follows HasBegun join (λ x y s n. s.valid n) d e

accept-Moves :
    (account id : String) (now : ℕ) (s : Store)
    → Moves s.refreshes (accept_futu_refresh account id now s).refreshes
unfolding accept_futu_refresh new_refresh
accept-Moves account id now s =
    elim (Bool-cases (is_some (fetch_one (has_request account id) s.refreshes))) [
      | inl q ↦ rw q (Moves-refl s.refreshes)
      | inr q ↦ rw q (
          Evolves-append Follows HasBegun stay s.refreshes (new_refresh account id now ∷ [])
            ((λ v. ground arith), tt))
    ]

recover-Moves : (now : ℕ) (s : Store) → Moves s.refreshes (recover_futu_refreshes now s).refreshes
unfolding recover_futu_refreshes requeue
recover-Moves now s =
    Evolves-update Follows HasBegun stay _ (requeue now)
      (λ r h. record {
        same_account = refl;
        same_id = refl;
        same_created = refl;
        attempts = omega arith;
        valid = λ v w. ground arith;
        final = λ q. ground arith;
      })
      s.refreshes

claim_row-Moves :
    (now : ℕ) (s : Store) (o : Option Refresh) → Moves s.refreshes (claim_row now s o).1.refreshes
unfolding claim_row is_waiting begin_attempt
claim_row-Moves now s none = Moves-refl s.refreshes
claim_row-Moves now s (some x) =
    Evolves-update Follows HasBegun stay _ (begin_attempt now)
      (λ r h. record {
        same_account = refl;
        same_id = refl;
        same_created = refl;
        attempts = omega arith;
        valid = λ v w. omega arith;
        final = λ q. ground arith;
      })
      s.refreshes

settled-Moves :
    (account id : String) (result : SyncResult) (n now : ℕ) (t : List Refresh)
    → Moves t (update (is_being_run account id) (settled result n now) t)
unfolding is_being_run settled
settled-Moves account id result n now t =
    Evolves-update Follows HasBegun stay _ (settled result n now)
      (λ r h. record {
        same_account = refl;
        same_id = refl;
        same_created = refl;
        attempts = omega arith;
        valid = λ v w. ground arith;
        final = λ q. ground arith;
      })
      t

-- the settlement reaches the request that a read finds
pub found_settled :
    (account id : String) (result : SyncResult) (n now : ℕ) (t : List Refresh) (r : Refresh)
    → fetch_one (has_request account id) t ≡ some r
    → r.state ≡ running
    → fetch_one (has_request account id) (update (is_being_run account id) (settled result n now) t)
      ≡ some (settled result n now r)
unfolding is_being_run settled
found_settled account id result n now [] r g run = cc
found_settled account id result n now (x ∷ xs) r g run =
    elim (Bool-cases (has_request account id x)) [
      | inl q ↦
          let e : some x ≡ some r = rw q at g in
          let same : x ≡ r = cc in
          let f : is_running x.state ≡ true = rw (same, run) in rw (q, f, q, same) refl
      | inr q ↦ rw (q, q) (found_settled account id result n now xs r (rw q at g) run)
    ]

pub settle_running_inv :
    (account id : String) (result : SyncResult) (payload : Option ReceiptPayload) (now : ℕ)
    (s s' : Store) (r : Refresh)
    → settle_running account id result payload now s r ≡ ok s'
    → (insert_refresh_receipt account id result.success payload now s.outbox ≡ ok s'.outbox)
      × (s'.refreshes
          ≡ update (is_being_run account id) (settled result r.attempt_count now) s.refreshes)
unfolding settle_running
settle_running_inv account id result payload now s s' r h =
    let (t, i, last) =
      >>=-eq-ok (insert_refresh_receipt account id result.success payload now s.outbox) _ h in
    let w : Store = record {
      refreshes = update (is_being_run account id) (settled result r.attempt_count now) s.refreshes;
      outbox = t;
    } in
    let same : w ≡ s' = cc in rw (← same) (i, refl)

settle_in-Moves :
    (st : RefreshState) (account id : String) (result : SyncResult)
    (payload : Option ReceiptPayload) (now : ℕ) (s s' : Store) (r : Refresh)
    → settle_in st account id result payload now s r ≡ ok s'
    → Moves s.refreshes s'.refreshes
unfolding settle_in
settle_in-Moves completed account id result payload now s s' r h =
    elim (Bool-cases (opt_is r.result_json result.json)) [
      | inl q ↦
          let g : ◌≡◌ {A = Result Store} (ok s) (ok s') = rw q at h in
          let same : s ≡ s' = cc in
          subst (λ (u : Store). Moves s.refreshes u.refreshes) same (Moves-refl s.refreshes)
      | inr q ↦ let g : ◌≡◌ {A = Result Store} (err different) (ok s') = rw q at h in cc
    ]
settle_in-Moves running account id result payload now s s' r h =
    let (i, e) = settle_running_inv account id result payload now s s' r h in
    rw e (settled-Moves account id result r.attempt_count now s.refreshes)
settle_in-Moves pending account id result payload now s s' r h = cc

settle-Moves :
    (account id : String) (result : SyncResult) (payload : Option ReceiptPayload) (now : ℕ)
    (s s' : Store) (o : Option Refresh)
    → settle_row account id result payload now s o ≡ ok s'
    → Moves s.refreshes s'.refreshes
unfolding settle_row
settle-Moves account id result payload now s s' none h = cc
settle-Moves account id result payload now s s' (some r) h =
    settle_in-Moves r.state account id result payload now s s' r h

-- The operations on the store.
pub data Op : Type 0 where
  accept : String → String → Op
  recover : Op
  claim : Op
  settle : String → String → SyncResult → Option ReceiptPayload → Op

-- a settlement that raises leaves the store alone
abbrev after : Store → Result Store → Store
after s (ok s') = s'
after s (err _) = s

unfoldable pub apply : ℕ → Op → Store → Store
apply now (accept account id) s = accept_futu_refresh account id now s
apply now recover s = recover_futu_refreshes now s
apply now claim s = (claim_futu_refresh now s).1
apply now (settle account id result payload) s =
    after s (settle_futu_refresh account id result payload now s)

unfoldable pub run : List (ℕ × Op) → Store → Store
unfolding apply
run [] s = s
run ((now, op) ∷ ops) s = run ops (apply now op s)

apply-Moves : (now : ℕ) (op : Op) (s : Store) → Moves s.refreshes (apply now op s).refreshes
unfolding apply claim_futu_refresh settle_futu_refresh
apply-Moves now (accept account id) s = accept-Moves account id now s
apply-Moves now recover s = recover-Moves now s
apply-Moves now claim s = claim_row-Moves now s _
apply-Moves now (settle account id result payload) s =
    let row = fetch_one (has_request account id) s.refreshes in
    elim (Result-cases (settle_row account id result payload now s row)) [
      | inl (s', e) ↦ rw e (settle-Moves account id result payload now s s' row e)
      | inr (x, e) ↦ rw e (Moves-refl s.refreshes)
    ]

pub run-Moves : (ops : List (ℕ × Op)) (s : Store) → Moves s.refreshes (run ops s).refreshes
unfolding run
run-Moves [] s = Moves-refl s.refreshes
run-Moves ((now, op) ∷ ops) s = Moves-trans (apply-Moves now op s) (run-Moves ops (apply now op s))

-- No operation leaves a request being run that has no attempt counted.
pub run-HasBegun :
    (ops : List (ℕ × Op)) (s : Store)
    → All HasBegun s.refreshes
    → All HasBegun (run ops s).refreshes
run-HasBegun ops s v =
    All-Evolves Follows HasBegun HasBegun (λ x y d. d.valid) (run-Moves ops s) (λ y n. n) v

-- Once a request was accepted it is never lost, and its count of attempts never falls; once it was
-- completed, it is never written again, whatever the operations.
pub run-kept :
    (account id : String) (ops : List (ℕ × Op)) (s : Store) (r : Refresh)
    → get_futu_refresh account id s ≡ some r
    → (r' : Refresh) × (get_futu_refresh account id (run ops s) ≡ some r')
      × (r.attempt_count ≤ r'.attempt_count)
      × (r'.created_at ≡ r.created_at)
      × (r.state ≡ completed → r' ≡ r)
unfolding get_futu_refresh
run-kept account id ops s r e =
    let (r', e', d) =
      found-Evolves Follows HasBegun (has_request account id)
        (λ x y d. ap₂ (λ a b. str_eq a account && str_eq b id) d.same_account d.same_id)
        (run-Moves ops s) r e in
    (r', e', d.attempts, d.same_created, d.final)
