-- ===== src/OperationState/FutuRefresh/Settlement.antt =====
-- The settlement of a request: what success and failure leave, and that it can be repeated.
use portfolio_management.Common.{
  ℕ, ◌+◌, ◌*◌, ◌≤◌, ◌≡◌, ◌≢◌, refl, ap, subst, String, true, false, not, Option, none, some, arith,
  ok, err, >>=-eq-ok, raise_if-eq-ok, str_eq, str_eq_refl, eq_iff, or_else, value_error, ◌==◌,
}
use portfolio_management.Common.Table.{update, fetch_one}
use portfolio_management.OperationState.Retry.{minute, retry_delay, retry_delay_bounds}
use portfolio_management.OperationState.Receipts.{Outbox, insert_operation_receipt_tx}
use portfolio_management.OperationState.ReceiptOutbox.Retries.{Stored, insert-Stored}
use portfolio_management.OperationState.FutuRefresh.{
  Refresh, Store, SyncResult, ReceiptPayload, pending, running, completed, has_request, settled,
  settle_delay, is_being_run, insert_refresh_receipt, refresh_receipt_key, settle_running,
  settle_in, settle_row, settle_futu_refresh, get_futu_refresh,
}
use portfolio_management.OperationState.FutuRefresh.Lifecycle.{
  HasBegun, settle_running_inv, found_settled,
}

-- A receipt that comes with a successful settlement is the account's and stands in the outbox; without
-- one the outbox stays as it was.
abbrev pub Announced : String → String → Option ReceiptPayload → Outbox → Outbox → Type 0
Announced account id none t t' = t' ≡ t
Announced account id (some p) t t' =
    (p.account ≡ account)
    × Stored (refresh_receipt_key account id) "futu_refresh_quantity_changed" p.json t'

insert-Announced :
    (account id : String) (payload : Option ReceiptPayload) (now : ℕ) (t t' : Outbox)
    → insert_refresh_receipt account id true payload now t ≡ ok t'
    → Announced account id payload t t'
unfolding insert_refresh_receipt
insert-Announced account id none now t t' h = cc
insert-Announced account id (some p) now t t' h =
    let key = refresh_receipt_key account id in
    let (same, inner) = raise_if-eq-ok (not (str_eq p.account account)) _ _ h in
    let (bt, i, last) =
      >>=-eq-ok (insert_operation_receipt_tx key "futu_refresh_quantity_changed" p.json now t) _
        inner in
    let e : bt.1 ≡ t' = cc in
    (
      ground (arith, eq_iff p.account account),
      subst (Stored key _ p.json) e (insert-Stored key _ p.json now t bt.1 bt.0 i),
    )

-- A settlement of a request that is being run, once it succeeded with success: the request is
-- completed with that result; if the call came with a receipt, that is the account's and stands in the
-- outbox, and if not the outbox is as it was; and settling the request again with the same result, at
-- any later time and with any receipt, changes nothing, while another result is refused.
pub settle-completes :
    (account id : String) (result : SyncResult) (payload : Option ReceiptPayload) (now : ℕ)
    (s s' : Store) (r : Refresh)
    → get_futu_refresh account id s ≡ some r
    → r.state ≡ running
    → result.success ≡ true
    → settle_futu_refresh account id result payload now s ≡ ok s'
    → Announced account id payload s.outbox s'.outbox
      × ((r' : Refresh) × (get_futu_refresh account id s' ≡ some r')
          × (r'.state ≡ completed)
          × (r'.result_json ≡ some result.json)
          × (r'.last_error ≡ none))
      × ((later : ℕ) (p : Option ReceiptPayload)
          → settle_futu_refresh account id result p later s' ≡ ok s')
      × ((other : SyncResult) (later : ℕ) (p : Option ReceiptPayload)
          → other.json ≢ result.json
          → settle_futu_refresh account id other p later s'
            ≡ err (value_error "completed Futu refresh has a different result"))
unfolding settle_futu_refresh get_futu_refresh settle_row settle_in settled
settle-completes account id result payload now s s' r g run win h =
    let inner : settle_running account id result payload now s r ≡ ok s' = rw (g, run) at h in
    let (i, e) = settle_running_inv account id result payload now s s' r inner in
    let r' = settled result r.attempt_count now r in
    let g' : fetch_one (has_request account id) s'.refreshes ≡ some r' =
      rw e (found_settled account id result r.attempt_count now s.refreshes r g run) in
    let done : r'.state ≡ completed = rw win in
    (
      insert-Announced account id payload now s.outbox s'.outbox (rw win at i),
      (r', g', done, refl, rw win),
      (λ later p. rw (g', done, str_eq_refl result.json) refl),
      (λ other later p ne.
          let d : str_eq result.json other.json ≡ false =
            ground (arith, eq_iff result.json other.json) in
          rw (g', done, d) refl),
    )

no_receipt :
    (account id : String) (payload : Option ReceiptPayload) (now : ℕ) (t : Outbox)
    → insert_refresh_receipt account id false payload now t ≡ ok t
unfolding insert_refresh_receipt
no_receipt account id none now t = refl
no_receipt account id (some p) now t = refl

first_rung : (n : ℕ) → 1 ≤ n → settle_delay n ≡ retry_delay n
unfolding settle_delay
first_rung n h = let nonzero : (n == 0) ≡ false = ground arith in rw nonzero refl

-- A settlement without success puts the request back with its attempts kept and the error stored,
-- to be claimed no sooner than after a minute and no later than after an hour; it sends no receipt.
pub settle-waits :
    (account id : String) (result : SyncResult) (payload : Option ReceiptPayload) (now : ℕ)
    (s : Store) (r : Refresh)
    → get_futu_refresh account id s ≡ some r
    → r.state ≡ running
    → HasBegun r
    → result.success ≡ false
    → (s' : Store) × (settle_futu_refresh account id result payload now s ≡ ok s')
      × (s'.outbox ≡ s.outbox)
      × ((r' : Refresh) × (get_futu_refresh account id s' ≡ some r')
          × (r'.state ≡ pending)
          × (r'.attempt_count ≡ r.attempt_count)
          × (r'.last_error ≡ some (or_else result.error "sync unsuccessful"))
          × (r'.next_attempt_at ≡ now + retry_delay r.attempt_count)
          × (now + minute ≤ r'.next_attempt_at)
          × (r'.next_attempt_at ≤ now + 60 * minute))
unfolding settle_futu_refresh get_futu_refresh settle_row settle_in settle_running settled
settle-waits account id result payload now s r g run v fails =
    let r' = settled result r.attempt_count now r in
    let s' : Store = record {
      refreshes = update (is_being_run account id) (settled result r.attempt_count now) s.refreshes;
      outbox = s.outbox;
    } in
    let sent : insert_refresh_receipt account id false payload now s.outbox ≡ ok s.outbox =
      no_receipt account id payload now s.outbox in
    let delay : settle_delay r.attempt_count ≡ retry_delay r.attempt_count =
      first_rung r.attempt_count (v (rw run)) in
    let due : r'.next_attempt_at ≡ now + retry_delay r.attempt_count = ap (λ d. now + d) delay in
    let bounds = retry_delay_bounds r.attempt_count in
    (
      s',
      rw (g, run, fails, sent) refl,
      refl,
      (
        r',
        found_settled account id result r.attempt_count now s.refreshes r g run,
        rw fails refl,
        refl,
        rw fails refl,
        due,
        omega (arith, due, bounds),
        omega (arith, due, bounds),
      ),
    )
