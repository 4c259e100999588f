-- ===== src/OperationState/ReceiptOutbox/Delivery.antt =====
-- What the outbox promises about delivery, over every sequence of operations.
use portfolio_management.Common.{
  ℕ, ◌≡◌, refl, sym, subst, ◌∙◌, String, Bool, true, false, ◌&&◌, Option, some, List, arith, All,
  str_eq, eq_iff, All-tt, ap,
}
use portfolio_management.Common.Table.Keys.{fetch_one_holds}
use portfolio_management.Common.Table.Evolution.{Evolves, fetch_one-Evolves}
use portfolio_management.OperationState.Receipts.{
  Outbox, Receipt, Status, sending, sent, unknown, has_key,
}
use portfolio_management.OperationState.ReceiptOutbox.{
  claim_expired, release_claim, send_expired, release_send, is_due, take_claim, holds_claim,
  start_send, outcome_status, holds_send, finish_send, decision_status, holds_unknown,
  settle_unknown, get_operation_receipt,
}
use portfolio_management.OperationState.ReceiptOutbox.Operations.{
  Op, mark, resolve, run, Rules, run-Evolves,
}

-- Sent, being sent, or sent as far as anyone knows.
abbrev pub in_flight : Status → Bool
in_flight sending = true
in_flight sent = true
in_flight unknown = true
in_flight _ = false

-- The operations that make receipt `k` eligible for another attempt.
abbrev pub releases : String → Op → Bool
releases k (mark key c outcome message error) = str_eq key k && str_eq outcome "failed"
releases k (resolve key decision note) = str_eq key k && str_eq decision "retry"
releases k _ = false

record Keeps (k : String) (r r' : Receipt) : Type 0 where
  same_key : r'.receipt_key ≡ r.receipt_key
  kept : str_eq r.receipt_key k ≡ true → in_flight r.status ≡ true → in_flight r'.status ≡ true

keep_finish :
    (k key c outcome : String) (status : Status) (n : ℕ) (message error : Option String) (now : ℕ)
    (r : Receipt)
    → outcome_status outcome ≡ some status
    → releases k (mark key c outcome message error) ≡ false
    → holds_send key c r ≡ true
    → Keeps k r (finish_send status n message error now r)
unfolding holds_send finish_send
keep_finish k key c outcome status n message error now r e a h =
    ground (arith, eq_iff r.receipt_key k, eq_iff r.receipt_key key, eq_iff key k)

keep_settle :
    (k key decision note : String) (status : Status) (now : ℕ) (r : Receipt)
    → decision_status decision ≡ some status
    → releases k (resolve key decision note) ≡ false
    → holds_unknown key r ≡ true
    → Keeps k r (settle_unknown status note now r)
unfolding holds_unknown settle_unknown
keep_settle k key decision note status now r e a h =
    ground (arith, eq_iff r.receipt_key k, eq_iff r.receipt_key key, eq_iff key k)

keeps : (k : String) → Rules (λ op. releases k op ≡ false) (Keeps k) (λ r. Unit)
unfolding claim_expired release_claim send_expired release_send is_due take_claim holds_claim
    start_send
keeps k = record {
  stay = λ r. record { same_key = refl; kept = λ _ h. h };
  join = λ x y z d e. record {
    same_key = e.same_key ∙ d.same_key;
    kept = λ q h. e.kept (subst (λ s. str_eq s k ≡ true) (sym d.same_key) q) (d.kept q h);
  };
  born = λ key type payload now. tt;
  grow = λ x y d n. tt;
  on_claim_expired = λ now r h. ground arith;
  on_send_expired = λ now r h. ground arith;
  on_take = λ c now r h. ground arith;
  on_start = λ key c now r h. ground arith;
  on_finish = keep_finish k;
  on_settle = keep_settle k;
}

-- At most one attempt without a release: a receipt that is being sent, was sent or may have been
-- sent stays so through every sequence of operations in which no dispatcher reports its failure
-- and no operator orders its retry; expired leases do not put it back into the queue.
pub run-in_flight :
    (k : String) (ops : List (ℕ × Op)) (t : Outbox) (r : Receipt)
    → get_operation_receipt k t ≡ some r
    → in_flight r.status ≡ true
    → All (λ o. releases k o.1 ≡ false) ops
    → (r' : Receipt) × (get_operation_receipt k (run ops t) ≡ some r')
      × (in_flight r'.status ≡ true)
unfolding get_operation_receipt
run-in_flight k ops t r e f h =
    let evolved : Evolves (Keeps k) (λ r. Unit) t (run ops t) = run-Evolves (keeps k) ops t h in
    let (r', e', s) =
      fetch_one-Evolves (Keeps k) (λ r. Unit) (λ x. x.receipt_key) (λ x y d. d.same_key) k evolved r
        e in
    (r', e', s.kept (fetch_one_holds (has_key k) t e) f)

record Frozen (r r' : Receipt) : Type 0 where
  same_key : r'.receipt_key ≡ r.receipt_key
  frozen : r.status ≡ sent → r' ≡ r

freezes : Rules (λ op. Unit) Frozen (λ r. Unit)
unfolding claim_expired release_claim send_expired release_send is_due take_claim holds_claim
    start_send holds_send finish_send holds_unknown settle_unknown
freezes = record {
  stay = λ r. record { same_key = refl; frozen = λ _. refl };
  join = λ x y z d e. record {
    same_key = e.same_key ∙ d.same_key;
    frozen =
        λ q. e.frozen (subst (λ (s : Receipt). s.status ≡ sent) (sym (d.frozen q)) q) ∙ d.frozen q;
  };
  born = λ key type payload now. tt;
  grow = λ x y d n. tt;
  on_claim_expired = λ now r h. record { same_key = refl; frozen = λ q. ground arith };
  on_send_expired = λ now r h. record { same_key = refl; frozen = λ q. ground arith };
  on_take = λ c now r h. record { same_key = refl; frozen = λ q. ground arith };
  on_start = λ key c now r h. record { same_key = refl; frozen = λ q. ground arith };
  on_finish = λ key c outcome status n message error now r e a h. record {
    same_key = refl;
    frozen = λ q. ground arith;
  };
  on_settle = λ key decision note status now r e a h. record {
    same_key = refl;
    frozen = λ q. ground arith;
  };
}

-- A receipt that was sent is never written again, whatever the operations.
pub run-sent :
    (k : String) (ops : List (ℕ × Op)) (t : Outbox) (r : Receipt)
    → get_operation_receipt k t ≡ some r
    → r.status ≡ sent
    → get_operation_receipt k (run ops t) ≡ some r
unfolding get_operation_receipt
run-sent k ops t r e s =
    let evolved : Evolves Frozen (λ r. Unit) t (run ops t) =
      run-Evolves freezes ops t (All-tt ops) in
    let (r', e', d) =
      fetch_one-Evolves Frozen (λ r. Unit) (λ x. x.receipt_key) (λ x y d. d.same_key) k evolved r
        e in
    e' ∙ ap some (d.frozen s)
