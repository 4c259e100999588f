-- ===== src/OperationState/ReceiptOutbox/Lifecycle.antt =====
-- The lifecycle diagram of a receipt, and the outbox as an implementation of it.
use portfolio_management.Common.Steps.{Reaches, here, move, Reaches-trans}
use portfolio_management.Common.{
  ℕ, ◌≡◌, refl, ◌∙◌, ◌⊎◌, String, true, Option, some, List, arith, All, is_some, All-tt,
}
use portfolio_management.Common.Table.Evolution.{Evolves, All-Evolves}
use portfolio_management.OperationState.Receipts.{
  Outbox, Receipt, Status, pending, claimed, sending, sent, failed, unknown, new_receipt,
  is_claimed, is_sending,
}
use portfolio_management.OperationState.ReceiptOutbox.{
  claim_expired, release_claim, send_expired, release_send, is_due, take_claim, holds_claim,
  start_send, outcome_status, holds_send, finish_send, decision_status, holds_unknown,
  settle_unknown,
}
use portfolio_management.OperationState.ReceiptOutbox.Operations.{Op, run, Rules, run-Evolves}

infix 40 ◌⟶◌ ◌⟶*◌
pub data ◌⟶◌ : Status → Status → Type 0 where
  take_pending : pending ⟶ claimed
  take_failed : failed ⟶ claimed
  expire_claim : claimed ⟶ failed
  begin_send : claimed ⟶ sending
  expire_send : sending ⟶ unknown
  deliver : sending ⟶ sent
  reject : sending ⟶ failed
  lose : sending ⟶ unknown
  retry : unknown ⟶ failed
  confirm : unknown ⟶ sent

abbrev pub ◌⟶*◌ : Status → Status → Type 0
s ⟶* t = Reaches ◌⟶◌ s t

-- A receipt has a claim id exactly while it is claimed or being sent, and the times that its lease
-- is measured from.
pub record IsValid (r : Receipt) : Type 0 where
  pub claimed_owned :
      r.status ≡ claimed → (is_some r.claim_id ≡ true) × (is_some r.claimed_at ≡ true)
  pub sending_owned :
      r.status ≡ sending → (is_some r.claim_id ≡ true) × (is_some r.send_started_at ≡ true)
  pub released :
      is_some r.claim_id ≡ true → (is_claimed r.status ≡ true) ⊎ (is_sending r.status ≡ true)

-- What an operation does to a row: it goes along the diagram, its identity and payload are
-- frozen, and it stays valid.
pub record Follows (r r' : Receipt) : Type 0 where
  pub same_key : r'.receipt_key ≡ r.receipt_key
  pub same_type : r'.receipt_type ≡ r.receipt_type
  pub same_payload : r'.payload_json ≡ r.payload_json
  pub same_created : r'.created_at ≡ r.created_at
  pub path : r.status ⟶* r'.status
  pub valid : IsValid r → IsValid r'

-- A row that was inserted since: it began as pending.
pub record IsNew (r : Receipt) : Type 0 where
  pub from_pending : pending ⟶* r.status
  pub new_valid : IsValid r

follow :
    (r r' : Receipt)
    → r'.receipt_key ≡ r.receipt_key
    → r'.receipt_type ≡ r.receipt_type
    → r'.payload_json ≡ r.payload_json
    → r'.created_at ≡ r.created_at
    → r.status ⟶ r'.status
    → (IsValid r → IsValid r')
    → Follows r r'
follow r r' k t p c e v = record {
  same_key = k;
  same_type = t;
  same_payload = p;
  same_created = c;
  path = move e here;
  valid = v;
}

follow_claim_expired :
    (now : ℕ) (r : Receipt) → claim_expired now r ≡ true → Follows r (release_claim now r)
unfolding claim_expired release_claim
follow_claim_expired now r h =
    follow r _ refl refl refl refl (grind (arith, expire_claim)) (λ v. ground arith)

follow_send_expired :
    (now : ℕ) (r : Receipt) → send_expired now r ≡ true → Follows r (release_send now r)
unfolding send_expired release_send
follow_send_expired now r h =
    follow r _ refl refl refl refl (grind (arith, expire_send)) (λ v. ground arith)

follow_take :
    (c : String) (now : ℕ) (r : Receipt) → is_due now r ≡ true → Follows r (take_claim c now r)
unfolding is_due take_claim
follow_take c now r h =
    follow r _ refl refl refl refl (grind (arith, take_pending, take_failed)) (λ v. ground arith)

follow_start :
    (key c : String) (now : ℕ) (r : Receipt)
    → holds_claim key c r ≡ true
    → Follows r (start_send now r)
unfolding holds_claim start_send
follow_start key c now r h =
    follow r _ refl refl refl refl (grind (arith, begin_send)) (λ v. ground arith)

-- what `mark_operation_receipt` may write is an edge out of `sending`
outcome_edge :
    (outcome : String) (status : Status) → outcome_status outcome ≡ some status → sending ⟶ status
outcome_edge outcome status e = grind (arith, deliver, reject, lose)

decision_edge :
    (decision : String) (status : Status)
    → decision_status decision ≡ some status
    → unknown ⟶ status
decision_edge decision status e = grind (arith, retry, confirm)

follow_finish :
    (key c outcome : String) (status : Status) (n : ℕ) (message error : Option String) (now : ℕ)
    (r : Receipt)
    → outcome_status outcome ≡ some status
    → holds_send key c r ≡ true
    → Follows r (finish_send status n message error now r)
unfolding holds_send finish_send
follow_finish key c outcome status n message error now r e h =
    follow r _ refl refl refl refl (grind (arith, outcome_edge outcome status e))
      (λ v. ground arith)

follow_settle :
    (key decision note : String) (status : Status) (now : ℕ) (r : Receipt)
    → decision_status decision ≡ some status
    → holds_unknown key r ≡ true
    → Follows r (settle_unknown status note now r)
unfolding holds_unknown settle_unknown
follow_settle key decision note status now r e h =
    follow r _ refl refl refl refl (grind (arith, decision_edge decision status e))
      (λ v. ground arith)

lifecycle : Rules (λ op. Unit) Follows IsNew
unfolding new_receipt
lifecycle = record {
  stay = λ r. record {
    same_key = refl;
    same_type = refl;
    same_payload = refl;
    same_created = refl;
    path = here;
    valid = λ v. v;
  };
  join = λ x y z d e. record {
    same_key = e.same_key ∙ d.same_key;
    same_type = e.same_type ∙ d.same_type;
    same_payload = e.same_payload ∙ d.same_payload;
    same_created = e.same_created ∙ d.same_created;
    path = Reaches-trans ◌⟶◌ d.path e.path;
    valid = λ v. e.valid (d.valid v);
  };
  born = λ key type payload now. record { from_pending = here; new_valid = ground arith };
  grow = λ x y d n. record {
    from_pending = Reaches-trans ◌⟶◌ n.from_pending d.path;
    new_valid = d.valid n.new_valid;
  };
  on_claim_expired = follow_claim_expired;
  on_send_expired = follow_send_expired;
  on_take = follow_take;
  on_start = follow_start;
  on_finish = λ key c outcome status n message error now r e a h.
      follow_finish key c outcome status n message error now r e h;
  on_settle =
      λ key decision note status now r e a h. follow_settle key decision note status now r e h;
}

-- Whatever the operations, every row of the table moves along the lifecycle diagram with its key,
-- type, payload and creation time frozen, and every row that was added began as pending.
pub run-Follows : (ops : List (ℕ × Op)) (t : Outbox) → Evolves Follows IsNew t (run ops t)
run-Follows ops t = run-Evolves lifecycle ops t (All-tt ops)

-- Every operation keeps each row's claim id in step with its status.
pub run-IsValid : (ops : List (ℕ × Op)) (t : Outbox) → All IsValid t → All IsValid (run ops t)
run-IsValid ops t v =
    All-Evolves Follows IsNew IsValid (λ x y s. s.valid) (run-Follows ops t) (λ y n. n.new_valid) v
