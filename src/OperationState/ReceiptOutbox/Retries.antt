-- ===== src/OperationState/ReceiptOutbox/Retries.antt =====
-- Enqueueing is idempotent on a key, and a failed send waits for its delay.
use portfolio_management.Common.{
  ℕ, ◌+◌, ◌*◌, ◌≤◌, ◌<◌, ◌≡◌, refl, ap, ◌∙◌, inl, inr, String, Bool, true, false, ◌&&◌, Option,
  none, some, arith, str_eq, str_eq_refl, eq_iff, Bool-cases, Error, Result, ok, err, value_error,
  text_in, [], ◌∷◌, ◌++◌, opt_is,
}
use portfolio_management.Common.Table.{fetch_one, update}
use portfolio_management.Common.Table.Keys.{
  fetch_one-append, fetch_one-append_keeps, fetch_one-update, fetch_one_holds, fetch_one-and, image,
}
use portfolio_management.OperationState.Retry.{minute, retry_delay_bounds}
use portfolio_management.OperationState.Receipts.{
  Outbox, Receipt, Status, sending, failed, has_key, supported_types, new_receipt,
  insert_or_compare, insert_operation_receipt_tx, is_sending,
}
use portfolio_management.OperationState.ReceiptOutbox.{
  is_due, enqueue_operation_receipt, get_operation_receipt, holds_send, finish_send, finish_found,
  mark_as, mark_operation_receipt,
}
use portfolio_management.OperationState.ReceiptOutbox.Keys.{key_of}

abbrev unsupported : Error
unsupported = value_error "unsupported operation receipt type"

abbrev collision : Error
collision = value_error "operation receipt key collision with different payload"

-- The table holds a receipt under the key, with that type and payload.
abbrev pub Stored : String → String → String → Outbox → Type 0
Stored key type payload t =
    (r : Receipt) × (get_operation_receipt key t ≡ some r)
    × (r.receipt_type ≡ type)
    × (r.payload_json ≡ payload)

-- the row that an insert left or compared with
insert_found-Stored :
    (key type payload : String) (now : ℕ) (t t' : Outbox) (b : Bool) (o : Option Receipt)
    → fetch_one (has_key key) t ≡ o
    → insert_or_compare key type payload now t o ≡ ok (b, t')
    → Stored key type payload t'
unfolding insert_or_compare new_receipt get_operation_receipt
insert_found-Stored key type payload now t t' b none e h =
    let same : t ++ new_receipt key type payload now ∷ [] ≡ t' = cc in
    (
      new_receipt key type payload now,
      rw (← same) (fetch_one-append key_of t (new_receipt key type payload now) e),
      refl,
      refl,
    )
insert_found-Stored key type payload now t t' b (some r) e h =
    elim (Bool-cases (str_eq r.receipt_type type && str_eq r.payload_json payload)) [
      | inl q ↦
          let g : ◌≡◌ {A = Result (Bool × Outbox)} (ok (false, t)) (ok (b, t')) = rw q at h in
          let same : t ≡ t' = cc in
          (
            r,
            rw (← same) e,
            ground (arith, eq_iff r.receipt_type type),
            ground (arith, eq_iff r.payload_json payload),
          )
      | inr q ↦
          let g : ◌≡◌ {A = Result (Bool × Outbox)} (err collision) (ok (b, t')) = rw q at h in cc
    ]

-- After an insert that succeeded, the receipt stands in the table with its type and payload.
pub insert-Stored :
    (key type payload : String) (now : ℕ) (t t' : Outbox) (b : Bool)
    → insert_operation_receipt_tx key type payload now t ≡ ok (b, t')
    → Stored key type payload t'
unfolding insert_operation_receipt_tx
insert-Stored key type payload now t t' b h = elim (Bool-cases (text_in type supported_types)) [
  | inl s ↦
      insert_found-Stored key type payload now t t' b (fetch_one (has_key key) t) refl (rw s at h)
  | inr s ↦
      let g : ◌≡◌ {A = Result (Bool × Outbox)} (err unsupported) (ok (b, t')) = rw s at h in cc
]

insert_found-keeps :
    (key type payload : String) (now : ℕ) (t t' : Outbox) (b : Bool) (o : Option Receipt)
    → insert_or_compare key type payload now t o ≡ ok (b, t')
    → (k : String) (r : Receipt) → fetch_one (has_key k) t ≡ some r
    → fetch_one (has_key k) t' ≡ some r
unfolding insert_or_compare
insert_found-keeps key type payload now t t' b none h k r e =
    let same : t ++ new_receipt key type payload now ∷ [] ≡ t' = cc in
    rw (← same) (fetch_one-append_keeps key_of k t _ r e)
insert_found-keeps key type payload now t t' b (some x) h k r e =
    elim (Bool-cases (str_eq x.receipt_type type && str_eq x.payload_json payload)) [
      | inl q ↦
          let g : ◌≡◌ {A = Result (Bool × Outbox)} (ok (false, t)) (ok (b, t')) = rw q at h in
          let same : t ≡ t' = cc in rw (← same) e
      | inr q ↦
          let g : ◌≡◌ {A = Result (Bool × Outbox)} (err collision) (ok (b, t')) = rw q at h in cc
    ]

-- An insert changes no receipt that is there.
pub insert-keeps :
    (key type payload : String) (now : ℕ) (t t' : Outbox) (b : Bool)
    → insert_operation_receipt_tx key type payload now t ≡ ok (b, t')
    → (k : String) (r : Receipt) → get_operation_receipt k t ≡ some r
    → get_operation_receipt k t' ≡ some r
unfolding insert_operation_receipt_tx get_operation_receipt
insert-keeps key type payload now t t' b h k r e =
    elim (Bool-cases (text_in type supported_types)) [
      | inl s ↦
          insert_found-keeps key type payload now t t' b (fetch_one (has_key key) t) (rw s at h) k r
            e
      | inr s ↦
          let g : ◌≡◌ {A = Result (Bool × Outbox)} (err unsupported) (ok (b, t')) = rw s at h in cc
    ]

insert_found_again :
    (key type payload : String) (now : ℕ) (t : Outbox) (r : Receipt)
    → r.receipt_type ≡ type
    → r.payload_json ≡ payload
    → insert_or_compare key type payload now t (some r) ≡ ok (false, t)
unfolding insert_or_compare
insert_found_again key type payload now t r p q =
    rw (p, q, str_eq_refl type, str_eq_refl payload) refl

-- Once an enqueue has succeeded, the receipt stands in the table with that type and payload, and
-- the same enqueue at any later time reports that nothing was added and changes nothing.
pub enqueue_idempotent :
    (key type payload : String) (now later : ℕ) (t t' : Outbox) (b : Bool)
    → enqueue_operation_receipt key type payload now t ≡ ok (b, t')
    → Stored key type payload t'
      × (enqueue_operation_receipt key type payload later t' ≡ ok (false, t'))
unfolding enqueue_operation_receipt insert_operation_receipt_tx get_operation_receipt
enqueue_idempotent key type payload now later t t' b h =
    elim (Bool-cases (text_in type supported_types)) [
      | inl s ↦
          let (r, e, p, q) = insert-Stored key type payload now t t' b h in
          ((r, e, p, q), rw (s, e) (insert_found_again key type payload later t' r p q))
      | inr s ↦
          let g : ◌≡◌ {A = Result (Bool × Outbox)} (err unsupported) (ok (b, t')) = rw s at h in cc
    ]

module _ (status : Status) (n : ℕ) (message error : Option String) (now : ℕ) (r : Receipt) where
  finish_send_key : (finish_send status n message error now r).receipt_key ≡ r.receipt_key
  unfolding finish_send
  finish_send_key = refl

  finish_send-attempts : (finish_send status n message error now r).attempt_count ≡ n
  unfolding finish_send
  finish_send-attempts = refl

  finish_send-claim : (finish_send status n message error now r).claim_id ≡ none
  unfolding finish_send
  finish_send-claim = refl

module _ (n : ℕ) (message error : Option String) (now : ℕ) (r : Receipt) (m : ℕ) where
  not_due : m < now + minute → is_due m (finish_send failed n message error now r) ≡ false
  unfolding finish_send is_due
  not_due h = ground (arith, retry_delay_bounds n)

  due_again : now + 60 * minute ≤ m → is_due m (finish_send failed n message error now r) ≡ true
  unfolding finish_send is_due
  due_again h = ground (arith, retry_delay_bounds n)

sending_found :
    (k c : String) (t : Outbox) (r : Receipt)
    → fetch_one (has_key k) t ≡ some r
    → r.status ≡ sending
    → r.claim_id ≡ some c
    → fetch_one (holds_send k c) t ≡ some r
unfolding holds_send
sending_found k c t r e s i =
    fetch_one-and key_of k (λ x. is_sending x.status && opt_is x.claim_id c) t r e
      (rw (s, i, str_eq_refl c) refl)

-- A send that is reported as failed puts the receipt back with one more attempt counted, without
-- a claim, and it is not due again before a minute has passed, nor later than after an hour.
pub mark-failed_waits :
    (k c : String) (message error : Option String) (now : ℕ) (t : Outbox) (r : Receipt)
    → get_operation_receipt k t ≡ some r
    → r.status ≡ sending
    → r.claim_id ≡ some c
    → (t' : Outbox) × (mark_operation_receipt k c "failed" message error now t ≡ ok t')
      × (r' : Receipt) × (get_operation_receipt k t' ≡ some r')
      × (r'.attempt_count ≡ r.attempt_count + 1)
      × (r'.claim_id ≡ none)
      × ((n : ℕ) → n < now + minute → is_due n r' ≡ false)
      × ((n : ℕ) → now + 60 * minute ≤ n → is_due n r' ≡ true)
unfolding mark_operation_receipt mark_as finish_found get_operation_receipt
mark-failed_waits k c message error now t r e s i =
    let n = r.attempt_count + 1 in
    let f = finish_send failed n message error now in
    (
      update (holds_send k c) f t,
      rw (sending_found k c t r e s i) refl,
      f r,
      fetch_one-update key_of (holds_send k c) f (λ x. finish_send_key failed n message error now x)
            k t
          ∙ ap (image (holds_send k c) f) e
          ∙ rw (fetch_one_holds (holds_send k c) t (sending_found k c t r e s i)) refl,
      finish_send-attempts failed n message error now r,
      finish_send-claim failed n message error now r,
      (λ m h. not_due n message error now r m h),
      (λ m h. due_again n message error now r m h),
    )
