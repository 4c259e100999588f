-- ===== src/OperationState/ReceiptOutbox/Edges.antt =====
-- The one edge of a receipt's lifecycle that each operation may take a row along.
use portfolio_management.Common.{
  ℕ, ◌≡◌, refl, ◌∙◌, subst, sym, ◌⊎◌, inl, inr, String, true, Option, none, some, arith, str_eq,
  eq_iff, Bool-cases,
}
use portfolio_management.Common.Table.{fetch_one}
use portfolio_management.Common.Table.Edges.{Via-then, Via-join}
use portfolio_management.Common.Table.Evolution.{Evolves, Evolves-compose}
use portfolio_management.OperationState.Receipts.{
  Outbox, Receipt, Status, pending, claimed, sending, sent, failed, unknown, has_key, new_receipt,
  insert_repeatable_closure_receipt_tx,
}
use portfolio_management.OperationState.ReceiptOutbox.{
  enqueue_operation_receipt, claim_expired, release_claim, send_expired, release_send,
  expire_leases, is_due, take_claim, select_due, resolve_claim, claim_due_operation_receipts,
  holds_claim, start_send, outcome_status, holds_send, finish_send, decision_status, holds_unknown,
  settle_unknown,
}
use portfolio_management.OperationState.ReceiptOutbox.Operations.{
  Op, enqueue, close_case, claim, start, mark, resolve, apply, insert-Evolves, closure-Evolves,
  start-Evolves, mark-Evolves, resolve-Evolves, expire-Evolves, take-Evolves,
}

-- The edges of each operation: a claim also releases what has expired.
pub data Edge : Op → Status → Status → Type 0 where
  take_pending :
      {limit : ℕ} {key c : Option String} {fresh : String}
      → Edge (claim limit key c fresh) pending claimed
  take_failed :
      {limit : ℕ} {key c : Option String} {fresh : String}
      → Edge (claim limit key c fresh) failed claimed
  expire_claim :
      {limit : ℕ} {key c : Option String} {fresh : String}
      → Edge (claim limit key c fresh) claimed failed
  take_expired :
      {limit : ℕ} {key c : Option String} {fresh : String}
      → Edge (claim limit key c fresh) claimed claimed
  expire_send :
      {limit : ℕ} {key c : Option String} {fresh : String}
      → Edge (claim limit key c fresh) sending unknown
  begin_send : {key c : String} → Edge (start key c) claimed sending
  deliver :
      {key c : String} {message error : Option String}
      → Edge (mark key c "sent" message error) sending sent
  reject :
      {key c : String} {message error : Option String}
      → Edge (mark key c "failed" message error) sending failed
  lose :
      {key c : String} {message error : Option String}
      → Edge (mark key c "unknown" message error) sending unknown
  retry : {key note : String} → Edge (resolve key "retry" note) unknown failed
  confirm : {key note : String} → Edge (resolve key "mark-sent" note) unknown sent

-- A row that an operation added, as it was written.
pub data IsNew (now : ℕ) : Op → Receipt → Type 0 where
  added :
      {key type payload : String} {r : Receipt}
      → r.receipt_key ≡ key
      → r.receipt_type ≡ type
      → r.payload_json ≡ payload
      → r.status ≡ pending
      → r.attempt_count ≡ 0
      → r.next_attempt_at ≡ now
      → r.claim_id ≡ none
      → r.created_at ≡ now
      → IsNew now (enqueue key type payload) r
  closed :
      {key payload : String} {r : Receipt}
      → IsNew now (enqueue key "holding_case_closed" payload) r
      → IsNew now (close_case key payload) r

pub record Frozen (r r' : Receipt) : Type 0 where
  pub same_key : r'.receipt_key ≡ r.receipt_key
  pub same_type : r'.receipt_type ≡ r.receipt_type
  pub same_payload : r'.payload_json ≡ r.payload_json
  pub same_created : r'.created_at ≡ r.created_at

abbrev pub state_of : Receipt → Status
state_of r = r.status

-- The row is as it was, or went along an edge with its key, type, payload and creation time frozen.
abbrev pub Along : (Status → Status → Type 0) → Receipt → Receipt → Type 0
Along E r r' = (r' ≡ r) ⊎ (Frozen r r' × E r.status r'.status)

Frozen-trans : (x y z : Receipt) → Frozen x y → Frozen y z → Frozen x z
Frozen-trans x y z d e = record {
  same_key = e.same_key ∙ d.same_key;
  same_type = e.same_type ∙ d.same_type;
  same_payload = e.same_payload ∙ d.same_payload;
  same_created = e.same_created ∙ d.same_created;
}

frozen :
    {r r' : Receipt}
    → r'.receipt_key ≡ r.receipt_key
    → r'.receipt_type ≡ r.receipt_type
    → r'.payload_json ≡ r.payload_json
    → r'.created_at ≡ r.created_at
    → Frozen r r'
frozen k t p c = record { same_key = k; same_type = t; same_payload = p; same_created = c }

-- the two halves of a claim
data Expires : Status → Status → Type 0 where
  claim_out : Expires claimed failed
  send_out : Expires sending unknown

data Takes : Status → Status → Type 0 where
  of_pending : Takes pending claimed
  of_failed : Takes failed claimed

Expires-once : (a b c : Status) → Expires a b → Expires b c → ⊥
Expires-once a b c claim_out e = elim e [ ]
Expires-once a b c send_out e = elim e [ ]

Takes-once : (a b c : Status) → Takes a b → Takes b c → ⊥
Takes-once a b c of_pending e = elim e [ ]
Takes-once a b c of_failed e = elim e [ ]

module _ (limit : ℕ) (key c : Option String) (fresh : String) (now : ℕ) where
  abbrev op : Op
  op = claim limit key c fresh

  expires_edge : (a b : Status) → Expires a b → Edge op a b
  expires_edge a b claim_out = expire_claim
  expires_edge a b send_out = expire_send

  takes_edge : (a b : Status) → Takes a b → Edge op a b
  takes_edge a b of_pending = take_pending
  takes_edge a b of_failed = take_failed

  both_edge : (a b d : Status) → Expires a b → Takes b d → Edge op a d
  both_edge a b d claim_out of_failed = take_expired
  both_edge a b d send_out e = elim e [ ]

  none_grows :
      (E : Status → Status → Type 0) (x y : Receipt) → Along E x y → IsNew now op x → IsNew now op y
  none_grows E x y s n = elim n [ ]

  expire_step : (r : Receipt) → claim_expired now r ≡ true → Along Expires r (release_claim now r)
  unfolding claim_expired release_claim
  expire_step r h = inr (frozen refl refl refl refl, grind (arith, claim_out))

  send_step : (r : Receipt) → send_expired now r ≡ true → Along Expires r (release_send now r)
  unfolding send_expired release_send
  send_step r h = inr (frozen refl refl refl refl, grind (arith, send_out))

  take_step : (d : String) (r : Receipt) → is_due now r ≡ true → Along Takes r (take_claim d now r)
  unfolding is_due take_claim
  take_step d r h = inr (frozen refl refl refl refl, grind (arith, of_pending, of_failed))

  claim-Along :
      (t : Outbox)
      → Evolves
          (Along (Edge op))
          (IsNew now op)
          t
          (claim_due_operation_receipts limit key c fresh now t).1
  unfolding claim_due_operation_receipts
  claim-Along t =
      Evolves-compose (Along Expires) (Along Takes) (Along (Edge op)) (IsNew now op)
        (Via-then state_of Frozen Frozen-trans Expires Takes (Edge op) expires_edge takes_edge
          both_edge)
        (none_grows Takes)
        (expire-Evolves (Along Expires) (IsNew now op) (λ r. inl refl)
          (Via-join state_of Frozen Frozen-trans Expires Expires-once) (none_grows Expires) now t
          expire_step send_step)
        (take-Evolves (Along Takes) (IsNew now op) (λ r. inl refl)
          (Via-join state_of Frozen Frozen-trans Takes Takes-once) (none_grows Takes)
          (resolve_claim c fresh) now (take_step (resolve_claim c fresh))
          (select_due limit key now (expire_leases now t)) _)

start_step :
    (key c : String) (now : ℕ) (r : Receipt)
    → holds_claim key c r ≡ true
    → Along (Edge (start key c)) r (start_send now r)
unfolding holds_claim start_send
start_step key c now r h =
    let is_claimed_row : r.status ≡ claimed = ground arith in
    inr (
      frozen refl refl refl refl,
      subst (λ s. Edge (start key c) s sending) (sym is_claimed_row) begin_send,
    )

edge_at :
    (key c word outcome : String) (message error : Option String) (target status : Status)
    → outcome ≡ word
    → target ≡ status
    → Edge (mark key c word message error) sending target
    → Edge (mark key c outcome message error) sending status
edge_at key c word outcome message error target status named reached edge =
    subst (λ w. Edge (mark key c w message error) sending status) (sym named)
      (subst (λ s. Edge (mark key c word message error) sending s) reached edge)

mark_edge :
    (key c outcome : String) (message error : Option String) (status : Status)
    → outcome_status outcome ≡ some status
    → Edge (mark key c outcome message error) sending status
mark_edge key c outcome message error status e = elim (Bool-cases (str_eq outcome "sent")) [
  | inl q ↦
      let g : ◌≡◌ {A = Option Status} (some sent) (some status) = rw q at e in
      edge_at key c "sent" outcome message error sent status ((eq_iff outcome "sent").0 q) (cc)
        deliver
  | inr q ↦ elim (Bool-cases (str_eq outcome "failed")) [
    | inl p ↦
        let g : ◌≡◌ {A = Option Status} (some failed) (some status) = rw (q, p) at e in
        edge_at key c "failed" outcome message error failed status ((eq_iff outcome "failed").0 p)
          (cc) reject
    | inr p ↦ elim (Bool-cases (str_eq outcome "unknown")) [
      | inl u ↦
          let g : ◌≡◌ {A = Option Status} (some unknown) (some status) = rw (q, p, u) at e in
          edge_at key c "unknown" outcome message error unknown status
            ((eq_iff outcome "unknown").0 u) (cc) lose
      | inr u ↦ let g : ◌≡◌ {A = Option Status} none (some status) = rw (q, p, u) at e in cc
    ]
  ]
]

finish_step :
    (key c outcome : String) (message error : Option String) (now : ℕ) (status : Status) (n : ℕ)
    (r : Receipt)
    → outcome_status outcome ≡ some status
    → holds_send key c r ≡ true
    → Along (Edge (mark key c outcome message error)) r (finish_send status n message error now r)
unfolding holds_send finish_send
finish_step key c outcome message error now status n r e h =
    let is_sending_row : r.status ≡ sending = ground arith in
    inr (
      frozen refl refl refl refl,
      subst (λ s. Edge (mark key c outcome message error) s status) (sym is_sending_row)
          (mark_edge key c outcome message error status e),
    )

decision_at :
    (key word decision note : String) (target status : Status)
    → decision ≡ word
    → target ≡ status
    → Edge (resolve key word note) unknown target
    → Edge (resolve key decision note) unknown status
decision_at key word decision note target status named reached edge =
    subst (λ w. Edge (resolve key w note) unknown status) (sym named)
      (subst (λ s. Edge (resolve key word note) unknown s) reached edge)

resolve_edge :
    (key decision note : String) (status : Status)
    → decision_status decision ≡ some status
    → Edge (resolve key decision note) unknown status
resolve_edge key decision note status e = elim (Bool-cases (str_eq decision "retry")) [
  | inl q ↦
      let g : ◌≡◌ {A = Option Status} (some failed) (some status) = rw q at e in
      decision_at key "retry" decision note failed status ((eq_iff decision "retry").0 q) (cc) retry
  | inr q ↦ elim (Bool-cases (str_eq decision "mark-sent")) [
    | inl p ↦
        let g : ◌≡◌ {A = Option Status} (some sent) (some status) = rw (q, p) at e in
        decision_at key "mark-sent" decision note sent status ((eq_iff decision "mark-sent").0 p)
          (cc) confirm
    | inr p ↦ let g : ◌≡◌ {A = Option Status} none (some status) = rw (q, p) at e in cc
  ]
]

settle_step :
    (key decision note : String) (now : ℕ) (status : Status) (r : Receipt)
    → decision_status decision ≡ some status
    → holds_unknown key r ≡ true
    → Along (Edge (resolve key decision note)) r (settle_unknown status note now r)
unfolding holds_unknown settle_unknown
settle_step key decision note now status r e h =
    let is_unknown_row : r.status ≡ unknown = ground arith in
    inr (
      frozen refl refl refl refl,
      subst (λ s. Edge (resolve key decision note) s status) (sym is_unknown_row)
          (resolve_edge key decision note status e),
    )

born :
    (key type payload : String) (now : ℕ)
    → IsNew now (enqueue key type payload) (new_receipt key type payload now)
unfolding new_receipt
born key type payload now = added refl refl refl refl refl refl refl refl

-- Each operation, at any time and on any outbox, leaves a row as it was or takes it along an edge that
-- `Edge` lists for this operation, with its key, type, payload and creation time frozen; only
-- `enqueue` and `close_case` add rows, and what they add is pending with no attempt and no claim, due at
-- once, and has the key, type and payload of the call.
pub apply-Along :
    (now : ℕ) (op : Op) (t : Outbox) → Evolves (Along (Edge op)) (IsNew now op) t (apply now op t)
unfolding apply enqueue_operation_receipt insert_repeatable_closure_receipt_tx
apply-Along now (enqueue key type payload) t =
    insert-Evolves (Along (Edge (enqueue key type payload))) (IsNew now (enqueue key type payload))
      (λ r. inl refl) key type payload now t (born key type payload now)
apply-Along now (close_case key payload) t =
    closure-Evolves (Along (Edge (close_case key payload))) (IsNew now (close_case key payload))
      (λ r. inl refl) key payload now t (closed (born key "holding_case_closed" payload now))
      (fetch_one (has_key key) t)
apply-Along now (claim limit key c fresh) t = claim-Along limit key c fresh now t
apply-Along now (start key c) t =
    start-Evolves (Along (Edge (start key c))) (IsNew now (start key c)) (λ r. inl refl) key c now t
      (start_step key c now)
apply-Along now (mark key c outcome message error) t =
    mark-Evolves (Along (Edge (mark key c outcome message error)))
      (IsNew now (mark key c outcome message error)) (λ r. inl refl) key c outcome message error now
      t (finish_step key c outcome message error now)
apply-Along now (resolve key decision note) t =
    resolve-Evolves (Along (Edge (resolve key decision note)))
      (IsNew now (resolve key decision note)) (λ r. inl refl) key decision note now t
      (settle_step key decision note now)
