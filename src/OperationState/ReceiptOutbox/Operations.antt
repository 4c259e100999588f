-- ===== src/OperationState/ReceiptOutbox/Operations.antt =====
-- The outbox's operations as data, a run of them, and the rule by which a relation between a row
-- and what it becomes is shown for every run. An operation that raises leaves the table alone.
use portfolio_management.Common.{
  ℕ, ◌≡◌, refl, inl, inr, String, true, Option, none, some, List, [], ◌∷◌, ◌&&◌, ◌==◌, Result, ok,
  err, All, Bool-cases, and_true, str_eq, text_in,
}
use portfolio_management.Common.Table.{row_count, fetch_one}
use portfolio_management.Common.Table.Evolution.{
  Evolves, Evolves-refl, Evolves-update, Evolves-append, Evolves-trans,
}
use portfolio_management.OperationState.Receipts.{
  Outbox, Receipt, Status, has_key, new_receipt, supported_types, insert_or_compare,
  insert_operation_receipt_tx, closure_over, insert_repeatable_closure_receipt_tx, is_unknown,
}
use portfolio_management.OperationState.ReceiptOutbox.{
  enqueue_operation_receipt, claim_expired, release_claim, send_expired, release_send,
  expire_leases, is_due, take_claim, claim_rows, select_due, resolve_claim,
  claim_due_operation_receipts, holds_claim, start_send, start_operation_receipt_send,
  outcome_status, holds_send, finish_send, finish_found, mark_as, mark_operation_receipt,
  decision_status, holds_unknown, settle_unknown, resolve_found, resolve_as,
  resolve_operation_receipt,
}

pub data Op : Type 0 where
  enqueue : String → String → String → Op
  close_case : String → String → Op
  claim : ℕ → Option String → Option String → String → Op
  start : String → String → Op
  mark : String → String → String → Option String → Option String → Op
  resolve : String → String → String → Op

-- the table after an operation that may raise
abbrev pub after : {A : Type 0} → Outbox → Result (A × Outbox) → Outbox
after t (ok (_, t')) = t'
after t (err _) = t

abbrev pub after_write : Outbox → Result Outbox → Outbox
after_write t (ok t') = t'
after_write t (err _) = t

-- An operation at the clock's reading `now`.
unfoldable pub apply : ℕ → Op → Outbox → Outbox
apply now (enqueue key type payload) t = after t (enqueue_operation_receipt key type payload now t)
apply now (close_case key payload) t =
    after t (insert_repeatable_closure_receipt_tx key payload now t)
apply now (claim limit key c fresh) t = (claim_due_operation_receipts limit key c fresh now t).1
apply now (start key c) t = after_write t (start_operation_receipt_send key c now t)
apply now (mark key c outcome message error) t =
    after_write t (mark_operation_receipt key c outcome message error now t)
apply now (resolve key decision note) t =
    after_write t (resolve_operation_receipt key decision note now t)

unfoldable pub run : List (ℕ × Op) → Outbox → Outbox
unfolding apply
run [] t = t
run ((now, op) ∷ ops) t = run ops (apply now op t)

-- What has to be shown of a relation `S` on rows and a predicate `N` of the new ones, so that it
-- holds along every run of the operations that `A` admits.
pub record Rules (A : Op → Type 0) (S : Receipt → Receipt → Type 0) (N : Receipt → Type 0)
    : Type 0 where
  pub stay : (r : Receipt) → S r r
  pub join : (x y z : Receipt) → S x y → S y z → S x z
  pub born : (key type payload : String) (now : ℕ) → N (new_receipt key type payload now)
  pub grow : (x y : Receipt) → S x y → N x → N y
  pub on_claim_expired :
      (now : ℕ) (r : Receipt) → claim_expired now r ≡ true → S r (release_claim now r)
  pub on_send_expired :
      (now : ℕ) (r : Receipt) → send_expired now r ≡ true → S r (release_send now r)
  pub on_take :
      (c : String) (now : ℕ) (r : Receipt) → is_due now r ≡ true → S r (take_claim c now r)
  pub on_start :
      (key c : String) (now : ℕ) (r : Receipt) → holds_claim key c r ≡ true → S r (start_send now r)
  pub on_finish :
      (key c outcome : String) (status : Status) (n : ℕ) (message error : Option String) (now : ℕ)
      (r : Receipt)
      → outcome_status outcome ≡ some status
      → A (mark key c outcome message error)
      → holds_send key c r ≡ true
      → S r (finish_send status n message error now r)
  pub on_settle :
      (key decision note : String) (status : Status) (now : ℕ) (r : Receipt)
      → decision_status decision ≡ some status
      → A (resolve key decision note)
      → holds_unknown key r ≡ true
      → S r (settle_unknown status note now r)

-- Each operation's table evolves by the steps of its statements.
module _ (S : Receipt → Receipt → Type 0) (N : Receipt → Type 0)
    (stay : (r : Receipt) → S r r) where
  abbrev Moves : Outbox → Outbox → Type 0
  Moves = Evolves S N

  Moves-refl : (t : Outbox) → Moves t t
  Moves-refl t = Evolves-refl S N stay t

  abbrev Born : String → String → String → ℕ → Type 0
  Born key type payload now = N (new_receipt key type payload now)

  Moves-insert_found :
      (key type payload : String) (now : ℕ) (t : Outbox)
      → Born key type payload now
      → (o : Option Receipt) → Moves t (after t (insert_or_compare key type payload now t o))
  unfolding insert_or_compare
  Moves-insert_found key type payload now t b none = Evolves-append S N stay t _ (b, tt)
  Moves-insert_found key type payload now t b (some r) =
      elim (Bool-cases (str_eq r.receipt_type type && str_eq r.payload_json payload)) [
        | inl e ↦ rw e (Moves-refl t)
        | inr e ↦ rw e (Moves-refl t)
      ]

  pub insert-Evolves :
      (key type payload : String) (now : ℕ) (t : Outbox)
      → Born key type payload now
      → Evolves S N t (after t (insert_operation_receipt_tx key type payload now t))
  unfolding insert_operation_receipt_tx
  insert-Evolves key type payload now t b = elim (Bool-cases (text_in type supported_types)) [
    | inl e ↦ rw e (Moves-insert_found key type payload now t b _)
    | inr e ↦ rw e (Moves-refl t)
  ]

  pub closure-Evolves :
      (key payload : String) (now : ℕ) (t : Outbox)
      → Born key "holding_case_closed" payload now
      → (o : Option Receipt) → Evolves S N t (after t (closure_over key payload now t o))
  unfolding closure_over
  closure-Evolves key payload now t b none =
      insert-Evolves key "holding_case_closed" payload now t b
  closure-Evolves key payload now t b (some r) =
      elim (Bool-cases (str_eq r.receipt_type "holding_case_closed")) [
        | inl e ↦ rw e (Moves-refl t)
        | inr e ↦ rw e (Moves-refl t)
      ]

  pub start-Evolves :
      (key c : String) (now : ℕ) (t : Outbox)
      → ((r : Receipt) → holds_claim key c r ≡ true → S r (start_send now r))
      → Evolves S N t (after_write t (start_operation_receipt_send key c now t))
  unfolding start_operation_receipt_send
  start-Evolves key c now t starts = elim (Bool-cases (row_count (holds_claim key c) t == 1)) [
    | inl e ↦ rw e (Evolves-update S N stay _ _ starts t)
    | inr e ↦ rw e (Moves-refl t)
  ]

  abbrev Finishes : String → String → String → Option String → Option String → ℕ → Type 0
  Finishes key c outcome message error now =
      (status : Status) (n : ℕ) (r : Receipt)
      → outcome_status outcome ≡ some status
      → holds_send key c r ≡ true
      → S r (finish_send status n message error now r)

  finish-Evolves :
      (key c outcome : String) (status : Status) (message error : Option String) (now : ℕ)
      (t : Outbox)
      → Finishes key c outcome message error now
      → outcome_status outcome ≡ some status
      → (o : Option Receipt)
      → Moves t (after_write t (finish_found key c status message error now t o))
  unfolding finish_found
  finish-Evolves key c outcome status message error now t f e none = Moves-refl t
  finish-Evolves key c outcome status message error now t f e (some r) =
      Evolves-update S N stay _ _ (λ x h. f status _ x e h) t

  mark_as-Evolves :
      (key c outcome : String) (message error : Option String) (now : ℕ) (t : Outbox)
      → Finishes key c outcome message error now
      → (o : Option Status) → outcome_status outcome ≡ o
      → Evolves S N t (after_write t (mark_as key c o message error now t))
  unfolding mark_as
  mark_as-Evolves key c outcome message error now t f none e = Moves-refl t
  mark_as-Evolves key c outcome message error now t f (some status) e =
      finish-Evolves key c outcome status message error now t f e _

  pub mark-Evolves :
      (key c outcome : String) (message error : Option String) (now : ℕ) (t : Outbox)
      → Finishes key c outcome message error now
      → Evolves S N t (after_write t (mark_operation_receipt key c outcome message error now t))
  unfolding mark_operation_receipt
  mark-Evolves key c outcome message error now t f =
      mark_as-Evolves key c outcome message error now t f _ refl

  abbrev Resolves : String → String → String → ℕ → Type 0
  Resolves key decision note now =
      (status : Status) (r : Receipt)
      → decision_status decision ≡ some status
      → holds_unknown key r ≡ true
      → S r (settle_unknown status note now r)

  settle-Evolves :
      (key decision note : String) (status : Status) (now : ℕ) (t : Outbox)
      → Resolves key decision note now
      → decision_status decision ≡ some status
      → (o : Option Receipt) → Moves t (after_write t (resolve_found key status note now t o))
  unfolding resolve_found
  settle-Evolves key decision note status now t f e none = Moves-refl t
  settle-Evolves key decision note status now t f e (some r) =
      elim (Bool-cases (is_unknown r.status)) [
        | inl u ↦ rw u (Evolves-update S N stay _ _ (λ x h. f status x e h) t)
        | inr u ↦ rw u (Moves-refl t)
      ]

  resolve_as-Evolves :
      (key decision note : String) (now : ℕ) (t : Outbox)
      → Resolves key decision note now
      → (o : Option Status) → decision_status decision ≡ o
      → Evolves S N t (after_write t (resolve_as key o note now t))
  unfolding resolve_as
  resolve_as-Evolves key decision note now t f none e = Moves-refl t
  resolve_as-Evolves key decision note now t f (some status) e =
      settle-Evolves key decision note status now t f e _

  pub resolve-Evolves :
      (key decision note : String) (now : ℕ) (t : Outbox)
      → Resolves key decision note now
      → Evolves S N t (after_write t (resolve_operation_receipt key decision note now t))
  unfolding resolve_operation_receipt
  resolve-Evolves key decision note now t f = resolve_as-Evolves key decision note now t f _ refl

  module _ (join : (x y z : Receipt) → S x y → S y z → S x z)
      (grow : (x y : Receipt) → S x y → N x → N y) where
    pub expire-Evolves :
        (now : ℕ) (t : Outbox)
        → ((r : Receipt) → claim_expired now r ≡ true → S r (release_claim now r))
        → ((r : Receipt) → send_expired now r ≡ true → S r (release_send now r))
        → Evolves S N t (expire_leases now t)
    unfolding expire_leases
    expire-Evolves now t claims sends =
        Evolves-trans S N join grow (Evolves-update S N stay _ _ claims t)
          (Evolves-update S N stay _ _ sends _)

    pub take-Evolves :
        (c : String) (now : ℕ)
        → ((r : Receipt) → is_due now r ≡ true → S r (take_claim c now r))
        → (rs : List Receipt) (t : Outbox) → Evolves S N t (claim_rows c now rs t).1
    unfolding claim_rows
    take-Evolves c now takes [] t = Moves-refl t
    take-Evolves c now takes (r ∷ rs) t =
        Evolves-trans S N join grow (Evolves-update S N stay _ _ (λ x h. takes x (and_true h).1) t)
          (take-Evolves c now takes rs _)

module _ {A : Op → Type 0} {S : Receipt → Receipt → Type 0} {N : Receipt → Type 0}
    (rules : Rules A S N) where
  claimed-Evolves :
      (limit : ℕ) (key c : Option String) (fresh : String) (now : ℕ) (t : Outbox)
      → Evolves S N t (claim_due_operation_receipts limit key c fresh now t).1
  unfolding claim_due_operation_receipts
  claimed-Evolves limit key c fresh now t =
      Evolves-trans S N rules.join rules.grow
        (expire-Evolves S N rules.stay rules.join rules.grow now t (rules.on_claim_expired now)
          (rules.on_send_expired now))
        (take-Evolves S N rules.stay rules.join rules.grow (resolve_claim c fresh) now
          (rules.on_take (resolve_claim c fresh) now)
          (select_due limit key now (expire_leases now t)) _)

  apply-Evolves : (now : ℕ) (op : Op) (t : Outbox) → A op → Evolves S N t (apply now op t)
  unfolding apply enqueue_operation_receipt insert_repeatable_closure_receipt_tx
  apply-Evolves now (enqueue key type payload) t a =
      insert-Evolves S N rules.stay key type payload now t (rules.born key type payload now)
  apply-Evolves now (close_case key payload) t a =
      closure-Evolves S N rules.stay key payload now t
        (rules.born key "holding_case_closed" payload now) (fetch_one (has_key key) t)
  apply-Evolves now (claim limit key c fresh) t a = claimed-Evolves limit key c fresh now t
  apply-Evolves now (start key c) t a =
      start-Evolves S N rules.stay key c now t (rules.on_start key c now)
  apply-Evolves now (mark key c outcome message error) t a =
      mark-Evolves S N rules.stay key c outcome message error now t
        (λ status n r e h. rules.on_finish key c outcome status n message error now r e a h)
  apply-Evolves now (resolve key decision note) t a =
      resolve-Evolves S N rules.stay key decision note now t
        (λ status r e h. rules.on_settle key decision note status now r e a h)

  pub run-Evolves :
      (ops : List (ℕ × Op)) (t : Outbox) → All (λ o. A o.1) ops → Evolves S N t (run ops t)
  unfolding run
  run-Evolves [] t h = Evolves-refl S N rules.stay t
  run-Evolves ((now, op) ∷ ops) t h =
      Evolves-trans S N rules.join rules.grow (apply-Evolves now op t h.0)
        (run-Evolves ops (apply now op t) h.1)
