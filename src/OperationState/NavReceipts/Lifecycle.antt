-- ===== src/OperationState/NavReceipts/Lifecycle.antt =====
-- What every sequence of operations does to the receipts of the NAV outbox.
use portfolio_management.Common.Steps.{Reaches, here, move, Reaches-trans}
use portfolio_management.Common.{
  ℕ, ◌+◌, ◌≡◌, refl, sym, ap, subst, ◌∙◌, inl, inr, String, Bool, false, Option, none, some, List,
  [], ◌∷◌, ◌++◌, arith, Bool-cases, Result-cases, Error, value_error, Result, ok, err, str_eq,
}
use portfolio_management.Common.Table.{update, fetch_one}
use portfolio_management.Common.Table.Evolution.{
  Evolves, Evolves-refl, Evolves-update, Evolves-append, Evolves-trans, fetch_one-Evolves,
}
use portfolio_management.OperationState.NavReceipts.{
  NavReceipt, NavOutbox, SendStatus, pending, sending, sent, failed, has_receipt, new_nav_receipt,
  insert_or_compare, enqueue_nav_receipt, send_expired, release_send, is_due, due_row, begin_send,
  claim_rows, claim_due_nav_receipts, resolve_claim, list_due_nav_receipts, holds_send, finish_send,
  mark_found, mark_nav_receipt, get_nav_receipt,
}

infix 40 ◌⟶◌ ◌⟶*◌
pub data ◌⟶◌ : SendStatus → SendStatus → Type 0 where
  begin_pending : pending ⟶ sending
  begin_failed : failed ⟶ sending
  fail : sending ⟶ failed
  succeed : sending ⟶ sent

abbrev pub ◌⟶*◌ : SendStatus → SendStatus → Type 0
s ⟶* t = Reaches ◌⟶◌ s t

-- What an operation does to a receipt: key, payload and creation time stay, the status goes along
-- the diagram, and a receipt that was sent is not touched.
pub record Follows (r r' : NavReceipt) : Type 0 where
  pub same_key : r'.receipt_key ≡ r.receipt_key
  pub same_payload : r'.payload_json ≡ r.payload_json
  pub same_created : r'.created_at ≡ r.created_at
  pub path : r.status ⟶* r'.status
  pub final : r.status ≡ sent → r' ≡ r

pub record IsNew (r : NavReceipt) : Type 0 where
  pub from_pending : pending ⟶* r.status

abbrev pub Moves : NavOutbox → NavOutbox → Type 0
Moves = Evolves Follows IsNew

stay : (r : NavReceipt) → Follows r r
stay r = record {
  same_key = refl;
  same_payload = refl;
  same_created = refl;
  path = here;
  final = λ _. refl;
}

join : (x y z : NavReceipt) → Follows x y → Follows y z → Follows x z
join x y z d e = record {
  same_key = e.same_key ∙ d.same_key;
  same_payload = e.same_payload ∙ d.same_payload;
  same_created = e.same_created ∙ d.same_created;
  path = Reaches-trans ◌⟶◌ d.path e.path;
  final =
      λ q. e.final (subst (λ (w : NavReceipt). w.status ≡ sent) (sym (d.final q)) q) ∙ d.final q;
}

Moves-refl : (t : NavOutbox) → Moves t t
Moves-refl t = Evolves-refl Follows IsNew stay t

Moves-trans : {t u v : NavOutbox} → Moves t u → Moves u v → Moves t v
Moves-trans d e =
    Evolves-trans Follows IsNew join
      (λ x y s n. record { from_pending = Reaches-trans ◌⟶◌ n.from_pending s.path }) d e

abbrev collision : Error
collision = value_error "NAV receipt key collision with different payload"

enqueue_found-Moves :
    (key payload : String) (now : ℕ) (t t' : NavOutbox) (b : Bool) (o : Option NavReceipt)
    → insert_or_compare key payload now t o ≡ ok (b, t')
    → Moves t t'
unfolding insert_or_compare new_nav_receipt
enqueue_found-Moves key payload now t t' b none h =
    let same : t ++ new_nav_receipt key payload now ∷ [] ≡ t' = cc in
    subst (λ u. Moves t u) same
      (Evolves-append Follows IsNew stay t (new_nav_receipt key payload now ∷ [])
        (record { from_pending = here }, tt))
enqueue_found-Moves key payload now t t' b (some r) h =
    elim (Bool-cases (str_eq r.payload_json payload)) [
      | inl q ↦
          let g : ◌≡◌ {A = Result (Bool × NavOutbox)} (ok (false, t)) (ok (b, t')) = rw q at h in
          let same : t ≡ t' = cc in subst (λ u. Moves t u) same (Moves-refl t)
      | inr q ↦
          let g : ◌≡◌ {A = Result (Bool × NavOutbox)} (err collision) (ok (b, t')) = rw q at h in cc
    ]

follow :
    (r r' : NavReceipt)
    → r'.receipt_key ≡ r.receipt_key
    → r'.payload_json ≡ r.payload_json
    → r'.created_at ≡ r.created_at
    → r.status ⟶ r'.status
    → (r.status ≡ sent → ⊥)
    → Follows r r'
follow r r' k p c s n = record {
  same_key = k;
  same_payload = p;
  same_created = c;
  path = move s here;
  final = λ q. absurd (n q);
}

expire-Moves : (now : ℕ) (t : NavOutbox) → Moves t (update (send_expired now) (release_send now) t)
unfolding send_expired release_send
expire-Moves now t =
    Evolves-update Follows IsNew stay (send_expired now) (release_send now)
      (λ r h. follow r _ refl refl refl (grind (arith, fail)) (λ q. ground arith)) t

take-Moves :
    (key c : String) (now : ℕ) (t : NavOutbox)
    → Moves t (update (due_row key now) (begin_send c now) t)
unfolding due_row is_due begin_send
take-Moves key c now t =
    Evolves-update Follows IsNew stay (due_row key now) (begin_send c now)
      (λ r h.
        follow r _ refl refl refl (grind (arith, begin_pending, begin_failed)) (λ q. ground arith))
      t

claim_rows-Moves :
    (c : String) (now : ℕ) (rs : List NavReceipt) (t : NavOutbox)
    → Moves t (claim_rows c now rs t).1
unfolding claim_rows
claim_rows-Moves c now [] t = Moves-refl t
claim_rows-Moves c now (r ∷ rs) t =
    Moves-trans (take-Moves r.receipt_key c now t) (claim_rows-Moves c now rs _)

finish-Moves :
    (key c : String) (success : Bool) (n : ℕ) (message error : Option String) (now : ℕ)
    (t : NavOutbox)
    → Moves t (update (holds_send key c) (finish_send success n message error now) t)
unfolding holds_send finish_send
finish-Moves key c success n message error now t =
    Evolves-update Follows IsNew stay (holds_send key c) (finish_send success n message error now)
      (λ r h. follow r _ refl refl refl (grind (arith, succeed, fail)) (λ q. ground arith)) t

pub data Op : Type 0 where
  enqueue : String → String → Op
  claim : ℕ → Option String → Option String → String → Op
  mark : String → String → Bool → Option String → Option String → Op

-- an operation that raises leaves the table alone
after_insert : NavOutbox → Result (Bool × NavOutbox) → NavOutbox
after_insert t (ok (_, t')) = t'
after_insert t (err _) = t

after_mark : NavOutbox → Result NavOutbox → NavOutbox
after_mark t (ok t') = t'
after_mark t (err _) = t

unfoldable pub apply : ℕ → Op → NavOutbox → NavOutbox
unfolding after_insert after_mark
apply now (enqueue key payload) t = after_insert t (enqueue_nav_receipt key payload now t)
apply now (claim limit key c fresh) t = (claim_due_nav_receipts limit key c fresh now t).1
apply now (mark key c success message error) t =
    after_mark t (mark_nav_receipt key c success message error now t)

unfoldable pub run : List (ℕ × Op) → NavOutbox → NavOutbox
unfolding apply
run [] t = t
run ((now, op) ∷ ops) t = run ops (apply now op t)

mark_found-Moves :
    (key c : String) (success : Bool) (message error : Option String) (now : ℕ) (t : NavOutbox)
    (o : Option NavReceipt)
    → Moves t (after_mark t (mark_found key c success message error now t o))
unfolding mark_found after_mark
mark_found-Moves key c success message error now t none = Moves-refl t
mark_found-Moves key c success message error now t (some r) =
    finish-Moves key c success (r.attempt_count + 1) message error now t

apply-Moves : (now : ℕ) (op : Op) (t : NavOutbox) → Moves t (apply now op t)
unfolding apply enqueue_nav_receipt claim_due_nav_receipts mark_nav_receipt after_insert
apply-Moves now (enqueue key payload) t =
    let row = fetch_one (has_receipt key) t in
    elim (Result-cases (insert_or_compare key payload now t row)) [
      | inl (r, e) ↦ rw e (enqueue_found-Moves key payload now t r.1 r.0 row e)
      | inr (x, e) ↦ rw e (Moves-refl t)
    ]
apply-Moves now (claim limit key c fresh) t = Moves-trans (expire-Moves now t) (
    claim_rows-Moves (resolve_claim c fresh) now
      (list_due_nav_receipts limit key now (update (send_expired now) (release_send now) t)) _)
apply-Moves now (mark key c success message error) t =
    mark_found-Moves key c success message error now t (fetch_one (holds_send key c) t)

-- Whatever the operations, every NAV receipt goes along the lifecycle diagram with its key, payload
-- and creation time frozen, and every receipt that was added began as pending.
pub run-Moves : (ops : List (ℕ × Op)) (t : NavOutbox) → Moves t (run ops t)
unfolding run
run-Moves [] t = Moves-refl t
run-Moves ((now, op) ∷ ops) t = Moves-trans (apply-Moves now op t) (run-Moves ops (apply now op t))

-- A NAV receipt that was sent is never written again, whatever the operations.
pub run-final :
    (key : String) (ops : List (ℕ × Op)) (t : NavOutbox) (r : NavReceipt)
    → get_nav_receipt key t ≡ some r
    → r.status ≡ sent
    → get_nav_receipt key (run ops t) ≡ some r
unfolding get_nav_receipt
run-final key ops t r e s =
    let (r', e', d) =
      fetch_one-Evolves Follows IsNew (λ x. x.receipt_key) (λ x y d. d.same_key) key
        (run-Moves ops t) r e in
    e' ∙ ap some (d.final s)
