-- ===== src/OperationState/ReceiptOutbox/Distinct.antt =====
-- A claim returns no receipt twice: the row that it took is no longer due.
use portfolio_management.Common.{
  ℕ, ◌≡◌, refl, ap, ◌∙◌, inl, inr, String, true, false, Option, some, List, [], ◌∷◌, All,
  All-map_of, Bool-cases, str_eq, eq_iff, ◌==◌, map,
}
use portfolio_management.Common.Table.{update, row_count, fetch_one}
use portfolio_management.Common.Table.Keys.{found, row_count-key, update-HasUniqueKeys}
use portfolio_management.OperationState.Receipts.{Outbox, Receipt, claimed, has_key}
use portfolio_management.OperationState.ReceiptOutbox.{
  is_due, take_claim, claim_rows, select_due, expire_leases, resolve_claim, as_returned,
  claim_due_operation_receipts, get_operation_receipt,
}
use portfolio_management.OperationState.ReceiptOutbox.Keys.{key_of, Keyed, expire-Keyed}
use portfolio_management.OperationState.ReceiptOutbox.Claims.{hit, take-Owned, claim_rows-stays}

abbrev pub Apart : Receipt → Receipt → Type 0
Apart r x = str_eq x.receipt_key r.receipt_key ≡ false

-- The rows have different keys.
abbrev pub Distinct : List Receipt → Type 0
Distinct [] = Unit
Distinct (r ∷ rs) = All (Apart r) rs × Distinct rs

module _ (c : String) (now : ℕ) where
  hits_none :
      (r y : Receipt) (t : Outbox)
      → Keyed t
      → fetch_one (has_key r.receipt_key) t ≡ some y
      → y.status ≡ claimed
      → row_count (hit c now r) t ≡ 0
  unfolding is_due
  hits_none r y t u e s =
      row_count-key key_of r.receipt_key (is_due now) t u ∙ ap (found (is_due now)) e ∙ rw s refl

  -- What is claimed already is not returned.
  claim_rows-skips :
      (rs : List Receipt) (t : Outbox) (k : String) (y : Receipt)
      → Keyed t
      → fetch_one (has_key k) t ≡ some y
      → y.status ≡ claimed
      → All (λ (x : Receipt). str_eq x.receipt_key k ≡ false) (claim_rows c now rs t).0
  unfolding claim_rows take_claim
  claim_rows-skips [] t k y u e s = tt
  claim_rows-skips (r ∷ rs) t k y u e s =
      let rest : All (λ (x : Receipt). str_eq x.receipt_key k ≡ false)
          (claim_rows c now rs (update (hit c now r) (take_claim c now) t)).0 =
        claim_rows-skips rs _ k y
          (update-HasUniqueKeys key_of (hit c now r) (take_claim c now) (λ x. refl) t u)
          (claim_rows-stays c now (r ∷ []) t k y s e) s in
      elim (Bool-cases (row_count (hit c now r) t == 1)) [
        | inr n ↦ rw n rest
        | inl n ↦ rw n (
          (elim (Bool-cases (str_eq r.receipt_key k)) [
            | inr d ↦ d
            | inl d ↦
                let same : r.receipt_key ≡ k = (eq_iff r.receipt_key k).0 d in
                let there : fetch_one (has_key r.receipt_key) t ≡ some y = rw same e in
                let g : 0 == 1 ≡ true = rw (hits_none r y t u there s) at n in cc
          ]),
          rest,
        )
      ]

  claim_rows-Distinct :
      (rs : List Receipt) (t : Outbox) → Keyed t → Distinct (claim_rows c now rs t).0
  unfolding claim_rows take_claim get_operation_receipt
  claim_rows-Distinct [] t u = tt
  claim_rows-Distinct (r ∷ rs) t u =
      let u' = update-HasUniqueKeys key_of (hit c now r) (take_claim c now) (λ x. refl) t u in
      let rest = claim_rows-Distinct rs _ u' in
      elim (Bool-cases (row_count (hit c now r) t == 1)) [
        | inr n ↦ rw n rest
        | inl n ↦
            let (y, e, s, i) = take-Owned c now r [] t u n in
            rw n (claim_rows-skips rs _ r.receipt_key y u' e s, rest)
      ]

  map-as_returned-Distinct :
      (rs : List Receipt) → Distinct rs → Distinct (map (as_returned c now) rs)
  unfolding as_returned
  map-as_returned-Distinct [] h = tt
  map-as_returned-Distinct (r ∷ rs) h =
      (All-map_of _ (as_returned c now) rs h.0, map-as_returned-Distinct rs h.1)

pub claim_due-Distinct :
    (limit : ℕ) (key c : Option String) (fresh : String) (now : ℕ) (t : Outbox)
    → Keyed t
    → Distinct (claim_due_operation_receipts limit key c fresh now t).0
unfolding claim_due_operation_receipts
claim_due-Distinct limit key c fresh now t u =
    let t' = expire_leases now t in
    map-as_returned-Distinct (resolve_claim c fresh) now _ (
      claim_rows-Distinct (resolve_claim c fresh) now (select_due limit key now t') t'
        (expire-Keyed now t u))
