-- ===== src/OperationState/ReceiptOutbox/Claims.antt =====
-- Claiming: a dispatcher gets at most its limit of rows, oldest first, and
-- owns each of them; only the owner can begin the send.
use portfolio_management.Common.{
  ℕ, ◌≤◌, ◌≡◌, ◌≢◌, refl, subst, ◌∙◌, inl, inr, ap, String, Bool, true, false, ◌&&◌, Option, none,
  some, List, [], ◌∷◌, arith, All, keep, opt_is, str_eq_refl, All-map_of, length-map, length,
  length-take_le, str_eq, eq_iff, Bool-cases, ◌==◌, ok, err, key_error, map, if◌then◌else◌,
}
use portfolio_management.Common.Table.{update, row_count, fetch_one, order_by}
use portfolio_management.Common.Table.Keys.{
  found, fetch_one_holds, image, row_count-key, fetch_one-update, update-HasUniqueKeys,
}
use portfolio_management.Common.Table.Order.{IsSorted, order_by-IsSorted, take-IsSorted}
use portfolio_management.OperationState.Receipts.{
  is_claimed, Outbox, Receipt, claimed, sending, has_key,
}
use portfolio_management.OperationState.ReceiptOutbox.{
  key_filter, is_due, take_claim, claim_rows, select_due, expire_leases, resolve_claim, as_returned,
  claim_due_operation_receipts, holds_claim, start_send, start_operation_receipt_send,
  get_operation_receipt,
}
use portfolio_management.OperationState.ReceiptOutbox.Keys.{key_of, Keyed, expire-Keyed}

abbrev pub created : Receipt → ℕ
created r = r.created_at

pub claim_rows-stays :
    (c : String) (now : ℕ) (rs : List Receipt) (t : Outbox) (k : String) (y : Receipt)
    → y.status ≡ claimed
    → fetch_one (has_key k) t ≡ some y
    → fetch_one (has_key k) (claim_rows c now rs t).1 ≡ some y
unfolding claim_rows is_due take_claim
claim_rows-stays c now [] t k y s e = e
claim_rows-stays c now (r ∷ rs) t k y s e = claim_rows-stays c now rs _ k y s (
    fetch_one-update key_of (λ x. has_key r.receipt_key x && is_due now x) (take_claim c now)
      (λ x. refl) k t
    ∙ ap (image (λ x. has_key r.receipt_key x && is_due now x) (take_claim c now)) e
    ∙ ground arith)

-- The row under `r`'s key is claimed under `c`.
abbrev pub Owned : String → Outbox → Receipt → Type 0
Owned c t r =
    (r' : Receipt) × (get_operation_receipt r.receipt_key t ≡ some r')
    × (r'.status ≡ claimed)
    × (r'.claim_id ≡ some c)

str_ne : (c d : String) → d ≢ c → str_eq c d ≡ false
str_ne c d n = ground (arith, eq_iff c d)

module _ (c : String) (now : ℕ) where
  abbrev pub hit : Receipt → Receipt → Bool
  hit r x = has_key r.receipt_key x && is_due now x

  take-Owned-found :
      (r : Receipt) (rs : List Receipt) (t : Outbox) (o : Option Receipt)
      → fetch_one (has_key r.receipt_key) t ≡ o
      → (found (is_due now) o == 1) ≡ true
      → Owned c (claim_rows c now (r ∷ rs) t).1 r
  unfolding claim_rows get_operation_receipt take_claim
  take-Owned-found r rs t none f e = cc
  take-Owned-found r rs t (some x) f e = elim (Bool-cases (is_due now x)) [
    | inl d ↦ (
      take_claim c now x,
      claim_rows-stays c now rs _ r.receipt_key (take_claim c now x) refl (
          fetch_one-update key_of (hit r) (take_claim c now) (λ y. refl) r.receipt_key t
          ∙ ap (image (hit r) (take_claim c now)) f
          ∙ rw (fetch_one_holds (has_key r.receipt_key) t f, d) refl),
      refl,
      refl,
    )
    | inr d ↦ let g : (if false then 1 else 0) == 1 ≡ true = rw d at e in cc
  ]

  pub take-Owned :
      (r : Receipt) (rs : List Receipt) (t : Outbox)
      → Keyed t
      → (row_count (hit r) t == 1) ≡ true
      → Owned c (claim_rows c now (r ∷ rs) t).1 r
  take-Owned r rs t u e =
      take-Owned-found r rs t (fetch_one (has_key r.receipt_key) t) refl
        (subst (λ n. (n == 1) ≡ true) (row_count-key key_of r.receipt_key (is_due now) t u) e)

  claim_rows-Owned :
      (rs : List Receipt) (t : Outbox)
      → Keyed t
      → All (Owned c (claim_rows c now rs t).1) (claim_rows c now rs t).0
  unfolding claim_rows take_claim
  claim_rows-Owned [] t u = tt
  claim_rows-Owned (r ∷ rs) t u =
      let rest : All (Owned c (claim_rows c now (r ∷ rs) t).1)
          (claim_rows c now rs (update (hit r) (take_claim c now) t)).0 =
        claim_rows-Owned rs _
          (update-HasUniqueKeys key_of (hit r) (take_claim c now) (λ x. refl) t u) in
      elim (Bool-cases (row_count (hit r) t == 1)) [
        | inl e ↦ rw e (take-Owned r rs t u e, rest)
        | inr e ↦ rw e rest
      ]

  -- what is returned is a part of what was selected, in its order
  claim_rows-All {κ} :
      (P : Receipt → Type κ) (rs : List Receipt) (t : Outbox)
      → All P rs
      → All P (claim_rows c now rs t).0
  unfolding claim_rows
  claim_rows-All P [] t h = tt
  claim_rows-All P (r ∷ rs) t h = elim (Bool-cases (row_count (hit r) t == 1)) [
    | inl e ↦ rw e (h.0, claim_rows-All P rs _ h.1)
    | inr e ↦ rw e (claim_rows-All P rs _ h.1)
  ]

  claim_rows-IsSorted :
      (rs : List Receipt) (t : Outbox)
      → IsSorted created rs
      → IsSorted created (claim_rows c now rs t).0
  unfolding claim_rows
  claim_rows-IsSorted [] t h = tt
  claim_rows-IsSorted (r ∷ rs) t h = elim (Bool-cases (row_count (hit r) t == 1)) [
    | inl e ↦
        rw e (claim_rows-All (λ x. created r ≤ created x) rs _ h.0, claim_rows-IsSorted rs _ h.1)
    | inr e ↦ rw e (claim_rows-IsSorted rs _ h.1)
  ]

  length-claim_rows :
      (rs : List Receipt) (t : Outbox) → length (claim_rows c now rs t).0 ≤ length rs
  unfolding claim_rows
  length-claim_rows [] t = omega arith
  length-claim_rows (r ∷ rs) t = elim (Bool-cases (row_count (hit r) t == 1)) [
    | inl e ↦ rw e (omega (arith, length-claim_rows rs (update (hit r) (take_claim c now) t)))
    | inr e ↦ rw e (omega (arith, length-claim_rows rs (update (hit r) (take_claim c now) t)))
  ]

map-as_returned-IsSorted :
    (c : String) (now : ℕ) (rs : List Receipt)
    → IsSorted created rs
    → IsSorted created (map (as_returned c now) rs)
unfolding as_returned
map-as_returned-IsSorted c now [] h = tt
map-as_returned-IsSorted c now (r ∷ rs) h =
    (All-map_of _ (as_returned c now) rs h.0, map-as_returned-IsSorted c now rs h.1)

-- A dispatcher that claims gets no more rows than it asked for, the oldest first, and in the table
-- each of them is claimed under the dispatcher's claim id.
pub claim_due-Owned :
    (limit : ℕ) (key c : Option String) (fresh : String) (now : ℕ) (t : Outbox)
    → Keyed t
    → let (rows, t') = claim_due_operation_receipts limit key c fresh now t in
      (length rows ≤ limit) × IsSorted created rows × All (Owned (resolve_claim c fresh) t') rows
unfolding claim_due_operation_receipts select_due as_returned
claim_due-Owned limit key c fresh now t u =
    let t' = expire_leases now t in
    let rs = select_due limit key now t' in
    let cid = resolve_claim c fresh in
    (
      rw length-map (
          omega (
            arith,
            length-claim_rows cid now rs t',
            length-take_le {0} limit (order_by created _),
          )),
      map-as_returned-IsSorted cid now _ (
          claim_rows-IsSorted cid now rs t' (
            take-IsSorted created limit _
              (order_by-IsSorted created (keep (λ r. is_due now r && key_filter key r) t')))),
      All-map_of _ (as_returned cid now) _ (claim_rows-Owned cid now rs t' (expire-Keyed now t u)),
    )

module _ (k c : String) (now : ℕ) (t : Outbox) (r : Receipt) (u : Keyed t)
    (e : get_operation_receipt k t ≡ some r) (s : r.status ≡ claimed)
    (i : r.claim_id ≡ some c) where
  pub start_count : (d : String) → row_count (holds_claim k d) t ≡ (if str_eq c d then 1 else 0)
  unfolding holds_claim get_operation_receipt
  start_count d =
      row_count-key key_of k (λ x. is_claimed x.status && opt_is x.claim_id d) t u
      ∙ ap (found (λ x. is_claimed x.status && opt_is x.claim_id d)) e
      ∙ rw (s, i) refl

  pub holder_hit : holds_claim k c r ≡ true
  unfolding holds_claim get_operation_receipt
  holder_hit = rw (fetch_one_holds (has_key k) t e, s, i, str_eq_refl c) refl

  -- The holder of a receipt's claim can begin its send, which leaves the row being sent under the
  -- same claim; with any other claim id the send is refused.
  pub start-exclusive :
      ((t' : Outbox) × (start_operation_receipt_send k c now t ≡ ok t')
        × (r' : Receipt) × (get_operation_receipt k t' ≡ some r')
        × (r'.status ≡ sending)
        × (r'.claim_id ≡ some c))
      × ((d : String)
          → d ≢ c
          → start_operation_receipt_send k d now t
            ≡ err (key_error "operation receipt claim not found"))
  unfolding start_operation_receipt_send get_operation_receipt
  start-exclusive = (
    (
      update (holds_claim k c) (start_send now) t,
      rw (start_count c, str_eq_refl c) refl,
      start_send now r,
      fetch_one-update key_of (holds_claim k c) (start_send now) (λ x. refl) k t
          ∙ ap (image (holds_claim k c) (start_send now)) e
          ∙ rw (holder_hit) refl,
      refl,
      i,
    ),
    λ d n. rw (start_count d, str_ne c d n) refl,
  )
