-- ===== src/Holdings/Changes/Presences.antt =====
-- A record that an observation holds: what becomes of its row.
use portfolio_management.Common.{
  ℕ, ◌≡◌, refl, sym, ap, ◌∙◌, subst, if◌then◌else◌, inl, inr, String, Bool, true, false, Option,
  none, some, List, [], ◌∷◌, Memᴰ, arith, str_eq_refl, text_in, Bool-cases, or_false, value_error,
  Result, ok, err,
}
use portfolio_management.Common.Dict.{text_eq, dict_get, dict_set, dict_get-set}
use portfolio_management.Holdings.Changes.{
  Projection, Row, Rows, active, among, gap, identity, ids_of,
}
use portfolio_management.Holdings.Changes.Comparison.{
  Context, Progress, compare, gap_row, hold, look_all, look_at, look_in, new_row, observed_of,
  problem_of, snapshot_of,
}
use portfolio_management.Holdings.Changes.Observation.{
  Plan, context_of, has_repeats, lacks_ids, observe, plan_from, plan_of, start,
}
use portfolio_management.Holdings.Changes.Absences.{row_at, look_all-other, observe-plan}

-- The row of a record that was looked at, with or without a problem.
unfoldable pub seen_row : Context → String → Projection → Option String → Row
unfolding new_row gap_row
seen_row c rid item none = new_row active item.snapshot c.now
seen_row c rid item (some reason) =
    let old = dict_get rid c.previous in
    gap_row (snapshot_of old) (observed_of old) reason item.snapshot

set_same : (k : String) (r : Row) (rows : Rows) → row_at k (dict_set k r rows) ≡ some r
set_same k r rows = rw (dict_get-set k k r rows, str_eq_refl k) refl

look_in-seen :
    (c : Context) (k : String) (item : Projection) (problem : Option String) (p : Progress)
    → row_at k (look_in c k item.snapshot (dict_get k c.previous) false problem p).states
      ≡ some (seen_row c k item problem)
unfolding look_in hold compare seen_row
look_in-seen c k item none p = set_same k _ _
look_in-seen c k item (some reason) p = set_same k _ _

look_at-seen :
    (c : Context) (k : String) (item : Projection) (p : Progress)
    → item.excluded ≡ false
    → row_at k (look_at c k item p).states ≡ some (seen_row c k item (problem_of c k item))
unfolding look_at
look_at-seen c k item p included =
    ap
      (λ b.
        row_at k
          (look_in c k item.snapshot (dict_get k c.previous) b (problem_of c k item) p).states)
      included
    ∙ look_in-seen c k item (problem_of c k item) p

mem-id :
    (k : String) (item : Projection) (items : List (String × Projection))
    → Memᴰ (k, item) items
    → text_in k (ids_of items) ≡ true
mem-id k item [] m = elim m [ ]
mem-id k item (x ∷ xs) (Memᴰ.head e) = rw (← ap (λ y. y.0) e, str_eq_refl k) refl
mem-id k item (x ∷ xs) (Memᴰ.tail m) =
    let there : text_in k (ids_of xs) ≡ true = mem-id k item xs m in ground arith

look_all-seen :
    (c : Context) (k : String) (item : Projection) (items : List (String × Projection))
    (p : Progress)
    → Memᴰ (k, item) items
    → has_repeats (ids_of items) ≡ false
    → item.excluded ≡ false
    → row_at k (look_all c items p).states ≡ some (seen_row c k item (problem_of c k item))
unfolding look_all
look_all-seen c k item [] p m once included = elim m [ ]
look_all-seen c k item ((rid, i) ∷ rest) p (Memᴰ.tail m) once included =
    look_all-seen c k item rest (look_at c rid i p) m (or_false once).1 included
look_all-seen c k item ((rid, i) ∷ rest) p (Memᴰ.head e) once included =
    let same_id : k ≡ rid = ap (λ y. y.0) e in
    let same_item : item ≡ i = ap (λ y. y.1) e in
    let out : text_in k (ids_of rest) ≡ false = rw same_id (or_false once).0 in
    look_all-other c k rest (look_at c rid i p) out
    ∙ rw (← same_id, ← same_item) (look_at-seen c k item p included)

-- Where an observation returns a plan, no id stands twice.
observe-ids :
    (items : List (String × Projection)) (previous : Rows) (now : ℕ) (groups : List (List String))
    (initialize : Bool) (plan : Plan)
    → observe items previous now groups initialize ≡ ok plan
    → has_repeats (ids_of items) ≡ false
unfolding observe lacks_ids
observe-ids items previous now groups initialize plan returns =
    elim (Bool-cases (has_repeats (ids_of items))) [
      | inr e ↦ e
      | inl e ↦
          let g : ◌≡◌ {A = Result Plan}
              (err (value_error "holdings observation has duplicate or missing record_id"))
              (ok plan) =
            rw e at returns in
          cc
    ]

observe-row :
    (items : List (String × Projection)) (previous : Rows) (now : ℕ) (groups : List (List String))
    (initialize : Bool) (plan : Plan) (k : String) (item : Projection)
    → observe items previous now groups initialize ≡ ok plan
    → Memᴰ (k, item) items
    → item.excluded ≡ false
    → let c = context_of items previous now groups initialize in
      row_at k plan.rows ≡ some (seen_row c k item (problem_of c k item))
unfolding plan_from plan_of
observe-row items previous now groups initialize plan k item returns m included =
    let c = context_of items previous now groups initialize in
    ap (λ (p : Plan). row_at k p.rows)
      (sym (observe-plan items previous now groups initialize plan returns))
    ∙ look_all-seen c k item items (start c.absent) m
        (observe-ids items previous now groups initialize plan returns) included

-- The row is a gap for the reason, beside the last comparison.
pub record IsGap (previous : Rows) (k : String) (item : Projection) (reason : String) (r : Row)
    : Type 0 where
  pub is_gap_row : r.state ≡ gap
  pub keeps_values : r.snapshot ≡ snapshot_of (dict_get k previous)
  pub keeps_time : r.observed_at ≡ observed_of (dict_get k previous)
  pub has_reason : r.reason ≡ some reason
  pub notes_values : r.current ≡ some item.snapshot

-- The row is active with what was observed.
pub record IsActive (item : Projection) (now : ℕ) (r : Row) : Type 0 where
  pub is_active_row : r.state ≡ active
  pub has_values : r.snapshot ≡ some item.snapshot
  pub has_time : r.observed_at ≡ some now
  pub no_reason : r.reason ≡ none

module _ (c : Context) (k : String) (item : Projection) where
  held :
      (reason : String)
      → problem_of c k item ≡ some reason
      → IsGap c.previous k item reason (seen_row c k item (problem_of c k item))
  unfolding seen_row gap_row
  held reason e =
      subst (λ o. IsGap c.previous k item reason (seen_row c k item o)) (sym e)
        (record {
          is_gap_row = refl;
          keeps_values = refl;
          keeps_time = refl;
          has_reason = refl;
          notes_values = refl;
        })

  free : problem_of c k item ≡ none → IsActive item c.now (seen_row c k item (problem_of c k item))
  unfolding seen_row new_row
  free e =
      subst (λ o. IsActive item c.now (seen_row c k item o)) (sym e)
        (record { is_active_row = refl; has_values = refl; has_time = refl; no_reason = refl })

  own_reason :
      (own : String)
      → (if text_in k c.duplicate_ids then some "duplicate_identity" else item.reason) ≡ some own
      → problem_of c k item ≡ some own
  unfolding problem_of
  own_reason own e = elim (Bool-cases (among (identity item.snapshot) c.absent.protected)) [
    | inl g ↦ rw (g, e) refl
    | inr g ↦ rw (g, e) refl
  ]

  duplicate_first :
      text_in k c.duplicate_ids ≡ true → problem_of c k item ≡ some "duplicate_identity"
  duplicate_first d = own_reason "duplicate_identity" (rw d refl)

  own_first :
      (own : String)
      → text_in k c.duplicate_ids ≡ false
      → item.reason ≡ some own
      → problem_of c k item ≡ some own
  own_first own d e = own_reason own (rw d e)

-- An observed record that the policy does not exclude is active with the observed values and time if
-- it shares no identity with another, its projection has no reason and no missing record protects its
-- identity. Else its row is a gap, which keeps the values of the last comparison and their time and
-- notes the observed values beside them, with a reason: `duplicate_identity` before that of the
-- projection, and that before `missing_group_member`.
pub observe-seen :
    (items : List (String × Projection)) (previous : Rows) (now : ℕ) (groups : List (List String))
    (initialize : Bool) (plan : Plan) (k : String) (item : Projection)
    → observe items previous now groups initialize ≡ ok plan
    → Memᴰ (k, item) items
    → item.excluded ≡ false
    → let c = context_of items previous now groups initialize in
      (r : Row) × (row_at k plan.rows ≡ some r)
      × (text_in k c.duplicate_ids ≡ true → IsGap previous k item "duplicate_identity" r)
      × ((own : String)
          → text_in k c.duplicate_ids ≡ false
          → item.reason ≡ some own
          → IsGap previous k item own r)
      × (text_in k c.duplicate_ids ≡ false
          → item.reason ≡ none
          → among (identity item.snapshot) c.absent.protected ≡ true
          → IsGap previous k item "missing_group_member" r)
      × (text_in k c.duplicate_ids ≡ false
          → item.reason ≡ none
          → among (identity item.snapshot) c.absent.protected ≡ false
          → IsActive item now r)
unfolding problem_of context_of
observe-seen items previous now groups initialize plan k item returns m included =
    let c = context_of items previous now groups initialize in
    (
      seen_row c k item (problem_of c k item),
      observe-row items previous now groups initialize plan k item returns m included,
      (λ d. held c k item "duplicate_identity" (duplicate_first c k item d)),
      (λ own d e. held c k item own (own_first c k item own d e)),
      (λ d e g. held c k item "missing_group_member" (rw (d, e, g) refl)),
      (λ d e g. free c k item (rw (d, e, g) refl)),
    )
