-- ===== src/Holdings/Changes/Deletions.antt =====
-- The records that an observation proves deleted.
use portfolio_management.Common.{
  ℕ, ◌+◌, ◌≤◌, ◌≡◌, refl, sym, ap, ◌∙◌, subst, inl, inr, String, Bool, true, false, not, ◌||◌,
  Option, none, some, List, [], ◌∷◌, Memᴰ, arith, str_eq, str_lt, eq_iff, text_in, keep, Bool-cases,
  and_true, ok,
}
use portfolio_management.Holdings.Changes.{
  Projection, Row, Rows, absence, absent_of, confirmation_delay, ids_of, is_confirmed, is_gone,
  newly_deleted,
}
use portfolio_management.Holdings.Changes.Observation.{
  Plan, context_of, insert_text, observe, plan_from, plan_of, sorted_texts,
}
use portfolio_management.Holdings.Changes.Absences.{observe-plan}

swap_or : (a b c : Bool) → (a || (b || c)) ≡ (b || (a || c))
swap_or a b c = ground arith

insert_text-in :
    (k s : String) (ts : List String) → text_in k (insert_text s ts) ≡ (str_eq k s || text_in k ts)
insert_text-in k s [] = refl
insert_text-in k s (t ∷ ts) = elim (Bool-cases (str_lt s t)) [
  | inl e ↦ rw e refl
  | inr e ↦ rw (e, insert_text-in k s ts) (swap_or (str_eq k t) (str_eq k s) (text_in k ts))
]

pub sorted_texts-in : (k : String) (ss : List String) → text_in k (sorted_texts ss) ≡ text_in k ss
sorted_texts-in k [] = refl
sorted_texts-in k (s ∷ ss) =
    insert_text-in k s (sorted_texts ss) ∙ ap (λ b. str_eq k s || b) (sorted_texts-in k ss)

-- What a record that is proven deleted was.
abbrev pub IsConfirmed : List String → Rows → ℕ → String → Type 0
IsConfirmed raw previous now k =
    (old : Row) × Memᴰ (k, old) previous
    × (text_in k raw ≡ false)
    × (is_gone old.state ≡ false)
    × (first : ℕ) × (old.missing_since ≡ some first)
    × (first + confirmation_delay ≤ now)

confirmed_by :
    (since : Option ℕ) (now : ℕ)
    → is_confirmed since now ≡ true
    → (first : ℕ) × (since ≡ some first) × (first + confirmation_delay ≤ now)
confirmed_by none now h = cc
confirmed_by (some first) now h = (first, refl, ground arith)

later_row :
    (raw : List String) (x : String × Row) (previous : Rows) (now : ℕ) (k : String)
    → IsConfirmed raw previous now k
    → IsConfirmed raw (x ∷ previous) now k
later_row raw x previous now k (old, m, out, stays, first, since, late) =
    (old, Memᴰ.tail m, out, stays, first, since, late)

deleted_here :
    (raw : List String) (rid : String) (old : Row) (previous : Rows) (now : ℕ)
    → text_in rid raw ≡ false
    → newly_deleted now old ≡ true
    → IsConfirmed raw ((rid, old) ∷ previous) now rid
deleted_here raw rid old previous now out h =
    let both : (not (is_gone old.state) ≡ true) × (is_confirmed old.missing_since now ≡ true) =
      and_true h in
    let stays : is_gone old.state ≡ false = ground arith in
    let (first, since, late) = confirmed_by old.missing_since now both.1 in
    (old, Memᴰ.head refl, out, stays, first, since, late)

proven-IsConfirmed :
    (raw : List String) (now : ℕ) (k : String) (previous : Rows)
    → text_in k (ids_of (keep (λ x. newly_deleted now x.1) (absent_of raw previous))) ≡ true
    → IsConfirmed raw previous now k
unfolding absent_of
proven-IsConfirmed raw now k [] h = cc
proven-IsConfirmed raw now k ((rid, old) ∷ rest) h = elim (Bool-cases (text_in rid raw)) [
  | inl i ↦ later_row raw (rid, old) rest now k (proven-IsConfirmed raw now k rest (rw i at h))
  | inr i ↦ elim (Bool-cases (newly_deleted now old)) [
    | inr d ↦
        later_row raw (rid, old) rest now k (proven-IsConfirmed raw now k rest (rw (i, d) at h))
    | inl d ↦
        let g : (str_eq k rid
              || text_in k (ids_of (keep (λ x. newly_deleted now x.1) (absent_of raw rest))))
            ≡ true =
          rw (i, d) at h in
        elim (Bool-cases (str_eq k rid)) [
          | inl e ↦
              subst (IsConfirmed raw ((rid, old) ∷ rest) now) (sym ((eq_iff k rid).0 e))
                (deleted_here raw rid old rest now i d)
          | inr e ↦
              later_row raw (rid, old) rest now k (proven-IsConfirmed raw now k rest (rw e at g))
        ]
  ]
]

-- A record that a plan gives as proven deleted is not among the observed ones; it was known, not
-- as deleted or out of scope, and an earlier observation, two seconds ago or more, missed it first.
pub proven_deleted-IsConfirmed :
    (items : List (String × Projection)) (previous : Rows) (now : ℕ) (groups : List (List String))
    (initialize : Bool) (plan : Plan) (k : String)
    → observe items previous now groups initialize ≡ ok plan
    → text_in k plan.proven_deleted_ids ≡ true
    → IsConfirmed (ids_of items) previous now k
unfolding plan_from plan_of context_of absence
proven_deleted-IsConfirmed items previous now groups initialize plan k returns h =
    let same : plan_from (context_of items previous now groups initialize) items ≡ plan =
      observe-plan items previous now groups initialize plan returns in
    let proven = ids_of (keep (λ x. newly_deleted now x.1) (absent_of (ids_of items) previous)) in
    let listed : text_in k (sorted_texts proven) ≡ true =
      ap (λ (p : Plan). text_in k p.proven_deleted_ids) same ∙ h in
    proven-IsConfirmed (ids_of items) now k previous (sym (sorted_texts-in k proven) ∙ listed)
