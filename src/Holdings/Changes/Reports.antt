-- ===== src/Holdings/Changes/Reports.antt =====
-- Every deletion is reported: as such, or by the record that takes the deleted one's place.
use portfolio_management.Common.{
  ℕ, ◌≡◌, refl, sym, ap, subst, ◌∙◌, ◌⊎◌, inl, inr, String, Bool, true, false, not, ◌&&◌, ◌||◌,
  Option, none, some, List, [], ◌∷◌, ◌++◌, Memᴰ, str_eq, eq_iff, text_in, is_some, Bool-cases, ok,
}
use portfolio_management.Common.Dict.{text_eq, dict_get}
use portfolio_management.Holdings.Changes.{Snapshot, Projection, Row, Rows, Change, is_gone}
use portfolio_management.Holdings.Changes.Comparison.{
  Progress, Context, snapshot_of, change_of, exclude, hold, note_changes, compare, look_in, look_at,
  look_all, replaces, problem_of,
}
use portfolio_management.Holdings.Changes.Observation.{
  Plan, deletions, plan_of, plan_from, context_of, start, observe,
}
use portfolio_management.Holdings.Changes.Absences.{observe-plan}
use portfolio_management.Holdings.Changes.Deletions.{sorted_texts-in}

mem-append_left {ℓ} :
    {A : Type ℓ} {a : A} {xs : List A} (ys : List A) → Memᴰ a xs → Memᴰ a (xs ++ ys)
mem-append_left ys (Memᴰ.head e) = Memᴰ.head e
mem-append_left ys (Memᴰ.tail m) = Memᴰ.tail (mem-append_left ys m)

mem-append_right {ℓ} :
    {A : Type ℓ} {a : A} (xs : List A) {ys : List A} → Memᴰ a ys → Memᴰ a (xs ++ ys)
mem-append_right [] m = m
mem-append_right (x ∷ xs) m = Memᴰ.tail (mem-append_right xs m)

text_in_snoc :
    (k s : String) (ss : List String)
    → text_in k (ss ++ s ∷ []) ≡ true
    → (text_in k ss ≡ true) ⊎ (k ≡ s)
text_in_snoc k s [] h = elim (Bool-cases (str_eq k s)) [
  | inl e ↦ inr ((eq_iff k s).0 e)
  | inr e ↦ let g : false || false ≡ true = rw e at h in cc
]
text_in_snoc k s (x ∷ xs) h = elim (Bool-cases (str_eq k x)) [
  | inl e ↦ inl (rw e refl)
  | inr e ↦ elim (text_in_snoc k s xs (rw e at h)) [ inl m ↦ inl (rw e m) | inr same ↦ inr same ]
]

-- A change that reports record `k` as replaced, with the values that were known of it.
abbrev pub Replacement : Context → String → List Change → Type 0
Replacement c k changes =
    (ch : Change) × Memᴰ ch changes
    × (ch.kind ≡ "record_replaced")
    × (ch.previous_record_id ≡ some k)
    × (ch.before ≡ snapshot_of (dict_get k c.previous))

Replacement-append :
    (c : Context) (k : String) (xs ys : List Change)
    → Replacement c k xs
    → Replacement c k (xs ++ ys)
Replacement-append c k xs ys (ch, m, kind, id, before) =
    (ch, mem-append_left ys m, kind, id, before)

-- What the loop notes as replaced, it reports.
abbrev Reports : Context → Progress → Type 0
Reports c p = (k : String) → text_in k p.replaced ≡ true → Replacement c k p.changes

note_changes-Reports :
    (c : Context) (rid : String) (after : Snapshot) (old : Option Row) (o : Option String)
    (p : Progress)
    → Reports c p
    → Reports c (note_changes c rid after old o p)
unfolding note_changes change_of
note_changes-Reports c rid after old none p h k m = elim (Bool-cases c.initialize) [
  | inl e ↦ rw e (h k (rw e at m))
  | inr e ↦ rw e (Replacement-append c k p.changes _ (h k (rw e at m)))
]
note_changes-Reports c rid after old (some predecessor) p h k m =
    elim (text_in_snoc k predecessor p.replaced m) [
      | inl before ↦ Replacement-append c k p.changes _ (h k before)
      | inr same ↦
          (_, mem-append_right p.changes (Memᴰ.head refl), refl, ap some (sym same), rw same refl)
    ]

exclude-Reports :
    (c : Context) (rid : String) (after : Snapshot) (old : Option Row) (p : Progress)
    → Reports c p
    → Reports c (exclude c rid after old p)
unfolding exclude
exclude-Reports c rid after none p h k m = h k m
exclude-Reports c rid after (some old) p h k m =
    elim (Bool-cases (is_some old.snapshot && not (is_gone old.state))) [
      | inl e ↦ rw e (Replacement-append c k p.changes _ (h k (rw e at m)))
      | inr e ↦ rw e (h k (rw e at m))
    ]

look_in-Reports :
    (c : Context) (rid : String) (after : Snapshot) (old : Option Row) (b : Bool)
    (problem : Option String) (p : Progress)
    → Reports c p
    → Reports c (look_in c rid after old b problem p)
unfolding look_in hold compare
look_in-Reports c rid after old true problem p h = exclude-Reports c rid after old p h
look_in-Reports c rid after old false (some reason) p h = h
look_in-Reports c rid after old false none p h =
    note_changes-Reports c rid after old (replaces c after (snapshot_of old))
      (record p { covered = p.covered ++ rid ∷ [] }) h

look_all-Reports :
    (c : Context) (items : List (String × Projection)) (p : Progress)
    → Reports c p
    → Reports c (look_all c items p)
unfolding look_all look_at
look_all-Reports c [] p h = h
look_all-Reports c ((rid, item) ∷ rest) p h = look_all-Reports c rest _ (
    look_in-Reports c rid item.snapshot (dict_get rid c.previous) item.excluded
      (problem_of c rid item) p h)

-- A change that reports record `k` as deleted, with the values that were known of it.
abbrev pub Deletion : Context → String → List Change → Type 0
Deletion c k changes =
    (ch : Change) × Memᴰ ch changes
    × (ch.kind ≡ "record_deleted")
    × (ch.record_id ≡ k)
    × (ch.before ≡ snapshot_of (dict_get k c.previous))

deletions-has :
    (c : Context) (replaced ids : List String) (k : String)
    → text_in k ids ≡ true
    → text_in k replaced ≡ false
    → is_some (snapshot_of (dict_get k c.previous)) ≡ true
    → Deletion c k (deletions c replaced ids)
unfolding deletions change_of
deletions-has c replaced [] k m n s = cc
deletions-has c replaced (rid ∷ ids) k m n s = elim (Bool-cases (str_eq k rid)) [
  | inl e ↦
      let same : k ≡ rid = (eq_iff k rid).0 e in
      rw (← same, n, s) (_, Memᴰ.head refl, refl, refl, refl)
  | inr e ↦
      let (ch, there, kind, id, before) = deletions-has c replaced ids k (rw e at m) n s in
      elim (Bool-cases
        (text_in rid replaced || not (is_some (snapshot_of (dict_get rid c.previous))))) [
          | inl d ↦ rw d (ch, there, kind, id, before)
          | inr d ↦ rw d (ch, Memᴰ.tail there, kind, id, before)
        ]
]

-- Every record that a plan gives as proven deleted, and of which values were known, is in its
-- changes with these values: as deleted, or as the record that another one replaces.
pub deleted-reported :
    (items : List (String × Projection)) (previous : Rows) (now : ℕ) (groups : List (List String))
    (initialize : Bool) (plan : Plan) (k : String)
    → observe items previous now groups initialize ≡ ok plan
    → text_in k plan.proven_deleted_ids ≡ true
    → is_some (snapshot_of (dict_get k previous)) ≡ true
    → let c = context_of items previous now groups initialize in
      Deletion c k plan.changes ⊎ Replacement c k plan.changes
unfolding plan_from plan_of context_of
deleted-reported items previous now groups initialize plan k returns m s =
    let c = context_of items previous now groups initialize in
    let p = look_all c items (start c.absent) in
    let same : plan_from c items ≡ plan =
      observe-plan items previous now groups initialize plan returns in
    let listed : text_in k c.absent.proven_deleted ≡ true =
      sym (sorted_texts-in k c.absent.proven_deleted)
      ∙ ap (λ (q : Plan). text_in k q.proven_deleted_ids) same
      ∙ m in
    subst (λ (q : Plan). Deletion c k q.changes ⊎ Replacement c k q.changes) same
      (elim (Bool-cases (text_in k p.replaced)) [
        | inl e ↦ inr (
            Replacement-append c k p.changes _
              (look_all-Reports c items (start c.absent) (λ j n. cc) k e))
        | inr e ↦
            let (ch, there, kind, id, before) =
              deletions-has c p.replaced c.absent.proven_deleted k listed e s in
            inl (ch, mem-append_right p.changes there, kind, id, before)
      ])
