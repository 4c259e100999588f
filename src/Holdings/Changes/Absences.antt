-- ===== src/Holdings/Changes/Absences.antt =====
-- A record that an observation misses: what becomes of its row, and that a deletion takes two reads.
use portfolio_management.Common.{
  ℕ, ◌+◌, ◌≤◌, ◌<◌, ◌≡◌, refl, sym, ap, ◌∙◌, inl, inr, String, Bool, true, false, not, ◌&&◌, Option,
  none, some, List, [], ◌∷◌, map, arith, leb, str_eq, eq_iff, text_in, is_some, Bool-cases,
  or_false, value_error, Result, ok, err,
}
use portfolio_management.Common.Dict.{text_eq, dict_get, dict_set, dict_get-set}
use portfolio_management.Holdings.Changes.{
  Projection, Row, Rows, Snapshot, absence, absent_of, absent_row, confirmation_delay, deleted,
  ids_of, is_gone, missing_candidate,
}
use portfolio_management.Holdings.Changes.Comparison.{
  Context, Progress, compare, exclude, hold, look_all, look_at, look_in, note_changes, problem_of,
}
use portfolio_management.Holdings.Changes.Observation.{
  Plan, context_of, lacks_ids, observe, plan_from, plan_of, start,
}

abbrev pub row_at : String → Rows → Option Row
row_at k rows = dict_get k rows

-- Another record's row is not written.
set_other :
    (k rid : String) (r : Row) (rows : Rows)
    → str_eq rid k ≡ false
    → row_at k (dict_set rid r rows) ≡ row_at k rows
set_other k rid r rows h = rw (dict_get-set rid k r rows, h) refl

note_changes-states :
    (c : Context) (rid : String) (after : Snapshot) (old : Option Row) (o : Option String)
    (p : Progress)
    → (note_changes c rid after old o p).states ≡ p.states
unfolding note_changes
note_changes-states c rid after old (some x) p = refl
note_changes-states c rid after old none p = elim (Bool-cases c.initialize) [
  | inl e ↦ rw e refl
  | inr e ↦ rw e refl
]

exclude-other :
    (c : Context) (k rid : String) (after : Snapshot) (old : Option Row) (p : Progress)
    → str_eq rid k ≡ false
    → row_at k (exclude c rid after old p).states ≡ row_at k p.states
unfolding exclude
exclude-other c k rid after none p h = refl
exclude-other c k rid after (some old) p h =
    elim (Bool-cases (is_some old.snapshot && not (is_gone old.state))) [
      | inl e ↦ rw e (set_other k rid _ p.states h)
      | inr e ↦ rw e (set_other k rid old p.states h)
    ]

look_in-other :
    (c : Context) (k rid : String) (after : Snapshot) (old : Option Row) (b : Bool)
    (problem : Option String) (p : Progress)
    → str_eq rid k ≡ false
    → row_at k (look_in c rid after old b problem p).states ≡ row_at k p.states
unfolding look_in hold compare
look_in-other c k rid after old true problem p h = exclude-other c k rid after old p h
look_in-other c k rid after old false (some reason) p h = set_other k rid _ p.states h
look_in-other c k rid after old false none p h =
    set_other k rid _ _ h ∙ ap (row_at k) (note_changes-states c rid after old _ _)

pub not_in_tail :
    (k : String) (s : String) (ss : List String)
    → text_in k (s ∷ ss) ≡ false
    → (str_eq s k ≡ false) × (text_in k ss ≡ false)
not_in_tail k s ss h = (
  (elim (Bool-cases (str_eq s k)) [
    | inr e ↦ e
    | inl e ↦
        let same : s ≡ k = (eq_iff s k).0 e in
        let there : str_eq k s ≡ true = (eq_iff k s).1 (sym same) in
        let apart : str_eq k s ≡ false = (or_false h).0 in cc
  ]),
  (or_false h).1,
)

pub look_all-other :
    (c : Context) (k : String) (items : List (String × Projection)) (p : Progress)
    → text_in k (ids_of items) ≡ false
    → row_at k (look_all c items p).states ≡ row_at k p.states
unfolding look_all look_at
look_all-other c k [] p h = refl
look_all-other c k ((rid, item) ∷ rest) p h =
    look_all-other c k rest _ (not_in_tail k rid (ids_of rest) h).1
    ∙ look_in-other c k rid item.snapshot (dict_get rid c.previous) item.excluded
        (problem_of c rid item) p (not_in_tail k rid (ids_of rest) h).0

abbrev map_row : (Row → Row) → Option Row → Option Row
map_row f none = none
map_row f (some r) = some (f r)

absent-rows :
    (raw : List String) (now : ℕ) (k : String) (previous : Rows)
    → text_in k raw ≡ false
    → row_at k (map (λ x. (x.0, absent_row now x.1)) (absent_of raw previous))
      ≡ map_row (absent_row now) (row_at k previous)
unfolding absent_of
absent-rows raw now k [] h = refl
absent-rows raw now k ((rid, old) ∷ rest) h = elim (Bool-cases (str_eq rid k)) [
  | inl e ↦
      let same : rid ≡ k = (eq_iff rid k).0 e in
      let out : text_in rid raw ≡ false = rw same h in rw (out, e) refl
  | inr e ↦ elim (Bool-cases (text_in rid raw)) [
    | inl i ↦ rw (i, e) (absent-rows raw now k rest h)
    | inr i ↦ rw (i, e) (absent-rows raw now k rest h)
  ]
]

pub observe-plan :
    (items : List (String × Projection)) (previous : Rows) (now : ℕ) (groups : List (List String))
    (initialize : Bool) (plan : Plan)
    → observe items previous now groups initialize ≡ ok plan
    → plan_from (context_of items previous now groups initialize) items ≡ plan
unfolding observe
observe-plan items previous now groups initialize plan returns =
    elim (Bool-cases (lacks_ids (ids_of items))) [
      | inl e ↦
          let g : ◌≡◌ {A = Result Plan}
              (err (value_error "holdings observation has duplicate or missing record_id"))
              (ok plan) =
            rw e at returns in
          cc
      | inr e ↦
          let g : ◌≡◌ {A = Result Plan}
              (ok (plan_from (context_of items previous now groups initialize) items)) (ok plan) =
            rw e at returns in
          cc
    ]

module _ (items : List (String × Projection)) (previous : Rows) (now : ℕ)
    (groups : List (List String)) (initialize : Bool) (plan : Plan)
    (returns : observe items previous now groups initialize ≡ ok plan) where
  -- The row of a record that was known and is not among the observed ones is what `absent_row`
  -- says, whatever else the observation holds.
  pub observe-absent :
      (k : String) (old : Row)
      → text_in k (ids_of items) ≡ false
      → row_at k previous ≡ some old
      → row_at k plan.rows ≡ some (absent_row now old)
  unfolding plan_from plan_of context_of absence
  observe-absent k old out known =
      let c = context_of items previous now groups initialize in
      ap (λ (p : Plan). row_at k p.rows)
        (sym (observe-plan items previous now groups initialize plan returns))
      ∙ look_all-other c k items (start c.absent) out
      ∙ absent-rows (ids_of items) now k previous out
      ∙ rw known refl

first_missed :
    (now : ℕ) (old : Row)
    → is_gone old.state ≡ false
    → old.missing_since ≡ none
    → absent_row now old ≡ record old {
      state = missing_candidate;
      missing_since = some now;
      reason = some "record_absent";
    }
unfolding absent_row
first_missed now old known never = rw (known, never) refl

confirmed :
    (first now : ℕ) (old : Row)
    → is_gone old.state ≡ false
    → old.missing_since ≡ some first
    → first + confirmation_delay ≤ now
    → (absent_row now old).state ≡ deleted
unfolding absent_row
confirmed first now old known since late =
    let late_enough : leb (first + confirmation_delay) now ≡ true = ground arith in
    rw (known, since, late_enough) refl

waits_on :
    (first now : ℕ) (old : Row)
    → is_gone old.state ≡ false
    → old.missing_since ≡ some first
    → now < first + confirmation_delay
    → ((absent_row now old).state ≡ missing_candidate)
      × ((absent_row now old).missing_since ≡ some first)
unfolding absent_row
waits_on first now old known since early =
    let too_early : leb (first + confirmation_delay) now ≡ false = ground arith in
    (rw (known, since, too_early) refl, rw (known, since, too_early) refl)

-- A known record that two successive observations miss is a candidate after the first, with its
-- time, and after the second it is deleted if at least two seconds have passed since then, and a
-- candidate since the first observation if not.
pub absent-twice :
    (items : List (String × Projection)) (previous : Rows) (now : ℕ) (groups : List (List String))
    (initialize : Bool) (plan : Plan) (items' : List (String × Projection)) (later : ℕ)
    (groups' : List (List String)) (initialize' : Bool) (plan' : Plan) (k : String) (old : Row)
    → observe items previous now groups initialize ≡ ok plan
    → observe items' plan.rows later groups' initialize' ≡ ok plan'
    → text_in k (ids_of items) ≡ false
    → text_in k (ids_of items') ≡ false
    → row_at k previous ≡ some old
    → is_gone old.state ≡ false
    → old.missing_since ≡ none
    → (r : Row) × (row_at k plan.rows ≡ some r)
      × (r.state ≡ missing_candidate)
      × (r.missing_since ≡ some now)
      × (r' : Row) × (row_at k plan'.rows ≡ some r')
      × (now + confirmation_delay ≤ later → r'.state ≡ deleted)
      × (later < now + confirmation_delay
          → (r'.state ≡ missing_candidate) × (r'.missing_since ≡ some now))
absent-twice items previous now groups initialize plan items' later groups' initialize' plan' k old
      returns returns' out out' known stays never =
    let r : Row = record old {
      state = missing_candidate;
      missing_since = some now;
      reason = some "record_absent";
    } in
    let at_first : row_at k plan.rows ≡ some r =
      observe-absent items previous now groups initialize plan returns k old out known
      ∙ ap some (first_missed now old stays never) in
    (
      r,
      at_first,
      refl,
      refl,
      absent_row later r,
      observe-absent items' plan.rows later groups' initialize' plan' returns' k r out' at_first,
      (λ late. confirmed now later r refl refl late),
      (λ early. waits_on now later r refl refl early),
    )
