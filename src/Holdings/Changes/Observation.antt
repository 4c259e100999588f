-- ===== src/Holdings/Changes/Observation.antt =====
-- `observe` of src/domain/holding_changes.py as a whole, and the plan that it returns.
use portfolio_management.Common.{
  ℕ, String, Bool, true, false, not, ◌||◌, Option, none, some, List, [], ◌∷◌, ◌++◌, if◌then◌else◌,
  str_lt, text_in, is_some, any_of, keep, value_error, Result, ok, ◌>>◌, raise_if,
}
use portfolio_management.Common.Dict.{text_eq, dict_get}
use portfolio_management.Holdings.Changes.{
  Absence, Change, Identity, Problem, Projection, Row, RowState, Rows, absence, among, ids_of,
  known_identity, missing_candidate, row_identity,
}
use portfolio_management.Holdings.Changes.Comparison.{
  Context, Progress, change_of, look_all, snapshot_of,
}

-- the deletions that no new record replaces, of records that were once compared
-- (the code walks the previous ids as a set; here they come in the order of the previous rows)
unfoldable pub deletions : Context → List String → List String → List Change
unfolding change_of
deletions c replaced [] = []
deletions c replaced (rid ∷ rids) =
    let rest = deletions c replaced rids in
    let old = dict_get rid c.previous in
    if text_in rid replaced || not (is_some (snapshot_of old))
    then rest
    else change_of c.now "record_deleted" rid (snapshot_of old) none old none ∷ rest

-- a first absence settles no duplicate case of a related member
abbrev pub identity_at : String → Rows → Identity
identity_at rid states = known (dict_get rid states)
  where
    known : Option Row → Identity
    known none = known_identity none none
    known (some r) = row_identity r

-- `sorted` of distinct texts
abbrev pub insert_text : String → List String → List String
insert_text s [] = s ∷ []
insert_text s (t ∷ ts) = let rest = insert_text s ts in if str_lt s t then s ∷ t ∷ ts else t ∷ rest

abbrev pub sorted_texts : List String → List String
sorted_texts [] = []
sorted_texts (s ∷ ss) = insert_text s (sorted_texts ss)

pub record Plan : Type 0 where
  pub rows : Rows
  pub changes : List Change
  pub problems : List Problem
  pub covered_record_ids : List String
  pub proven_deleted_ids : List String
  pub has_missing_candidates : Bool

abbrev pub is_missing_candidate : RowState → Bool
is_missing_candidate missing_candidate = true
is_missing_candidate _ = false

unfoldable pub plan_of : Context → Progress → Plan
unfolding deletions
plan_of c p = record {
  rows = p.states;
  changes = p.changes ++ deletions c p.replaced c.absent.proven_deleted;
  problems = p.errors;
  covered_record_ids =
      sorted_texts
        (keep (λ rid. not (among (identity_at rid p.states) c.absent.protected)) p.covered);
  proven_deleted_ids = sorted_texts c.absent.proven_deleted;
  has_missing_candidates = any_of (λ x. is_missing_candidate x.1.state) p.states;
}

-- the members of the groups that are eligible somewhere, or known
unfoldable pub is_live_group : List (String × Projection) → Rows → List String → Bool
is_live_group projected previous =
    any_of (λ rid. eligible_at (dict_get rid projected) || is_some (dict_get rid previous))
  where
    eligible_at : Option Projection → Bool
    eligible_at none = false
    eligible_at (some item) = item.eligible

unfoldable pub duplicate_members :
    List (String × Projection) → Rows → List (List String) → List String
unfolding is_live_group
duplicate_members projected previous [] = []
duplicate_members projected previous (group ∷ groups) =
    let rest = duplicate_members projected previous groups in
    if is_live_group projected previous group then group ++ rest else rest

abbrev pub has_repeats : List String → Bool
has_repeats [] = false
has_repeats (s ∷ ss) = text_in s ss || has_repeats ss

unfoldable pub context_of :
    List (String × Projection) → Rows → ℕ → List (List String) → Bool → Context
unfolding duplicate_members absence
context_of projected previous now groups initialize = record {
  now = now;
  previous = previous;
  duplicate_ids = duplicate_members projected previous groups;
  initialize = initialize;
  absent = absence (ids_of projected) now previous;
}

abbrev pub start : Absence → Progress
start absent = record {
  states = absent.rows;
  changes = [];
  errors = [];
  covered = absent.proven_deleted;
  replaced = [];
}

unfoldable pub plan_from : Context → List (String × Projection) → Plan
unfolding look_all plan_of
plan_from c projected = plan_of c (look_all c projected (start c.absent))

-- a record id that is missing, or stands twice
unfoldable pub lacks_ids : List String → Bool
lacks_ids ids = has_repeats ids || text_in "" ids

-- The groups are those of the observation: their members are among its records.
unfoldable pub observe :
    List (String × Projection) → Rows → ℕ → List (List String) → Bool → Result Plan
unfolding lacks_ids context_of plan_from
observe projected previous now groups initialize = do
  raise_if (lacks_ids (ids_of projected))
      (value_error "holdings observation has duplicate or missing record_id")
  ok (plan_from (context_of projected previous now groups initialize) projected)
