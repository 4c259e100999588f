-- ===== src/Tests/Changes.antt =====
-- Runs of the comparison of holdings at concrete inputs.
use portfolio_management.Holdings.Changes.Reports.{Deletion, Replacement, deleted-reported}
use portfolio_management.Common.{
  text_in, map, ◌⊎◌, ◌≡◌, refl, String, false, none, some, List, [], ◌∷◌, Memᴰ, ok, ◌≤◌, ◌<◌, ◌+◌,
  true,
}
use portfolio_management.Holdings.Changes.{
  identity, among, Change, Projection, Row, Rows, Snapshot, active, confirmation_delay, deleted,
  missing_candidate,
}
use portfolio_management.Holdings.Changes.Comparison.{Context, problem_of}
use portfolio_management.Holdings.Changes.Observation.{Plan, context_of, observe, plan_from}
use portfolio_management.Holdings.Changes.Absences.{row_at, absent-twice}
use portfolio_management.Holdings.Changes.Deletions.{IsConfirmed, proven_deleted-IsConfirmed}
use portfolio_management.Holdings.Changes.Presences.{IsGap, IsActive, observe-seen}

abbrev fund : Snapshot
fund = record {
  asset_id = "000300";
  account = "main";
  broker = "bank";
  asset_type = "fund";
  currency = "CNY";
  asset_name = none;
  quantity = some "12.5";
  avg_cost = none;
}

abbrev known : Row
known = record {
  state = active;
  snapshot = some fund;
  observed_at = some 5;
  reason = none;
  missing_since = none;
  current = none;
}

abbrev rows : Rows
rows = ("rec-1", known) ∷ []

abbrev candidate : Row
candidate = record known {
  state = missing_candidate;
  missing_since = some 10;
  reason = some "record_absent";
}

-- a plan without changes
abbrev quiet : Rows → Plan
quiet states = record {
  rows = states;
  changes = [];
  problems = [];
  covered_record_ids = [];
  proven_deleted_ids = [];
  has_missing_candidates = true;
}

abbrev first_plan : Plan
first_plan = quiet (("rec-1", candidate) ∷ [])

abbrev gone : Row
gone = record known { state = deleted; missing_since = none; reason = none }

abbrev deletion : Change
deletion = record {
  kind = "record_deleted";
  record_id = "rec-1";
  before = some fund;
  after = none;
  previous_observed_at = some 5;
  observed_at = 2_000_010;
  after_gap = false;
  previous_record_id = none;
}

abbrev pub second_plan : Plan
second_plan = record {
  rows = ("rec-1", gone) ∷ [];
  changes = deletion ∷ [];
  problems = [];
  covered_record_ids = "rec-1" ∷ [];
  proven_deleted_ids = "rec-1" ∷ [];
  has_missing_candidates = false;
}

first_observation : observe [] rows 10 [] false ≡ ok first_plan
unfolding observe
first_observation = refl

second_observation : observe [] first_plan.rows 2_000_010 [] false ≡ ok second_plan
unfolding observe
second_observation = refl

absent-twice_example :
    (r : Row) × (row_at "rec-1" first_plan.rows ≡ some r)
    × (r.state ≡ missing_candidate)
    × (r.missing_since ≡ some 10)
    × (r' : Row) × (row_at "rec-1" second_plan.rows ≡ some r')
    × (10 + confirmation_delay ≤ 2_000_010 → r'.state ≡ deleted)
    × (2_000_010 < 10 + confirmation_delay
        → (r'.state ≡ missing_candidate) × (r'.missing_since ≡ some 10))
absent-twice_example =
    absent-twice [] rows 10 [] false first_plan [] 2_000_010 [] false second_plan "rec-1" known
      first_observation second_observation refl refl refl refl refl

proven_deleted-IsConfirmed_example : IsConfirmed [] first_plan.rows 2_000_010 "rec-1"
proven_deleted-IsConfirmed_example =
    proven_deleted-IsConfirmed [] first_plan.rows 2_000_010 [] false second_plan "rec-1"
      second_observation refl

abbrev seen : Projection
seen = record {
  snapshot = record fund { quantity = some "0" };
  eligible = true;
  excluded = false;
  reason = none;
}

-- A record with the identity of one that may be missing is held back.
abbrev held_plan : List (String × Projection) → Plan
held_plan items = plan_from (context_of items rows 10 [] false) items

held_observation :
    observe (("rec-2", seen) ∷ []) rows 10 [] false ≡ ok (held_plan (("rec-2", seen) ∷ []))
unfolding observe
held_observation = refl

abbrev seen_context : Context
seen_context = context_of (("rec-2", seen) ∷ []) rows 10 [] false

observe-seen_example :
    (r : Row) × (row_at "rec-2" (held_plan (("rec-2", seen) ∷ [])).rows ≡ some r)
    × (text_in "rec-2" seen_context.duplicate_ids ≡ true
        → IsGap rows "rec-2" seen "duplicate_identity" r)
    × ((own : String)
        → text_in "rec-2" seen_context.duplicate_ids ≡ false
        → seen.reason ≡ some own
        → IsGap rows "rec-2" seen own r)
    × (text_in "rec-2" seen_context.duplicate_ids ≡ false
        → seen.reason ≡ none
        → among (identity seen.snapshot) seen_context.absent.protected ≡ true
        → IsGap rows "rec-2" seen "missing_group_member" r)
    × (text_in "rec-2" seen_context.duplicate_ids ≡ false
        → seen.reason ≡ none
        → among (identity seen.snapshot) seen_context.absent.protected ≡ false
        → IsActive seen 10 r)
observe-seen_example =
    observe-seen (("rec-2", seen) ∷ []) rows 10 [] false (held_plan (("rec-2", seen) ∷ [])) "rec-2"
      seen held_observation (Memᴰ.head refl) refl

held_reason :
    problem_of (context_of (("rec-2", seen) ∷ []) rows 10 [] false) "rec-2" seen
    ≡ some "missing_group_member"
unfolding problem_of context_of
held_reason = refl

deleted-reported_example :
    Deletion (context_of [] first_plan.rows 2_000_010 [] false) "rec-1" second_plan.changes
    ⊎ Replacement (context_of [] first_plan.rows 2_000_010 [] false) "rec-1" second_plan.changes
deleted-reported_example =
    deleted-reported [] first_plan.rows 2_000_010 [] false second_plan "rec-1" second_observation
      refl refl

-- A record with the identity of the deleted one takes its place, and is reported so.
replaced_kinds :
    map
      (λ (c : Change). c.kind)
      (plan_from
        (context_of (("rec-2", seen) ∷ []) first_plan.rows 2_000_010 [] false)
        (("rec-2", seen) ∷ [])).changes
    ≡ "record_replaced" ∷ []
unfolding plan_from context_of
replaced_kinds = refl
