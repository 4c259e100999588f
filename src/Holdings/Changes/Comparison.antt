-- ===== src/Holdings/Changes/Comparison.antt =====
-- The loop of `observe` of src/domain/holding_changes.py over the records that are present.
use portfolio_management.Common.{
  ℕ, String, Bool, true, false, not, ◌&&◌, Option, none, some, List, [], ◌∷◌, ◌++◌, if◌then◌else◌,
  str_eq, opt_eq, text_in, is_some, or_else, keep, map,
}
use portfolio_management.Common.Dict.{text_eq, dict_get, dict_set}
use portfolio_management.Holdings.Changes.{
  Absence, Change, Identity, Problem, Projection, Row, RowState, Rows, Snapshot, active, among, gap,
  identity, is_deleted, is_gap, is_gone, is_out_of_scope, is_positive, out_of_scope, same_identity,
}

-- The dictionaries, lists and sets that the loop over the present records fills.
pub record Progress : Type 0 where
  pub states : Rows
  pub changes : List Change
  pub errors : List Problem
  pub covered : List String
  pub replaced : List String

-- What the loop reads besides.
pub record Context : Type 0 where
  pub now : ℕ
  pub previous : Rows
  pub duplicate_ids : List String
  pub initialize : Bool
  pub absent : Absence

abbrev pub observed_of : Option Row → Option ℕ
observed_of none = none
observed_of (some r) = r.observed_at

abbrev pub snapshot_of : Option Row → Option Snapshot
snapshot_of none = none
snapshot_of (some r) = r.snapshot

abbrev pub state_is : (RowState → Bool) → Option Row → Bool
state_is p none = false
state_is p (some r) = p r.state

unfoldable pub change_of :
    ℕ → String → String → Option Snapshot → Option Snapshot → Option Row → Option String → Change
change_of now kind rid before after old predecessor = record {
  kind = kind;
  record_id = rid;
  before = before;
  after = after;
  previous_observed_at = observed_of old;
  observed_at = now;
  after_gap = state_is is_gap old;
  previous_record_id = predecessor;
}

abbrev pub has_full_identity : Snapshot → Bool
has_full_identity s =
    not (str_eq s.asset_id "") && (not (str_eq s.account "") && not (str_eq s.broker ""))

unfoldable pub new_row : RowState → Snapshot → ℕ → Row
new_row state s now = record {
  state = state;
  snapshot = some s;
  observed_at = some now;
  reason = none;
  missing_since = none;
  current = none;
}

unfoldable pub gap_row : Option Snapshot → Option ℕ → String → Snapshot → Row
gap_row before observed reason after = record {
  state = gap;
  snapshot = before;
  observed_at = observed;
  reason = some reason;
  missing_since = none;
  current = some after;
}

-- a record that the policy excludes leaves the scope, once
unfoldable pub exclude : Context → String → Snapshot → Option Row → Progress → Progress
unfolding change_of new_row
exclude c rid after none p = p
exclude c rid after (some old) p =
    let covers = is_some old.snapshot && has_full_identity after in
    let q = record p { covered = p.covered ++ (if covers then rid ∷ [] else []) } in
    if is_some old.snapshot && not (is_gone old.state)
    then record q {
      changes =
          q.changes
          ++ change_of c.now "out_of_scope" rid old.snapshot (some after) (some old) none ∷ [];
      states = dict_set rid (new_row out_of_scope after c.now) q.states;
    }
    else record q { states = dict_set rid old q.states }

-- the first reason that keeps the record from being compared
unfoldable pub problem_of : Context → String → Projection → Option String
problem_of c rid item =
    let own = if text_in rid c.duplicate_ids then some "duplicate_identity" else item.reason in
    if among (identity item.snapshot) c.absent.protected
    then some (or_else own "missing_group_member")
    else own

unfoldable pub hold : Context → String → String → Snapshot → Option Row → Progress → Progress
unfolding gap_row
hold c reason rid after old p =
    let covers =
      str_eq reason "duplicate_identity" && not (among (identity after) c.absent.protected) in
    record p {
      covered = p.covered ++ (if covers then rid ∷ [] else []);
      errors = p.errors ++ record { record_id = rid; reason = reason } ∷ [];
      states = dict_set rid (gap_row (snapshot_of old) (observed_of old) reason after) p.states;
    }

-- `missing_by_identity[identity]`
abbrev pub missing_as : Identity → List (Identity × String) → List String
missing_as i missing = map (λ m. m.1) (keep (λ m. same_identity m.0 i) missing)

-- the one absent record with the identity, if it is proven deleted
unfoldable pub predecessor_of : List String → List String → Option String
predecessor_of (old ∷ []) proven_deleted = if text_in old proven_deleted then some old else none
predecessor_of _ proven_deleted = none

abbrev pub same_measures : Snapshot → Snapshot → Bool
same_measures b a = str_eq b.asset_type a.asset_type && str_eq b.currency a.currency

-- The kind of change of a record that was known and not deleted; `none` where nothing changed.
unfoldable pub change_kind : RowState → Snapshot → Snapshot → Option String
unfolding is_positive
change_kind state before after =
    if is_out_of_scope state
    then some "back_in_scope"
    else if not (same_identity (identity before) (identity after))
    then some "identity_changed"
    else if not (same_measures before after)
    then some "measure_changed"
    else if opt_eq before.quantity after.quantity
    then none
    else if not (is_positive (some after))
    then some "quantity_zero"
    else if not (is_positive (some before))
    then some "quantity_restored"
    else some "quantity_changed"

-- the changes of a record that replaces no other
unfoldable pub changes_between : ℕ → String → Snapshot → Option Row → Option Snapshot → List Change
unfolding change_kind change_of is_positive
changes_between now rid after old none =
    if is_positive (some after)
    then change_of now "first_observed" rid none (some after) old none ∷ []
    else []
changes_between now rid after old (some before) =
    if state_is is_deleted old
    then (if is_positive (some after)
        then change_of now "first_observed" rid none (some after) old none ∷ []
        else [])
    else known (change_kind (state_or_active old) before after)
  where
    state_or_active : Option Row → RowState
    state_or_active none = active
    state_or_active (some r) = r.state

    known : Option String → List Change
    known none = []
    known (some kind) = change_of now kind rid (some before) (some after) old none ∷ []

-- the replacement that a record is, if it was not known before
unfoldable pub replaces : Context → Snapshot → Option Snapshot → Option String
unfolding predecessor_of
replaces c after none =
    predecessor_of (missing_as (identity after) c.absent.missing) c.absent.proven_deleted
replaces c after (some _) = none

unfoldable pub note_changes :
    Context → String → Snapshot → Option Row → Option String → Progress → Progress
unfolding change_of changes_between
note_changes c rid after old (some predecessor) p =
    let gone = dict_get predecessor c.previous in
    record p {
      changes =
          p.changes
          ++ change_of c.now "record_replaced" rid (snapshot_of gone) (some after) gone
              (some predecessor)
            ∷ [];
      replaced = p.replaced ++ predecessor ∷ [];
    }
note_changes c rid after old none p =
    if c.initialize
    then p
    else record p { changes = p.changes ++ changes_between c.now rid after old (snapshot_of old) }

unfoldable pub compare : Context → String → Snapshot → Option Row → Progress → Progress
unfolding note_changes replaces new_row
compare c rid after old p =
    let q =
      note_changes c rid after old (replaces c after (snapshot_of old))
        (record p { covered = p.covered ++ rid ∷ [] }) in
    record q { states = dict_set rid (new_row active after c.now) q.states }

unfoldable pub look_in :
    Context → String → Snapshot → Option Row → Bool → Option String → Progress → Progress
unfolding exclude hold compare
look_in c rid after old true problem p = exclude c rid after old p
look_in c rid after old false (some reason) p = hold c reason rid after old p
look_in c rid after old false none p = compare c rid after old p

unfoldable pub look_at : Context → String → Projection → Progress → Progress
unfolding look_in problem_of
look_at c rid item p =
    look_in c rid item.snapshot (dict_get rid c.previous) item.excluded (problem_of c rid item) p

unfoldable pub look_all : Context → List (String × Projection) → Progress → Progress
unfolding look_at
look_all c [] p = p
look_all c ((rid, item) ∷ rest) p = look_all c rest (look_at c rid item p)
