-- ===== src/Holdings/Changes.antt =====
-- What is known of the holdings, and what becomes of the records that an observation misses: `observe`
-- of src/domain/holding_changes.py, on records that `project_record` has projected. Times are
-- microseconds; a text of an identity that is missing is "", as `identity` has it.
pub mod Comparison
pub mod Observation
pub mod Absences
pub mod Deletions
pub mod Presences
pub mod Reports
use portfolio_management.Common.{
  ℕ, ◌+◌, ◌*◌, String, Bool, true, false, not, ◌&&◌, ◌||◌, Option, none, some, List, [], ◌∷◌, ◌++◌,
  leb, ◌==◌, if◌then◌else◌, str_eq, str_lt, opt_eq, text_in, is_some, or_else, any_of, all_of, keep,
  map, length, codes, value_error, Result, ok, err, ◌>>◌, raise_if,
}
use portfolio_management.Common.Dict.{text_eq, dict_get, dict_set}

-- The projected values of a holding; quantities are canonical decimal texts.
pub record Snapshot : Type 0 where
  pub asset_id : String
  pub account : String
  pub broker : String
  pub asset_type : String
  pub currency : String
  pub asset_name : Option String
  pub quantity : Option String
  pub avg_cost : Option String

-- What `project_record` returns.
pub record Projection : Type 0 where
  pub snapshot : Snapshot
  pub eligible : Bool
  pub excluded : Bool
  pub reason : Option String

pub data RowState : Type 0 where
  active gap missing_candidate deleted out_of_scope : RowState

-- What is known of a record.
pub record Row : Type 0 where
  pub state : RowState
  pub snapshot : Option Snapshot
  pub observed_at : Option ℕ
  pub reason : Option String
  pub missing_since : Option ℕ
  pub current : Option Snapshot

abbrev pub Rows : Type 0
Rows = List (String × Row)

pub record Change : Type 0 where
  pub kind : String
  pub record_id : String
  pub before : Option Snapshot
  pub after : Option Snapshot
  pub previous_observed_at : Option ℕ
  pub observed_at : ℕ
  pub after_gap : Bool
  pub previous_record_id : Option String

pub record Problem : Type 0 where
  pub record_id : String
  pub reason : String

abbrev pub Identity : Type 0
Identity = String × String × String

abbrev pub identity : Snapshot → Identity
identity s = (s.asset_id, s.account, s.broker)

abbrev pub same_identity : Identity → Identity → Bool
same_identity (a, b, c) (x, y, z) = str_eq a x && (str_eq b y && str_eq c z)

abbrev pub among : Identity → List Identity → Bool
among i = any_of (same_identity i)

-- `identity(old.get("snapshot") or old.get("current") or {})`
abbrev pub known_identity : Option Snapshot → Option Snapshot → Identity
known_identity (some s) _ = identity s
known_identity none (some c) = identity c
known_identity none none = ("", "", "")

abbrev pub row_identity : Row → Identity
row_identity r = known_identity r.snapshot r.current

abbrev pub is_gone : RowState → Bool
is_gone deleted = true
is_gone out_of_scope = true
is_gone _ = false

abbrev pub is_deleted : RowState → Bool
is_deleted deleted = true
is_deleted _ = false

abbrev pub is_out_of_scope : RowState → Bool
is_out_of_scope out_of_scope = true
is_out_of_scope _ = false

abbrev pub is_gap : RowState → Bool
is_gap gap = true
is_gap _ = false

-- `Decimal(text) > 0` of a canonical text: no sign, and a digit that is not zero
is_digit_or_point : ℕ → Bool
is_digit_or_point c = (leb 48 c && leb c 57) || c == 46

unfoldable pub is_positive_text : String → Bool
unfolding is_digit_or_point
is_positive_text s =
    all_of is_digit_or_point (codes s) && any_of (λ c. leb 49 c && leb c 57) (codes s)

abbrev pub positive : Option String → Bool
positive none = false
positive (some s) = is_positive_text s

unfoldable pub is_positive : Option Snapshot → Bool
unfolding is_positive_text
is_positive none = false
is_positive (some s) = positive s.quantity

-- two seconds
abbrev pub confirmation_delay : ℕ
confirmation_delay = 2_000_000

-- the second complete read that misses the record comes two seconds after the first, or later
abbrev pub is_confirmed : Option ℕ → ℕ → Bool
is_confirmed none now = false
is_confirmed (some first) now = leb (first + confirmation_delay) now

-- What becomes of the row of a record that is absent.
unfoldable pub absent_row : ℕ → Row → Row
absent_row now old =
    if is_gone old.state
    then old
    else if is_confirmed old.missing_since now
    then record old { state = deleted; missing_since = none; reason = none }
    else record old {
      state = missing_candidate;
      missing_since = some (or_else old.missing_since now);
      reason = some "record_absent";
    }

abbrev pub ids_of {ℓ} : {A : Type ℓ} → List (String × A) → List String
ids_of = map (λ x. x.0)

-- the previous rows whose records are absent
unfoldable pub absent_of : List String → Rows → Rows
absent_of raw [] = []
absent_of raw ((rid, old) ∷ rest) =
    let others = absent_of raw rest in if text_in rid raw then others else (rid, old) ∷ others

abbrev pub newly_deleted : ℕ → Row → Bool
newly_deleted now old = not (is_gone old.state) && is_confirmed old.missing_since now

abbrev pub unconfirmed : ℕ → Row → Bool
unconfirmed now old = not (is_gone old.state) && not (is_confirmed old.missing_since now)

-- What is known before the present records are looked at.
pub record Absence : Type 0 where
  pub rows : Rows
  pub proven_deleted : List String
  pub protected : List Identity
  -- the absent records that were not settled, with the identity they had
  pub missing : List (Identity × String)

unfoldable pub absence : List String → ℕ → Rows → Absence
unfolding absent_of absent_row
absence raw now previous =
    let absent = absent_of raw previous in
    record {
      rows = map (λ x. (x.0, absent_row now x.1)) absent;
      proven_deleted = ids_of (keep (λ x. newly_deleted now x.1) absent);
      protected = map (λ x. row_identity x.1) (keep (λ x. unconfirmed now x.1) absent);
      missing = map (λ x. (row_identity x.1, x.0)) (keep (λ x. not (is_gone x.1.state)) absent);
    }
