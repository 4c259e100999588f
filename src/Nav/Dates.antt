-- ===== src/Nav/Dates.antt =====
-- Python's `datetime.date` as its year, month and day, with its order.
use portfolio_management.Common.{ℕ, ◌+◌, ◌*◌, ◌≤◌, ◌≡◌, Bool, ◌&&◌, ◌||◌, arith, ltb, ◌==◌}

pub record Date : Type 0 where
  pub year : ℕ
  pub month : ℕ
  pub day : ℕ

-- What the type guarantees of its values.
pub record IsDate (d : Date) : Type 0 where
  pub month_range : (1 ≤ d.month) × (d.month ≤ 12)
  pub day_range : (1 ≤ d.day) × (d.day ≤ 31)

-- A number in the order of the dates.
abbrev pub date_key : Date → ℕ
date_key d = d.year * 10_000 + d.month * 100 + d.day

-- `a < b` on dates
abbrev pub before : Date → Date → Bool
before a b = ltb (date_key a) (date_key b)

-- Python compares dates as the tuples of their fields.
pub before-lexicographic :
    (a b : Date)
    → IsDate a
    → IsDate b
    → before a b ≡ (
        ltb a.year b.year
        || (a.year == b.year && (ltb a.month b.month || (a.month == b.month && ltb a.day b.day))))
before-lexicographic a b p q = ground arith
