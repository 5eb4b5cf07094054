-- ===== src/Schedule/Dates.antt =====
-- What the scheduler uses of chrono: dates, days of the week, the civil date of an instant in a
-- time zone, and the subtraction of days, which is taken to stay inside chrono's range of dates.
use dayseam.Prelude.{ℕ, ◌<◌, ◌≡◌, Bool, true, false, Eq}

pub record Calendar : Type 1 where
  pub Date : Type 0
  pub Weekday : Type 0
  pub Instant : Type 0
  pub Offset : Type 0
  pub date_eq : Eq Date
  pub weekday_eq : Eq Weekday
  pub earlier : Date → Date → Bool
  pub weekday : Date → Weekday
  pub sub_days : Date → ℕ → Date
  pub date_naive : Offset → Instant → Date
  -- `earlier` is a strict order, and taking more days away gives an earlier date.
  pub earlier_irrefl : (d : Date) → earlier d d ≡ false
  pub earlier_trans : (a b c : Date) → earlier a b ≡ true → earlier b c ≡ true → earlier a c ≡ true
  pub earlier_total : (a b : Date) → earlier a b ≡ false → earlier b a ≡ false → a ≡ b
  pub sub_days-zero : (d : Date) → sub_days d 0 ≡ d
  pub sub_days-earlier : (d : Date) (m n : ℕ) → m < n → earlier (sub_days d n) (sub_days d m) ≡ true
