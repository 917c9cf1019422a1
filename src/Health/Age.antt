-- ===== src/Health/Age.antt =====
-- web/src/lib/format.ts: formatAge and mayBeStuck. Times are milliseconds, counted from the
-- earliest date; `parse` is `Date.parse`, which returns `none` for NaN, `decimal` prints a number,
-- and `now` is the clock.
pub mod Units
use kro_ui.Prelude.{
  ℕ, ◌+◌, ◌-◌, ◌*◌, ◌/◌, Bool, false, Option, none, some, List, [], ◌∷◌, ◌++◌, if◌then◌else◌, ltb,
  length, keep,
}
use kro_ui.Prelude.Text.{Text, codes, text_eq}
use kro_ui.Health.Summary.{InstanceSummary}

abbrev pub second_ms : ℕ
second_ms = 1000

abbrev pub minute_ms : ℕ
minute_ms = 60 * second_ms

abbrev pub hour_ms : ℕ
hour_ms = 60 * minute_ms

abbrev pub day_ms : ℕ
day_ms = 24 * hour_ms

abbrev pub stuck_threshold_ms : ℕ
stuck_threshold_ms = 5 * 60 * 1000

module _ (decimal : ℕ → Text) where
  -- The age of something that is not in the future.
  unfoldable pub age_text : ℕ → Text
  age_text elapsed =
      if ltb elapsed (5 * second_ms)
      then codes "just now"
      else if ltb elapsed minute_ms
      then decimal (elapsed / second_ms) ++ codes "s"
      else if ltb elapsed hour_ms
      then decimal (elapsed / minute_ms) ++ codes "m"
      else if ltb elapsed day_ms
      then decimal (elapsed / hour_ms) ++ codes "h"
      else decimal (elapsed / day_ms) ++ codes "d"

  abbrev pub age_since : ℕ → Option ℕ → Text
  age_since now none = codes "Unknown"
  age_since now (some parsed) = if ltb now parsed then codes "just now" else age_text (now - parsed)

  unfoldable pub format_age : (Text → Option ℕ) → ℕ → Text → Text
  format_age parse now [] = codes "Unknown"
  format_age parse now (c ∷ s) = age_since now (parse (c ∷ s))

module _ (parse : Text → Option ℕ) (now : ℕ) where
  -- A comparison with NaN is false.
  abbrev pub is_over : Option ℕ → Bool
  is_over none = false
  is_over (some created) = ltb (created + stuck_threshold_ms) now

  abbrev pub created_long_ago : Text → Bool
  created_long_ago [] = false
  created_long_ago (c ∷ s) = is_over (parse (c ∷ s))

  unfoldable pub may_be_stuck : InstanceSummary → Bool
  may_be_stuck item =
      if text_eq item.state (codes "IN_PROGRESS")
      then created_long_ago item.creation_timestamp
      else false

  unfoldable pub count_may_be_stuck : List InstanceSummary → ℕ
  count_may_be_stuck items = length (keep may_be_stuck items)
