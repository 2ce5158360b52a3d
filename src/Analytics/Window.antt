-- ===== src/Analytics/Window.antt =====
-- `TimeWindow` of src/models/metrics.rs, `seconds_to_window` of src/analytics/aggregation.rs and
-- `align_to_window` of src/analytics/aggregation_engine.rs.
pub mod Alignment
use analytics_hub.Prelude.{ℕ, ◌*◌, String, Bool, true, false, if◌then◌else◌, ◌==◌, List, [], ◌∷◌}
use analytics_hub.Prelude.Int.{ℤ, div_ℕ, mul_ℕ}
use analytics_hub.Schema.Event.{seconds}

pub data TimeWindow : Type 0 where
  one_minute five_minutes fifteen_minutes one_hour six_hours one_day one_week one_month : TimeWindow

unfoldable pub to_seconds : TimeWindow → ℕ
to_seconds one_minute = 60
to_seconds five_minutes = 300
to_seconds fifteen_minutes = 900
to_seconds one_hour = 3600
to_seconds six_hours = 21600
to_seconds one_day = 86400
to_seconds one_week = 604800
to_seconds one_month = 2592000

unfoldable pub as_str : TimeWindow → String
as_str one_minute = "1m"
as_str five_minutes = "5m"
as_str fifteen_minutes = "15m"
as_str one_hour = "1h"
as_str six_hours = "6h"
as_str one_day = "1d"
as_str one_week = "1w"
as_str one_month = "1M"

unfoldable pub seconds_to_window : ℕ → TimeWindow
seconds_to_window s =
    if s == 60
    then one_minute
    else if s == 300
    then five_minutes
    else if s == 900
    then fifteen_minutes
    else if s == 3600
    then one_hour
    else if s == 21600
    then six_hours
    else if s == 86400
    then one_day
    else if s == 604800
    then one_week
    else if s == 2592000
    then one_month
    else five_minutes

unfoldable pub all_windows : List TimeWindow
all_windows =
    one_minute ∷ five_minutes ∷ fifteen_minutes ∷ one_hour ∷ six_hours ∷ one_day ∷ one_week
    ∷ one_month ∷ []

-- The start of the window in whole seconds: `(ts / seconds) * seconds` on `i64`.
unfoldable pub aligned_seconds : TimeWindow → ℤ → ℤ
unfolding to_seconds
aligned_seconds w s = mul_ℕ (div_ℕ s (to_seconds w)) (to_seconds w)

-- Times are nanoseconds since the epoch. A start is representable whenever the time is, so
-- `unwrap_or(timestamp)` does not apply.
unfoldable pub align_to_window : ℤ → TimeWindow → ℤ
unfolding aligned_seconds
align_to_window timestamp w = mul_ℕ (aligned_seconds w (seconds timestamp)) 1000000000
