-- ===== src/Analytics/Window/Alignment.antt =====
-- Where the windows of src/analytics/aggregation_engine.rs begin.
use analytics_hub.Prelude.{ℕ, zero, suc, ◌+◌, ◌*◌, ◌/◌, ◌%◌, ◌≤◌, ◌<◌, ◌≡◌, refl, ◌≢◌, arith}
use analytics_hub.Prelude.Int.{pos, negsuc, ◌<ℤ◌, mul_ℕ, neg}
use analytics_hub.Analytics.Window.{
  TimeWindow, one_minute, five_minutes, fifteen_minutes, one_hour, six_hours, one_day, one_week,
  one_month, to_seconds, align_to_window,
}

-- From the epoch on, the window found for a time begins at a multiple of its length, and the time
-- lies in it: at or after its start and before its end.
pub align_contains :
    (n : ℕ) (w : TimeWindow)
    → (k : ℕ) × (align_to_window (pos n) w ≡ pos (k * to_seconds w * 1000000000))
      × (k * to_seconds w * 1000000000 ≤ n)
      × (n < (k + 1) * to_seconds w * 1000000000)
unfolding align_to_window to_seconds
align_contains n one_minute = (n / 1000000000 / 60, refl, omega arith, omega arith)
align_contains n five_minutes = (n / 1000000000 / 300, refl, omega arith, omega arith)
align_contains n fifteen_minutes = (n / 1000000000 / 900, refl, omega arith, omega arith)
align_contains n one_hour = (n / 1000000000 / 3600, refl, omega arith, omega arith)
align_contains n six_hours = (n / 1000000000 / 21600, refl, omega arith, omega arith)
align_contains n one_day = (n / 1000000000 / 86400, refl, omega arith, omega arith)
align_contains n one_week = (n / 1000000000 / 604800, refl, omega arith, omega arith)
align_contains n one_month = (n / 1000000000 / 2592000, refl, omega arith, omega arith)

mul_neg : (k m : ℕ) → mul_ℕ (neg k) m ≡ neg (k * m)
mul_neg zero m = let z : 0 * m ≡ 0 = omega arith in rw z
mul_neg (suc k) m = refl

lt_neg : (n k : ℕ) → k < suc n → negsuc n <ℤ neg k
lt_neg n zero h = omega arith
lt_neg n (suc k) h = omega arith

align_negsuc :
    (n : ℕ) (w : TimeWindow)
    → align_to_window (negsuc n) w
      ≡ neg (suc (n / 1000000000) / to_seconds w * to_seconds w * 1000000000)
unfolding align_to_window
align_negsuc n w = rw mul_neg (mul_neg _ 1000000000)

-- Before the epoch the division towards 0 rounds the other way: a time whose second is no whole
-- multiple of the window's is put into the window after it, which begins later than the time.
pub align_before_epoch :
    (n : ℕ) (w : TimeWindow)
    → (n / 1000000000 + 1) % to_seconds w ≢ 0
    → negsuc n <ℤ align_to_window (negsuc n) w
unfolding to_seconds
align_before_epoch n one_minute h =
    rw (align_negsuc n one_minute)
      (lt_neg n (suc (n / 1000000000) / 60 * 60 * 1000000000) (omega arith))
align_before_epoch n five_minutes h =
    rw (align_negsuc n five_minutes)
      (lt_neg n (suc (n / 1000000000) / 300 * 300 * 1000000000) (omega arith))
align_before_epoch n fifteen_minutes h =
    rw (align_negsuc n fifteen_minutes)
      (lt_neg n (suc (n / 1000000000) / 900 * 900 * 1000000000) (omega arith))
align_before_epoch n one_hour h =
    rw (align_negsuc n one_hour)
      (lt_neg n (suc (n / 1000000000) / 3600 * 3600 * 1000000000) (omega arith))
align_before_epoch n six_hours h =
    rw (align_negsuc n six_hours)
      (lt_neg n (suc (n / 1000000000) / 21600 * 21600 * 1000000000) (omega arith))
align_before_epoch n one_day h =
    rw (align_negsuc n one_day)
      (lt_neg n (suc (n / 1000000000) / 86400 * 86400 * 1000000000) (omega arith))
align_before_epoch n one_week h =
    rw (align_negsuc n one_week)
      (lt_neg n (suc (n / 1000000000) / 604800 * 604800 * 1000000000) (omega arith))
align_before_epoch n one_month h =
    rw (align_negsuc n one_month)
      (lt_neg n (suc (n / 1000000000) / 2592000 * 2592000 * 1000000000) (omega arith))
