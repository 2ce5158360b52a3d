-- ===== src/Analytics/Prediction/Total.antt =====
-- What the forecasts of src/analytics/prediction.rs fail by, and at which times their points lie.
use native.Mathlib.Nat.{mod-lt}
use analytics_hub.Prelude.{
  ℕ, zero, suc, ◌+◌, ◌%◌, ◌≤◌, ◌<◌, ◌≡◌, refl, ap, ◌∙◌, Option, none, some, List, [], ◌∷◌, map,
  length, length-map, Outcome, ok, err, ◌>>=◌, arith,
}
use analytics_hub.Prelude.Int.{ℤ}
use analytics_hub.Prelude.Float.{FloatOps}
use analytics_hub.Analytics.Prediction.{
  PredictionPoint, TimeSeriesData, PredictionError, Chrono, on_time, back, index, range_from,
}
use analytics_hub.Analytics.Prediction.Forecast.{
  calculate_trend, period_of, season, calculate_seasonality, point_at, arima_point, each_step,
  arima_forecast, smoothed_point, smoothed_at,
}

module _ {A : Type 0} where
  index-ok : (xs : List A) (i : ℕ) → i < length xs → (x : A) × (index xs i ≡ ok x)
  unfolding index
  index-ok [] i l = absurd (omega arith)
  index-ok (x ∷ xs) zero l = (x, refl)
  index-ok (x ∷ xs) (suc i) l = index-ok xs i (omega arith)

  pub back-ok : (xs : List A) → 0 < length xs → (x : A) × (back xs ≡ ok x)
  unfolding back
  back-ok [] l = absurd (omega arith)
  back-ok (x ∷ []) l = (x, refl)
  back-ok (x ∷ y ∷ xs) l = back-ok (y ∷ xs) (omega arith)

length-range_from : (a n : ℕ) → length (range_from a n) ≡ n
length-range_from a zero = refl
length-range_from a (suc n) = omega (arith, length-range_from (suc a) n)

abbrev both_times : Option ℤ → Option (List ℤ) → Option (List ℤ)
both_times none ts = none
both_times (some t) none = none
both_times (some t) (some ts) = some (t ∷ ts)

-- The times some minutes after another one, where chrono can represent all of them.
abbrev pub all_times : Chrono → ℤ → List ℕ → Option (List ℤ)
all_times chrono last [] = some []
all_times chrono last (i ∷ is) = both_times (chrono.plus_minutes last i) (all_times chrono last is)

module _ {F : Type 0} where
  abbrev time_of : Outcome (PredictionPoint F) PredictionError → Outcome ℤ PredictionError
  time_of (ok p) = ok p.timestamp
  time_of (err e) = err e

  -- The times of the points, or the error.
  abbrev pub times_of :
      Outcome (List (PredictionPoint F)) PredictionError → Outcome (List ℤ) PredictionError
  times_of (ok ps) = ok (map (λ p. p.timestamp) ps)
  times_of (err e) = err e

  next_time :
      (o : Outcome (PredictionPoint F) PredictionError) (t : Option ℤ)
      (os : Outcome (List (PredictionPoint F)) PredictionError) (ts : Option (List ℤ))
      → time_of o ≡ on_time t
      → times_of os ≡ on_time ts
      → times_of (o >>= λ p. os >>= λ ps. ok (p ∷ ps)) ≡ on_time (both_times t ts)
  next_time (ok p) (some t) (ok ps) (some ts) h k =
      ap (λ x. x >>= λ time. ok (time ∷ map (λ p. p.timestamp) ps)) h
      ∙ ap (λ x. x >>= λ times. ok (t ∷ times)) k
  next_time (ok p) (some t) (ok ps) none h k = absurd (ground arith)
  next_time (ok p) (some t) (err e) none h k = k
  next_time (ok p) (some t) (err e) (some ts) h k = absurd (ground arith)
  next_time (ok p) none os ts h k = absurd (ground arith)
  next_time (err e) none os ts h k = ground arith
  next_time (err e) (some t) os ts h k = absurd (ground arith)

module _ (f : FloatOps) where
  length-calculate_seasonality :
      (values : List f.F) → length (calculate_seasonality f values) ≡ period_of f values
  unfolding calculate_seasonality
  length-calculate_seasonality values =
      length-map _ _ ∙ length-map (season f values) _ ∙ length-range_from 0 (period_of f values)

  module _ (chrono : Chrono) where
    pub each_step_times :
        (point : ℕ → Outcome (PredictionPoint f.F) PredictionError) (last : ℤ) (is : List ℕ)
        → ((i : ℕ) → time_of (point i) ≡ on_time (chrono.plus_minutes last i))
        → times_of (each_step f point is) ≡ on_time (all_times chrono last is)
    unfolding each_step
    each_step_times point last [] h = refl
    each_step_times point last (i ∷ is) h =
        next_time (point i) (chrono.plus_minutes last i) _ _ (h i) (each_step_times point last is h)

    made_at :
        (g : ℤ → PredictionPoint f.F) (time : Option ℤ)
        → ((t : ℤ) → (g t).timestamp ≡ t)
        → time_of (on_time time >>= λ t. ok (g t)) ≡ on_time time
    made_at g none h = refl
    made_at g (some t) h = ap ok (h t)

    arima_point_time :
        (steps : ℕ) (trend : f.F × f.F) (seasonal : List f.F) (n : ℕ) (last : ℤ) (i : ℕ)
        → 0 < length seasonal
        → time_of (arima_point f chrono steps trend seasonal n last i)
          ≡ on_time (chrono.plus_minutes last i)
    unfolding arima_point
    arima_point_time steps trend seasonal n last i l =
        let place = index-ok seasonal ((n + i) % length seasonal) (mod-lt (n + i) l) in
        ap
          (λ o. time_of (
            o >>= λ v.
            on_time (chrono.plus_minutes last i) >>= λ t. ok (point_at f steps trend n t i v)))
          place.1
        ∙ made_at (λ t. point_at f steps trend n t i place.0) (chrono.plus_minutes last i)
            (λ t. refl)

    pub smoothed_time :
        (smoothed : f.F) (steps : ℕ) (last : ℤ) (i : ℕ)
        → time_of (smoothed_at f chrono smoothed steps last i)
          ≡ on_time (chrono.plus_minutes last i)
    unfolding smoothed_at
    smoothed_time smoothed steps last i =
        made_at (λ t. smoothed_point f smoothed steps t i) (chrono.plus_minutes last i) (λ t. refl)

    -- A series whose two queues are as long as each other, with two points or more, is forecast for
    -- any number of steps: there is one point for each step, at that many minutes after the last
    -- time of the series, and the forecast panics if, and only if, chrono cannot represent one of
    -- these times. No index is out of range.
    pub forecast_total :
        (d : TimeSeriesData f.F) (steps : ℕ)
        → length d.values ≡ length d.timestamps
        → 2 ≤ length d.values
        → (last : ℤ) × (back d.timestamps ≡ ok last)
          × (times_of (arima_forecast f chrono d steps)
              ≡ on_time (all_times chrono last (range_from 1 steps)))
    unfolding arima_forecast
    forecast_total d steps sync l =
        let (last, newest) = back-ok d.timestamps (omega (arith, sync)) in
        let seasons : 0 < length (calculate_seasonality f d.values) =
          omega (arith, length-calculate_seasonality d.values) in
        let point = λ (at : ℤ).
          arima_point f chrono steps (calculate_trend f d.values) (calculate_seasonality f d.values)
            (length d.values) at in
        (
          last,
          newest,
          ap (λ o. times_of (o >>= λ at. each_step f (point at) (range_from 1 steps))) newest
              ∙ each_step_times (point last) last (range_from 1 steps)
                  (λ i. arima_point_time steps _ _ _ last i seasons),
        )
