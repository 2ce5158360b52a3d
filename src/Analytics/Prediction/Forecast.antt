-- ===== src/Analytics/Prediction/Forecast.antt =====
-- The forecasts of src/analytics/prediction.rs.
use Prim.Native.Nat.{min}
use analytics_hub.Prelude.{
  ℕ, zero, suc, ◌+◌, ◌/◌, ◌%◌, String, Option, none, some, List, [], ◌∷◌, map, length, ltb,
  if◌then◌else◌, Outcome, ok, err, ◌>>=◌,
}
use analytics_hub.Prelude.Int.{ℤ, pos}
use analytics_hub.Prelude.Dict.{lookup, insert}
use analytics_hub.Prelude.Float.{FloatOps}
use analytics_hub.Analytics.Statistics.{sum_from, zero_float, at}
use analytics_hub.Analytics.Prediction.{
  PredictionPoint, TimeSeriesData, CachedPrediction, PredictionEngine, PredictionError, Chrono,
  on_time, no_time_series, insufficient_data, no_data, back, index, range_from, is_valid,
}

module _ (f : FloatOps) where
  abbrev square : f.F → f.F
  square x = f.mul x x

  -- `enumerate().map(|(i, &y)| i as f64 * y)`, from the index `i`.
  unfoldable pub weighted : ℕ → List f.F → List f.F
  weighted i [] = []
  weighted i (y ∷ ys) = f.mul (f.of_nat i) y ∷ weighted (suc i) ys

  unfoldable pub calculate_trend : List f.F → f.F × f.F
  unfolding weighted
  calculate_trend values =
      let zero_sum = zero_float f in
      let n = f.of_nat (length values) in
      let indices = map f.of_nat (range_from 0 (length values)) in
      let x_sum = sum_from f zero_sum indices in
      let y_sum = sum_from f zero_sum values in
      let xy_sum = sum_from f zero_sum (weighted 0 values) in
      let x_squared_sum = sum_from f zero_sum (map square indices) in
      let slope =
        f.div (f.sub (f.mul n xy_sum) (f.mul x_sum y_sum))
          (f.sub (f.mul n x_squared_sum) (square x_sum)) in
      let intercept = f.div (f.sub y_sum (f.mul slope x_sum)) n in (slope, intercept)

  -- The inner loop of `calculate_seasonality`: the sum and the count of every `period`-th value
  -- from `j` on. The fuel bounds its turns.
  unfoldable pub stride : ℕ → ℕ → ℕ → List f.F → f.F → ℕ → f.F × ℕ
  stride zero period j values sum count = (sum, count)
  stride (suc fuel) period j values sum count =
      let rest = stride fuel period (j + period) values (f.add sum (at f values j)) (count + 1) in
      if ltb j (length values) then rest else (sum, count)

  abbrev pub mean_or_zero : f.F × ℕ → f.F
  mean_or_zero (sum, count) = if ltb 0 count then f.div sum (f.of_nat count) else zero_float f

  abbrev pub period_of : List f.F → ℕ
  period_of values = min 24 (length values / 2)

  -- Each turn of the inner loop moves on, so that it makes no more turns than there are values.
  unfoldable pub season : List f.F → ℕ → f.F
  unfolding stride
  season values i =
      mean_or_zero (stride (length values) (period_of values) i values (zero_float f) 0)

  unfoldable pub calculate_seasonality : List f.F → List f.F
  unfolding season
  calculate_seasonality values =
      let seasonal = map (season values) (range_from 0 (period_of values)) in
      let mean = f.div (sum_from f (zero_float f) seasonal) (f.of_nat (length seasonal)) in
      map (λ v. f.sub v mean) seasonal

  unfoldable pub calculate_confidence : ℕ → ℕ → f.F
  calculate_confidence step total_steps =
      let base_confidence = f.div (f.of_nat 95) (f.of_nat 100) in
      let decay_rate = f.div (f.of_nat 5) (f.of_nat 100) in
      f.max
        (f.sub base_confidence (f.mul decay_rate (f.div (f.of_nat step) (f.of_nat total_steps))))
        (f.div (f.of_nat 1) (f.of_nat 2))

  abbrev pub bound_factor : f.F → f.F
  bound_factor confidence = f.mul (f.div (f.of_nat 1) (f.of_nat 10)) (f.sub (f.of_nat 1) confidence)

  -- The point of step `i`, with its time and the value of its season.
  abbrev pub point_at : ℕ → f.F × f.F → ℕ → ℤ → ℕ → f.F → PredictionPoint f.F
  point_at steps (slope, intercept) n time i seasonal_value =
      let trend_value = f.add (f.mul slope (f.of_nat (n + i))) intercept in
      let predicted_value = f.add trend_value seasonal_value in
      let confidence = calculate_confidence i steps in
      record {
        timestamp = time;
        value = predicted_value;
        confidence = confidence;
        lower_bound = f.mul predicted_value (f.sub (f.of_nat 1) (bound_factor confidence));
        upper_bound = f.mul predicted_value (f.add (f.of_nat 1) (bound_factor confidence));
      }

  -- `for i in 1..=steps`: what is pushed for some steps.
  unfoldable pub each_step :
      (ℕ → Outcome (PredictionPoint f.F) PredictionError)
      → List ℕ
      → Outcome (List (PredictionPoint f.F)) PredictionError
  each_step point [] = ok []
  each_step point (i ∷ is) = point i >>= λ p. each_step point is >>= λ ps. ok (p ∷ ps)

  -- A prediction that was made is kept for five minutes.
  abbrev pub keep :
      String
      → ℤ
      → PredictionEngine f.F
      → Outcome (List (PredictionPoint f.F)) PredictionError
      → Outcome (List (PredictionPoint f.F)) PredictionError × PredictionEngine f.F
  keep metric_name created e (err x) = (err x, e)
  keep metric_name created e (ok points) = (
    ok points,
    record e {
      predictions =
          insert metric_name
            (record { points = points; created_at = created; ttl_seconds = pos 300 }) e.predictions;
    },
  )

  abbrev pub valid_points : ℤ → Option (CachedPrediction f.F) → Option (List (PredictionPoint f.F))
  valid_points now none = none
  valid_points now (some cached) = if is_valid now cached then some cached.points else none

  abbrev pub answer :
      Option (List (PredictionPoint f.F))
      → Outcome (List (PredictionPoint f.F)) PredictionError × PredictionEngine f.F
      → PredictionEngine f.F
      → Outcome (List (PredictionPoint f.F)) PredictionError × PredictionEngine f.F
  answer (some points) fresh e = (ok points, e)
  answer none fresh e = fresh

  -- `alpha * value + (1.0 - alpha) * smoothed`, over the values after the first.
  unfoldable pub smooth : f.F → f.F → List f.F → f.F
  smooth alpha smoothed [] = smoothed
  smooth alpha smoothed (v ∷ vs) =
      smooth alpha (f.add (f.mul alpha v) (f.mul (f.sub (f.of_nat 1) alpha) smoothed)) vs

  abbrev pub smoothed_point : f.F → ℕ → ℤ → ℕ → PredictionPoint f.F
  smoothed_point smoothed steps time i = record {
    timestamp = time;
    value = smoothed;
    confidence = calculate_confidence i steps;
    lower_bound = f.mul smoothed (f.div (f.of_nat 9) (f.of_nat 10));
    upper_bound = f.mul smoothed (f.div (f.of_nat 11) (f.of_nat 10));
  }

module _ (f : FloatOps) (chrono : Chrono) where
  unfoldable pub arima_point :
      ℕ → f.F × f.F → List f.F → ℕ → ℤ → ℕ → Outcome (PredictionPoint f.F) PredictionError
  unfolding index
  arima_point steps trend seasonal n last i =
      index seasonal ((n + i) % length seasonal) >>= λ seasonal_value.
      on_time (chrono.plus_minutes last i) >>= λ time.
      ok (point_at f steps trend n time i seasonal_value)

  unfoldable pub arima_forecast :
      TimeSeriesData f.F → ℕ → Outcome (List (PredictionPoint f.F)) PredictionError
  unfolding calculate_trend calculate_seasonality arima_point each_step
  arima_forecast d steps = back d.timestamps >>= λ last.
      each_step f
        (arima_point steps (calculate_trend f d.values) (calculate_seasonality f d.values)
          (length d.values) last)
        (range_from 1 steps)

  -- What follows the look at the cache.
  abbrev pub forecast_of :
      Option (TimeSeriesData f.F) → ℕ → Outcome (List (PredictionPoint f.F)) PredictionError
  forecast_of none steps = err no_time_series
  forecast_of (some d) steps =
      let forecast = arima_forecast d steps in
      if ltb (length d.values) 10 then err insufficient_data else forecast

  unfoldable pub predict_arima :
      ℤ
      → ℤ
      → String
      → ℕ
      → PredictionEngine f.F
      → Outcome (List (PredictionPoint f.F)) PredictionError × PredictionEngine f.F
  unfolding arima_forecast
  predict_arima now created metric_name steps_ahead e =
      answer f (valid_points f now (lookup metric_name e.predictions))
        (keep f metric_name created e (forecast_of (lookup metric_name e.time_series) steps_ahead))
        e

  unfoldable pub smoothed_at : f.F → ℕ → ℤ → ℕ → Outcome (PredictionPoint f.F) PredictionError
  smoothed_at smoothed steps last i =
      on_time (chrono.plus_minutes last i) >>= λ time. ok (smoothed_point f smoothed steps time i)

  abbrev pub smoothed_points :
      List f.F → List ℤ → ℕ → f.F → Outcome (List (PredictionPoint f.F)) PredictionError
  smoothed_points [] timestamps steps alpha = err no_data
  smoothed_points (v ∷ vs) timestamps steps alpha = back timestamps >>= λ last.
      each_step f (smoothed_at (smooth f alpha v vs) steps last) (range_from 1 steps)

  abbrev pub smoothed_forecast :
      Option (TimeSeriesData f.F) → ℕ → f.F → Outcome (List (PredictionPoint f.F)) PredictionError
  smoothed_forecast none steps alpha = err no_time_series
  smoothed_forecast (some d) steps alpha = smoothed_points d.values d.timestamps steps alpha

  unfoldable pub predict_exponential_smoothing :
      String → ℕ → f.F → PredictionEngine f.F → Outcome (List (PredictionPoint f.F)) PredictionError
  predict_exponential_smoothing metric_name steps_ahead alpha e =
      smoothed_forecast (lookup metric_name e.time_series) steps_ahead alpha
