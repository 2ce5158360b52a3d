-- ===== src/Analytics/Prediction/Cache.antt =====
-- The cached predictions of src/analytics/prediction.rs.
use text.Mathlib.TextPositions.{eq_refl}
use analytics_hub.Prelude.{
  ℕ, ◌≡◌, refl, sym, ap, ◌∙◌, true, List, none, some, String, Outcome, ok, err, arith,
}
use analytics_hub.Prelude.Int.{ℤ, pos}
use analytics_hub.Prelude.Dict.{Dict, lookup, insert, lookup-insert, lookup-remove}
use analytics_hub.Prelude.Float.{FloatOps}
use analytics_hub.Analytics.Prediction.{
  PredictionPoint, CachedPrediction, PredictionEngine, PredictionError, Chrono, is_valid, series_of,
  add_point, add_data_point,
}
use analytics_hub.Analytics.Prediction.Forecast.{
  forecast_of, keep, valid_points, answer, predict_arima,
}

lookup-insert_same :
    {V : Type 0} (name : String) (v : V) (d : Dict V) → lookup name (insert name v d) ≡ some v
lookup-insert_same name v d = lookup-insert name name v d ∙ rw (eq_refl name) refl

module _ (f : FloatOps) where
  -- A prediction that is made and cached.
  abbrev pub cached : List (PredictionPoint f.F) → ℤ → CachedPrediction f.F
  cached points created = record { points = points; created_at = created; ttl_seconds = pos 300 }

  keep_valid :
      (name : String) (created now : ℤ) (e : PredictionEngine f.F)
      (forecast : Outcome (List (PredictionPoint f.F)) PredictionError)
      {points : List (PredictionPoint f.F)}
      → (keep f name created e forecast).0 ≡ ok points
      → is_valid now (cached points created) ≡ true
      → valid_points f now (lookup name (keep f name created e forecast).1.predictions)
        ≡ some points
  keep_valid name created now e (err x) {points} made young = ground arith
  keep_valid name created now e (ok made_points) {points} made young =
      let same : made_points ≡ points = ground arith in
      ap (valid_points f now) (
        lookup-insert_same name (cached made_points created) e.predictions
        ∙ ap (λ ps. some (cached ps created)) same)
      ∙ rw young refl

  keep_result :
      (name : String) (created : ℤ) (e : PredictionEngine f.F)
      (forecast : Outcome (List (PredictionPoint f.F)) PredictionError)
      → (keep f name created e forecast).0 ≡ forecast
  keep_result name created e (ok points) = refl
  keep_result name created e (err x) = refl

  predict_uncached :
      (chrono : Chrono) (now created : ℤ) (name : String) (steps : ℕ) (e : PredictionEngine f.F)
      → lookup name e.predictions ≡ none
      → predict_arima f chrono now created name steps e
        ≡ keep f name created e (forecast_of f chrono (lookup name e.time_series) steps)
  unfolding predict_arima
  predict_uncached chrono now created name steps e new =
      ap
        (λ o.
          answer f (valid_points f now o)
            (keep f name created e (forecast_of f chrono (lookup name e.time_series) steps)) e)
        new

  -- For as long as a prediction is kept it answers every request for its metric, whatever number of
  -- steps is asked for: where no prediction was cached and one is made, then each later request that
  -- comes while it is younger than five minutes is answered with the same points, and changes
  -- nothing.
  pub cached_for_every_horizon :
      (chrono : Chrono) (now created : ℤ) (name : String) (steps : ℕ) (e : PredictionEngine f.F)
      (later created' : ℤ) (other_steps : ℕ) {points : List (PredictionPoint f.F)}
      → lookup name e.predictions ≡ none
      → (predict_arima f chrono now created name steps e).0 ≡ ok points
      → is_valid later (cached points created) ≡ true
      → predict_arima f chrono later created' name other_steps
          (predict_arima f chrono now created name steps e).1
        ≡ (ok points, (predict_arima f chrono now created name steps e).1)
  unfolding predict_arima
  cached_for_every_horizon chrono now created name steps e later created' other_steps {points} new
        made young =
      let made_now = predict_uncached chrono now created name steps e new in
      let forecast = forecast_of f chrono (lookup name e.time_series) steps in
      let after = (predict_arima f chrono now created name steps e).1 in
      let valid =
        ap (λ r. valid_points f later (lookup name r.1.predictions)) made_now
        ∙ keep_valid name created later e forecast (sym (ap (λ r. r.0) made_now) ∙ made) young in
      ap
        (λ o.
          answer f o
            (keep f name created' after
              (forecast_of f chrono (lookup name after.time_series) other_steps))
            after)
        valid

  -- A data point invalidates what is cached for its metric: the next prediction is computed from the
  -- series with the point in it.
  pub predict-add_data_point :
      (chrono : Chrono) (name : String) (value : f.F) (timestamp now created : ℤ) (steps : ℕ)
      (e : PredictionEngine f.F)
      → (predict_arima f chrono now created name steps (add_data_point name value timestamp e)).0
        ≡ forecast_of f chrono
            (some (
              add_point value timestamp
                (series_of e.prediction_history_size (lookup name e.time_series))))
            steps
  unfolding predict_arima add_data_point
  predict-add_data_point chrono name value timestamp now created steps e =
      let after = add_data_point name value timestamp e in
      let series =
        add_point value timestamp
          (series_of e.prediction_history_size (lookup name e.time_series)) in
      ap (λ r. r.0)
        (predict_uncached chrono now created name steps after (lookup-remove name e.predictions))
      ∙ keep_result name created after _
      ∙ ap (λ o. forecast_of f chrono o steps) (lookup-insert_same name series e.time_series)
