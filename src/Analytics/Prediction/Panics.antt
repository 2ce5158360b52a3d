-- ===== src/Analytics/Prediction/Panics.antt =====
-- By what the forecasts of src/analytics/prediction.rs do not fail, whatever was done before.
use analytics_hub.Prelude.{
  ℕ, ◌≡◌, ◌≢◌, ◌∙◌, refl, sym, ap, subst, List, [], ◌∷◌, length, Outcome, ok, err, ◌>>=◌, String,
  Option, none, some, ltb, arith, Bool-cases, inl, inr,
}
use analytics_hub.Prelude.Int.{ℤ}
use analytics_hub.Prelude.Dict.{lookup}
use analytics_hub.Prelude.Float.{FloatOps}
use analytics_hub.Analytics.Prediction.{
  PredictionPoint, TimeSeriesData, PredictionEngine, PredictionError, panicked, Chrono, on_time,
  series_of, add_data_point, cleanup_from, cleanup_old_data, range_from,
}
use analytics_hub.Analytics.Prediction.Forecast.{
  each_step, forecast_of, keep, valid_points, answer, predict_arima, smooth, smoothed_at,
  smoothed_points, smoothed_forecast, predict_exponential_smoothing,
}
use analytics_hub.Analytics.Prediction.Total.{
  back-ok, times_of, all_times, each_step_times, smoothed_time, forecast_total,
}
use analytics_hub.Analytics.Prediction.InSync.{
  Holds, AllValues, AllValues-insert, AllValues-lookup, AllValues-map, InSync, add_point-InSync,
  cleanup-InSync, series_of-InSync, AllInSync,
}

-- What is asked of the engine.
pub data Request (F : Type 0) : Type 0 where
  add : String → F → ℤ → Request F
  cleanup : ℤ → ℤ → Request F
  predict : ℤ → ℤ → String → ℕ → Request F

module _ (f : FloatOps) where
  keep_series :
      (name : String) (created : ℤ) (e : PredictionEngine f.F)
      (o : Outcome (List (PredictionPoint f.F)) PredictionError)
      → (keep f name created e o).1.time_series ≡ e.time_series
  keep_series name created e (ok ps) = refl
  keep_series name created e (err x) = refl

  answer_series :
      (o : Option (List (PredictionPoint f.F)))
      (fresh : Outcome (List (PredictionPoint f.F)) PredictionError × PredictionEngine f.F)
      (e : PredictionEngine f.F)
      → fresh.1.time_series ≡ e.time_series
      → (answer f o fresh e).1.time_series ≡ e.time_series
  answer_series none fresh e h = h
  answer_series (some ps) fresh e h = refl

  -- A new engine.
  abbrev pub start : ℕ → PredictionEngine f.F
  start history = record { prediction_history_size = history; time_series = []; predictions = [] }

  times-not_panicked :
      (o : Outcome (List (PredictionPoint f.F)) PredictionError) (times : Option (List ℤ))
      → times_of o ≡ on_time times
      → o ≢ err panicked
  times-not_panicked (ok ps) times h = λ e. ground arith
  times-not_panicked (err x) none h = λ e. ground arith
  times-not_panicked (err x) (some ts) h = λ e. ground arith

  answer-total :
      (o : Option (List (PredictionPoint f.F))) (name : String) (created : ℤ)
      (forecast : Outcome (List (PredictionPoint f.F)) PredictionError) (e : PredictionEngine f.F)
      → forecast ≢ err panicked
      → (answer f o (keep f name created e forecast) e).0 ≢ err panicked
  answer-total (some ps) name created forecast e h = λ p. ground arith
  answer-total none name created (ok ps) e h = λ p. ground arith
  answer-total none name created (err x) e h = h

  module _ (chrono : Chrono) where
    unfoldable pub serve : Request f.F → PredictionEngine f.F → PredictionEngine f.F
    unfolding add_data_point cleanup_old_data predict_arima
    serve (add name value timestamp) e = add_data_point name value timestamp e
    serve (cleanup now hours) e = (cleanup_old_data chrono now hours e).1
    serve (predict now created name steps) e = (predict_arima f chrono now created name steps e).1

    unfoldable pub serve_all : List (Request f.F) → PredictionEngine f.F → PredictionEngine f.F
    unfolding serve
    serve_all [] e = e
    serve_all (r ∷ rs) e = serve_all rs (serve r e)

    cleanup-AllInSync :
        (cutoff : Option ℤ) (e : PredictionEngine f.F)
        → AllInSync e
        → AllInSync (cleanup_from cutoff e).1
    cleanup-AllInSync none e h = h
    cleanup-AllInSync (some cutoff) e h = record {
      in_sync = AllValues-map InSync _ (cleanup-InSync cutoff) e.time_series h.in_sync;
    }

    serve-AllInSync :
        (r : Request f.F) (e : PredictionEngine f.F) → AllInSync e → AllInSync (serve r e)
    unfolding serve add_data_point cleanup_old_data predict_arima
    serve-AllInSync (add name value timestamp) e h =
        let series = lookup name e.time_series in
        let known =
          series_of-InSync e.prediction_history_size series
            (AllValues-lookup InSync name e.time_series h.in_sync) in
        record {
          in_sync =
              AllValues-insert InSync name _ e.time_series
                (add_point-InSync value timestamp (series_of e.prediction_history_size series)
                  known)
                h.in_sync;
        }
    serve-AllInSync (cleanup now hours) e h = cleanup-AllInSync (chrono.minus_hours now hours) e h
    serve-AllInSync (predict now created name steps) e h = record {
      in_sync =
          subst (AllValues InSync)
            (sym (
              answer_series (valid_points f now (lookup name e.predictions)) _ e (
                keep_series name created e
                  (forecast_of f chrono (lookup name e.time_series) steps))))
            h.in_sync;
    }

    serve_all-AllInSync :
        (rs : List (Request f.F)) (e : PredictionEngine f.F)
        → AllInSync e
        → AllInSync (serve_all rs e)
    unfolding serve_all
    serve_all-AllInSync [] e h = h
    serve_all-AllInSync (r ∷ rs) e h = serve_all-AllInSync rs (serve r e) (serve-AllInSync r e h)

    forecast_of-total :
        (o : Option (TimeSeriesData f.F)) (steps : ℕ)
        → Holds InSync o
        → forecast_of f chrono o steps ≢ err panicked
    forecast_of-total none steps h = λ e. ground arith
    forecast_of-total (some d) steps h = elim (Bool-cases (ltb (length d.values) 10)) [
      | inl few ↦ rw few (λ e. ground arith)
      | inr many ↦
          let (last, newest, times) = forecast_total f chrono d steps h (ground (arith, many)) in
          rw many (times-not_panicked _ _ times)
    ]

    smoothed_points-total :
        (values : List f.F) (timestamps : List ℤ) (steps : ℕ) (alpha : f.F)
        → length values ≡ length timestamps
        → smoothed_points f chrono values timestamps steps alpha ≢ err panicked
    smoothed_points-total [] timestamps steps alpha h = λ e. ground arith
    smoothed_points-total (v ∷ vs) timestamps steps alpha h =
        let (last, newest) = back-ok timestamps (omega (arith, h)) in
        times-not_panicked _ (all_times chrono last (range_from 1 steps)) (
          ap
            (λ o. times_of (
              o >>= λ at.
              each_step f (smoothed_at f chrono (smooth f alpha v vs) steps at)
                (range_from 1 steps)))
            newest
          ∙ each_step_times f chrono (smoothed_at f chrono (smooth f alpha v vs) steps last) last
              (range_from 1 steps) (smoothed_time f chrono (smooth f alpha v vs) steps last))

    smoothed_forecast-total :
        (o : Option (TimeSeriesData f.F)) (steps : ℕ) (alpha : f.F)
        → Holds InSync o
        → smoothed_forecast f chrono o steps alpha ≢ err panicked
    smoothed_forecast-total none steps alpha h = λ e. ground arith
    smoothed_forecast-total (some d) steps alpha h =
        smoothed_points-total d.values d.timestamps steps alpha h

    -- No forecast unwraps `None` or reads out of range: after any data points, cleanups and
    -- predictions of a new engine, those that overflowed included, neither forecast of any metric,
    -- for any number of steps, panics so. That a time overflows is another panic, which it does not
    -- exclude.
    pub forecasts_find_values :
        (history : ℕ) (rs : List (Request f.F)) (now created : ℤ) (name : String) (steps : ℕ)
        (alpha : f.F)
        → ((predict_arima f chrono now created name steps (serve_all rs (start history))).0
            ≢ err panicked)
          × (predict_exponential_smoothing f chrono name steps alpha (serve_all rs (start history))
              ≢ err panicked)
    unfolding predict_arima predict_exponential_smoothing
    forecasts_find_values history rs now created name steps alpha =
        let e = serve_all rs (start history) in
        let all = serve_all-AllInSync rs (start history) (record { in_sync = tt }) in
        let known = AllValues-lookup InSync name e.time_series all.in_sync in
        (
          answer-total (valid_points f now (lookup name e.predictions)) name created _ e
              (forecast_of-total (lookup name e.time_series) steps known),
          smoothed_forecast-total (lookup name e.time_series) steps alpha known,
        )
