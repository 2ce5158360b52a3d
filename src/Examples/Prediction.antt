-- ===== src/Examples/Prediction.antt =====
-- Predictions at concrete inputs.
use analytics_hub.Prelude.{
  ℕ, ◌*◌, Option, none, some, if◌then◌else◌, ◌≡◌, ◌≢◌, List, [], ◌∷◌, map, arith, err,
}
use analytics_hub.Prelude.Int.{ℤ, pos, ltb_ℤ, add_ℕ, sub_ℤ, mul_ℕ}
use analytics_hub.Analytics.Prediction.{Chrono, panicked}
use analytics_hub.Analytics.Prediction.Forecast.{
  calculate_seasonality, predict_arima, predict_exponential_smoothing,
}
use analytics_hub.Analytics.Prediction.Seasons.{every, mean_of, centred, seasonality_means}
use analytics_hub.Analytics.Prediction.Panics.{
  Request, add, predict, start, serve_all, forecasts_find_values,
}
use analytics_hub.Examples.Data.{hundredths}

seasonality_means_example :
    calculate_seasonality hundredths (100 ∷ 200 ∷ 300 ∷ 600 ∷ [])
    ≡ centred hundredths
        (map (λ i. mean_of hundredths (every i 2 (100 ∷ 200 ∷ 300 ∷ 600 ∷ []))) (0 ∷ 1 ∷ []))
seasonality_means_example = seasonality_means hundredths (100 ∷ 200 ∷ 300 ∷ 600 ∷ []) (omega arith)

-- Times are represented up to some day.
abbrev up_to : ℤ → Option ℤ
up_to t = if ltb_ℤ t (pos 9000000000000000000) then some t else none

abbrev clock : Chrono
clock = record {
  plus_minutes = λ t i. up_to (add_ℕ t (i * 60000000000));
  minus_hours = λ t h. up_to (sub_ℤ t (mul_ℕ h 3600000000000));
}

abbrev requests : List (Request ℕ)
requests = add "latency" 100 (pos 0) ∷ predict (pos 1) (pos 1) "latency" 5 ∷ []

forecasts_find_values_example :
    ((predict_arima hundredths clock
        (pos 2)
        (pos 2)
        "latency"
        3
        (serve_all hundredths clock requests (start hundredths 100))).0
      ≢ err panicked)
    × (predict_exponential_smoothing hundredths clock "latency" 3 50
          (serve_all hundredths clock requests (start hundredths 100))
        ≢ err panicked)
forecasts_find_values_example =
    forecasts_find_values hundredths clock 100 requests (pos 2) (pos 2) "latency" 3 50
