-- ===== src/Analytics/Prediction.antt =====
-- src/analytics/prediction.rs. The time is an argument: `now` where the age of a cached prediction
-- is looked at, `created` where one is made. The literals of the source are quotients of whole
-- numbers, which f64 rounds to the same values.
pub mod Forecast
pub mod Seasons
pub mod Cache
pub mod Total
pub mod InSync
pub mod Panics
pub mod Cleanup
use Prim.Native.Nat.{min}
use analytics_hub.Prelude.{
  ℕ, zero, suc, ◌+◌, ◌-◌, ◌*◌, ◌/◌, ◌%◌, String, Option, none, some, Bool, true, false, List, [],
  ◌∷◌, ◌++◌, map, length, ltb, leb, if◌then◌else◌, Outcome, ok, err, ◌>>=◌,
}
use analytics_hub.Prelude.Int.{ℤ, pos, ltb_ℤ, sub_ℤ, add_ℕ, mul_ℕ, div_ℕ}
use analytics_hub.Prelude.Dict.{Dict, lookup, insert, remove}
use analytics_hub.Prelude.Float.{FloatOps}
use analytics_hub.Analytics.Statistics.{sum_from, zero_float, at}

pub record PredictionPoint (F : Type 0) : Type 0 where
  pub timestamp : ℤ
  pub value : F
  pub confidence : F
  pub lower_bound : F
  pub upper_bound : F

-- The queues, front first.
pub record TimeSeriesData (F : Type 0) : Type 0 where
  pub values : List F
  pub timestamps : List ℤ
  pub max_size : ℕ

pub record CachedPrediction (F : Type 0) : Type 0 where
  pub points : List (PredictionPoint F)
  pub created_at : ℤ
  pub ttl_seconds : ℤ

-- `prediction_history_size` is a field of the configuration.
pub record PredictionEngine (F : Type 0) : Type 0 where
  pub prediction_history_size : ℕ
  pub time_series : Dict (TimeSeriesData F)
  pub predictions : Dict (CachedPrediction F)

pub record PredictionStats : Type 0 where
  pub total_time_series : ℕ
  pub total_cached_predictions : ℕ
  pub total_prediction_points : ℕ

-- `panicked` is an `unwrap()` of `None` or an index out of range, and `overflowed` the panic of chrono
-- on a time or a duration that it cannot represent.
pub data PredictionError : Type 0 where
  no_time_series insufficient_data no_data panicked overflowed : PredictionError

-- What of chrono the engine uses: `t + Duration::minutes(i)` and `t - Duration::hours(h)`, and
-- `none` where they panic.
pub record Chrono : Type 0 where
  pub plus_minutes : ℤ → ℕ → Option ℤ
  pub minus_hours : ℤ → ℤ → Option ℤ

abbrev pub on_time : {A : Type 0} → Option A → Outcome A PredictionError
on_time none = err overflowed
on_time (some a) = ok a

abbrev pub second : ℕ
second = 1000000000

-- `pop_front()`, `back()` and `[i]`.
abbrev pub pop_front : {A : Type 0} → List A → List A
pop_front [] = []
pop_front (x ∷ xs) = xs

unfoldable pub back : {A : Type 0} → List A → Outcome A PredictionError
back [] = err panicked
back (x ∷ []) = ok x
back (x ∷ y ∷ xs) = back (y ∷ xs)

unfoldable pub index : {A : Type 0} → List A → ℕ → Outcome A PredictionError
index [] i = err panicked
index (x ∷ xs) zero = ok x
index (x ∷ xs) (suc i) = index xs i

-- `a..b`, from `a` for `n` numbers.
abbrev pub range_from : ℕ → ℕ → List ℕ
range_from a zero = []
range_from a (suc n) = a ∷ range_from (suc a) n

abbrev pub map_values : {V : Type 0} → (V → V) → Dict V → Dict V
map_values f [] = []
map_values f ((key, v) ∷ d) = (key, f v) ∷ map_values f d

module _ {F : Type 0} where
  abbrev pub new_series : ℕ → TimeSeriesData F
  new_series max_size = record { values = []; timestamps = []; max_size = max_size }

  unfoldable pub add_point : F → ℤ → TimeSeriesData F → TimeSeriesData F
  add_point value timestamp d =
      let kept =
        if leb d.max_size (length d.values)
        then record d { values = pop_front d.values; timestamps = pop_front d.timestamps }
        else d in
      record kept {
        values = kept.values ++ value ∷ [];
        timestamps = kept.timestamps ++ timestamp ∷ [];
      }

  -- The loop of `cleanup_before` on the two queues.
  abbrev pub drop_before : ℤ → List ℤ → List F → List ℤ × List F
  drop_before cutoff [] values = ([], values)
  drop_before cutoff (t ∷ ts) values =
      let rest = drop_before cutoff ts (pop_front values) in
      if ltb_ℤ t cutoff then rest else (t ∷ ts, values)

  unfoldable pub cleanup_before : ℤ → TimeSeriesData F → TimeSeriesData F
  cleanup_before cutoff d =
      let kept = drop_before cutoff d.timestamps d.values in
      record d { timestamps = kept.0; values = kept.1 }

  abbrev pub is_valid : ℤ → CachedPrediction F → Bool
  is_valid now c = ltb_ℤ (div_ℕ (sub_ℤ now c.created_at) second) c.ttl_seconds

  abbrev pub series_of : ℕ → Option (TimeSeriesData F) → TimeSeriesData F
  series_of size none = new_series size
  series_of size (some d) = d

  unfoldable pub add_data_point : String → F → ℤ → PredictionEngine F → PredictionEngine F
  unfolding add_point
  add_data_point metric_name value timestamp e =
      let series = series_of e.prediction_history_size (lookup metric_name e.time_series) in
      record e {
        time_series = insert metric_name (add_point value timestamp series) e.time_series;
        predictions = remove metric_name e.predictions;
      }

  -- What follows the computation of the cutoff.
  abbrev pub cleanup_from :
      Option ℤ → PredictionEngine F → Outcome (Unit {0}) PredictionError × PredictionEngine F
  cleanup_from none e = (err overflowed, e)
  cleanup_from (some cutoff) e =
      (ok tt, record e { time_series = map_values (cleanup_before cutoff) e.time_series })

  unfoldable pub cleanup_old_data :
      Chrono → ℤ → ℤ → PredictionEngine F → Outcome (Unit {0}) PredictionError × PredictionEngine F
  unfolding cleanup_before
  cleanup_old_data chrono now retention_hours e =
      cleanup_from (chrono.minus_hours now retention_hours) e

  abbrev points_of : Dict (CachedPrediction F) → ℕ
  points_of [] = 0
  points_of ((key, c) ∷ d) = length c.points + points_of d

  unfoldable pub get_stats : PredictionEngine F → PredictionStats
  get_stats e = record {
    total_time_series = length e.time_series;
    total_cached_predictions = length e.predictions;
    total_prediction_points = points_of e.predictions;
  }
