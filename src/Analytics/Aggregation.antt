-- ===== src/Analytics/Aggregation.antt =====
-- The in-memory engine of src/analytics/aggregation.rs. Each map of a window is updated under its
-- lock; `Utc::now()` is an argument. The tags of a metric are always empty and left out.
pub mod Points
use Prim.Native.Nat.{min}
use mathlib.Core.Option
use analytics_hub.Prelude.{
  ℕ, ◌+◌, ◌-◌, String, Option, none, some, Bool, true, false, List, [], ◌∷◌, ◌++◌, map, length,
  if◌then◌else◌, ◌==◌,
}
use analytics_hub.Prelude.Int.{ℤ, ltb_ℤ}
use analytics_hub.Prelude.Dict.{Dict, lookup, insert, remove}
use analytics_hub.Prelude.Float.{FloatOps}
use analytics_hub.Analytics.Window.{TimeWindow, to_seconds, seconds_to_window}
use analytics_hub.Analytics.Statistics.{
  StatisticalMeasures, default_measures, sort, sum_from, at, zero_float,
}

pub record AggregationState (F : Type 0) : Type 0 where
  pub values : List F
  pub timestamps : List ℤ
  pub min_timestamp : Option ℤ
  pub max_timestamp : Option ℤ

pub record AggregatedMetric (F : Type 0) : Type 0 where
  pub name : String
  pub window : TimeWindow
  pub window_start : ℤ
  pub window_end : ℤ
  pub values : StatisticalMeasures F

-- `AggregationEngine`: for each window its metrics.
abbrev pub Aggregations : Type 0 → Type 0
Aggregations F = List (TimeWindow × Dict (AggregationState F))

unfoldable pub window_eq : TimeWindow → TimeWindow → Bool
window_eq a b = to_seconds a == to_seconds b

abbrev pub earlier : Option ℤ → ℤ → Option ℤ
earlier none t = some t
earlier (some m) t = if ltb_ℤ t m then some t else some m

abbrev pub later : Option ℤ → ℤ → Option ℤ
later none t = some t
later (some m) t = if ltb_ℤ m t then some t else some m

abbrev pub or_now : ℤ → Option ℤ → ℤ
or_now now none = now
or_now now (some t) = t

-- `AggregationStats`
pub record AggregationStats : Type 0 where
  pub total_metrics : ℕ
  pub total_data_points : ℕ
  pub active_windows : ℕ

module _ {F : Type 0} where
  abbrev pub new_state : AggregationState F
  new_state = record { values = []; timestamps = []; min_timestamp = none; max_timestamp = none }

  unfoldable pub add_value : F → ℤ → AggregationState F → AggregationState F
  add_value v t s = record {
    values = s.values ++ v ∷ [];
    timestamps = s.timestamps ++ t ∷ [];
    min_timestamp = earlier s.min_timestamp t;
    max_timestamp = later s.max_timestamp t;
  }

  abbrev pub or_new : Option (AggregationState F) → AggregationState F
  or_new none = new_state
  or_new (some s) = s

  -- `aggregations.insert(window, DashMap::new())`
  unfoldable pub insert_window : TimeWindow → Aggregations F → Aggregations F
  insert_window w [] = (w, []) ∷ []
  insert_window w ((u, d) ∷ l) =
      let rest = insert_window w l in if window_eq u w then (u, []) ∷ l else (u, d) ∷ rest

  abbrev pub insert_windows : List ℕ → Aggregations F → Aggregations F
  insert_windows [] l = l
  insert_windows (s ∷ ss) l = insert_windows ss (insert_window (seconds_to_window s) l)

  -- `AggregationEngine::new`, from the windows of the configuration.
  unfoldable pub new_engine : List ℕ → Aggregations F
  new_engine aggregation_windows = insert_windows aggregation_windows []

  -- `add_point`: every window takes the value, whatever its time.
  unfoldable pub add_point : String → F → ℤ → Aggregations F → Aggregations F
  unfolding add_value
  add_point name v t [] = []
  add_point name v t ((w, d) ∷ l) =
      (w, insert name (add_value v t (or_new (lookup name d))) d) ∷ add_point name v t l

  unfoldable pub find_window : TimeWindow → Aggregations F → Option (Dict (AggregationState F))
  find_window w [] = none
  find_window w ((u, d) ∷ l) = let rest = find_window w l in if window_eq u w then some d else rest

module _ (f : FloatOps) where
  -- The index of a percentile in `n` values.
  abbrev percentile_of : ℕ → List f.F → f.F
  percentile_of p sorted = at f sorted (
      min (f.to_nat (f.mul (f.of_nat (length sorted)) (f.div (f.of_nat p) (f.of_nat 100))))
        (length sorted - 1))

  abbrev squared_diff : f.F → f.F → f.F
  squared_diff avg v = let diff = f.sub v avg in f.mul diff diff

  statistics_of : List f.F → StatisticalMeasures f.F
  statistics_of values =
      let count = length values in
      let sum = sum_from f (zero_float f) values in
      let avg = f.div sum (f.of_nat count) in
      let sorted = sort f values in
      let variance =
        f.div (sum_from f (zero_float f) (map (squared_diff avg) values)) (f.of_nat count) in
      record {
        avg = avg;
        min = at f sorted 0;
        max = at f sorted (length sorted - 1);
        p50 = percentile_of 50 sorted;
        p95 = percentile_of 95 sorted;
        p99 = percentile_of 99 sorted;
        stddev = some (f.sqrt variance);
        count = count;
        sum = sum;
      }

  unfoldable pub calculate_statistics : List f.F → StatisticalMeasures f.F
  unfolding statistics_of
  calculate_statistics [] = default_measures f
  calculate_statistics (x ∷ xs) = statistics_of (x ∷ xs)

  abbrev pub metric_of : ℤ → String → TimeWindow → AggregationState f.F → AggregatedMetric f.F
  metric_of now name w s = record {
    name = name;
    window = w;
    window_start = or_now now s.min_timestamp;
    window_end = or_now now s.max_timestamp;
    values = calculate_statistics s.values;
  }

  abbrev pub in_window :
      ℤ → String → TimeWindow → Option (Dict (AggregationState f.F)) → Option (AggregatedMetric f.F)
  in_window now name w none = none
  in_window now name w (some d) = Option.map (metric_of now name w) (lookup name d)

  unfoldable pub get_aggregated :
      ℤ → String → TimeWindow → Aggregations f.F → Option (AggregatedMetric f.F)
  unfolding calculate_statistics
  get_aggregated now name w l = in_window now name w (find_window w l)

module _ {F : Type 0} where
  unfoldable pub reset_metric : String → Aggregations F → Aggregations F
  reset_metric name [] = []
  reset_metric name ((w, d) ∷ l) = (w, remove name d) ∷ reset_metric name l

  unfoldable pub clear_all : Aggregations F → Aggregations F
  clear_all [] = []
  clear_all ((w, d) ∷ l) = (w, []) ∷ clear_all l

  abbrev points_in : Dict (AggregationState F) → ℕ
  points_in [] = 0
  points_in ((name, s) ∷ d) = length s.values + points_in d

  unfoldable pub get_stats : Aggregations F → AggregationStats
  get_stats [] = record { total_metrics = 0; total_data_points = 0; active_windows = 0 }
  get_stats ((w, d) ∷ l) =
      let rest = get_stats l in
      record {
        total_metrics = length d + rest.total_metrics;
        total_data_points = points_in d + rest.total_data_points;
        active_windows = 1 + rest.active_windows;
      }
