-- ===== src/Analytics/Anomaly.antt =====
-- src/analytics/anomaly.rs. A baseline is updated under the lock of its entry; the configured
-- sensitivity is a field of the detector. The literals of the source are quotients of whole
-- numbers, which f64 rounds to the same values.
pub mod Baseline
pub mod Detection
use mathlib.Core.List.{reverse}
use analytics_hub.Prelude.{
  ℕ, zero, suc, ◌+◌, ◌-◌, String, Option, none, some, Bool, true, false, List, [], ◌∷◌, ◌++◌, map,
  length, take, ltb, leb, if◌then◌else◌,
}
use analytics_hub.Prelude.Int.{ℤ, ltb_ℤ}
use analytics_hub.Prelude.Dict.{Dict, lookup, insert, remove}
use analytics_hub.Prelude.Float.{FloatOps}
use analytics_hub.Analytics.Statistics.{sum_from, zero_float}

pub data AnomalyType : Type 0 where
  spike drop high_value low_value pattern_anomaly : AnomalyType

pub data AnomalySeverity : Type 0 where
  low medium high critical : AnomalySeverity

pub record Anomaly (F : Type 0) : Type 0 where
  pub metric_name : String
  pub timestamp : ℤ
  pub value : F
  pub expected_value : F
  pub deviation : F
  pub anomaly_type : AnomalyType
  pub severity : AnomalySeverity

-- The queues, front first.
pub record MetricBaseline (F : Type 0) : Type 0 where
  pub values : List F
  pub timestamps : List ℤ
  pub max_size : ℕ

pub record AnomalyDetector (F : Type 0) : Type 0 where
  pub sensitivity : F
  pub baselines : Dict (MetricBaseline F)
  pub anomalies : Dict (List (Anomaly F))

-- `pop_front()`
abbrev pub pop : {A : Type 0} → List A → List A
pop [] = []
pop (x ∷ xs) = xs

pub record DetectorStats : Type 0 where
  pub total_metrics : ℕ
  pub total_anomalies : ℕ
  pub active_baselines : ℕ

module _ {F : Type 0} where
  abbrev pub new_baseline : ℕ → MetricBaseline F
  new_baseline max_size = record { values = []; timestamps = []; max_size = max_size }

  abbrev pop_front : MetricBaseline F → MetricBaseline F
  pop_front b = record b { values = pop b.values; timestamps = pop b.timestamps }

  abbrev push_back : F → ℤ → MetricBaseline F → MetricBaseline F
  push_back v t b = record b { values = b.values ++ v ∷ []; timestamps = b.timestamps ++ t ∷ [] }

  unfoldable pub add_value : F → ℤ → MetricBaseline F → MetricBaseline F
  add_value v t b = push_back v t (if leb b.max_size (length b.values) then pop_front b else b)

  -- `values.back()`
  unfoldable pub back : List F → Option F
  back [] = none
  back (x ∷ []) = some x
  back (x ∷ y ∷ xs) = back (y ∷ xs)

module _ (f : FloatOps) where
  abbrev pub half : f.F
  half = f.div (f.of_nat 1) (f.of_nat 2)

  abbrev pub one_and_a_half : f.F
  one_and_a_half = f.div (f.of_nat 3) (f.of_nat 2)

  unfoldable pub calculate_mean : MetricBaseline f.F → f.F
  calculate_mean b =
      if leb (length b.values) 0
      then zero_float f
      else f.div (sum_from f (zero_float f) b.values) (f.of_nat (length b.values))

  abbrev squared_diff : f.F → f.F → f.F
  squared_diff mean v = let diff = f.sub v mean in f.mul diff diff

  unfoldable pub calculate_stddev : f.F → MetricBaseline f.F → f.F
  calculate_stddev mean b =
      let variance =
        f.div (sum_from f (zero_float f) (map (squared_diff mean) b.values))
          (f.of_nat (length b.values - 1)) in
      if ltb (length b.values) 2
      then f.of_nat 1
      else f.max (f.sqrt variance) (f.div (f.of_nat 1) (f.of_nat 10000))

  unfoldable pub get_threshold_for_sensitivity : f.F → f.F
  get_threshold_for_sensitivity sensitivity = f.sub (f.of_nat 3) (f.mul sensitivity (f.of_nat 2))

  abbrev is_spike : f.F → Option f.F → Bool
  is_spike value none = false
  is_spike value (some last_value) = f.lt (f.mul last_value one_and_a_half) value

  abbrev is_drop : f.F → Option f.F → Bool
  is_drop value none = false
  is_drop value (some last_value) = f.lt value (f.mul last_value half)

  unfoldable pub classify_anomaly : f.F → f.F → MetricBaseline f.F → AnomalyType
  classify_anomaly value mean b =
      if f.lt mean value
      then if is_spike value (back b.values) then spike else high_value
      else if is_drop value (back b.values)
      then drop
      else low_value

  unfoldable pub calculate_severity : f.F → AnomalySeverity
  calculate_severity z =
      if f.lt (f.of_nat 5) z
      then critical
      else if f.lt (f.of_nat 4) z
      then high
      else if f.lt (f.of_nat 3) z
      then medium
      else low

  abbrev pub or_empty : {A : Type 0} → Option (List A) → List A
  or_empty none = []
  or_empty (some xs) = xs

  abbrev pub baseline_of : Option (MetricBaseline f.F) → MetricBaseline f.F
  baseline_of none = new_baseline 100
  baseline_of (some b) = b

  unfoldable pub z_score : f.F → MetricBaseline f.F → f.F
  unfolding calculate_mean calculate_stddev
  z_score value b =
      let mean = calculate_mean b in f.div (f.abs (f.sub value mean)) (calculate_stddev mean b)

  unfoldable pub anomaly_at : String → f.F → ℤ → MetricBaseline f.F → Anomaly f.F
  unfolding calculate_mean classify_anomaly calculate_severity z_score
  anomaly_at metric_name value timestamp b =
      let mean = calculate_mean b in
      record {
        metric_name = metric_name;
        timestamp = timestamp;
        value = value;
        expected_value = mean;
        deviation = z_score value b;
        anomaly_type = classify_anomaly value mean b;
        severity = calculate_severity (z_score value b);
      }

  -- What follows `add_value`: `b` is the baseline with the value in it.
  unfoldable pub detect : f.F → String → f.F → ℤ → MetricBaseline f.F → Option (Anomaly f.F)
  unfolding get_threshold_for_sensitivity z_score anomaly_at
  detect sensitivity metric_name value timestamp b =
      if ltb (length b.values) 10
      then none
      else if f.lt (get_threshold_for_sensitivity sensitivity) (z_score value b)
      then some (anomaly_at metric_name value timestamp b)
      else none

  abbrev pub store_anomaly :
      String → Option (Anomaly f.F) → Dict (List (Anomaly f.F)) → Dict (List (Anomaly f.F))
  store_anomaly metric_name none d = d
  store_anomaly metric_name (some a) d =
      insert metric_name (or_empty (lookup metric_name d) ++ a ∷ []) d

  unfoldable pub check_anomaly :
      String → f.F → ℤ → AnomalyDetector f.F → Option (Anomaly f.F) × AnomalyDetector f.F
  unfolding add_value detect
  check_anomaly metric_name value timestamp d =
      let b = add_value value timestamp (baseline_of (lookup metric_name d.baselines)) in
      let found = detect d.sensitivity metric_name value timestamp b in
      (
        found,
        record d {
          baselines = insert metric_name b d.baselines;
          anomalies = store_anomaly metric_name found d.anomalies;
        },
      )

  -- `iter().rev().take(limit)`
  unfoldable pub get_anomalies : String → ℕ → AnomalyDetector f.F → List (Anomaly f.F)
  get_anomalies metric_name limit d =
      take limit (reverse (or_empty (lookup metric_name d.anomalies)))

  abbrev all_anomalies : Dict (List (Anomaly f.F)) → List (Anomaly f.F)
  all_anomalies [] = []
  all_anomalies ((name, l) ∷ d) = l ++ all_anomalies d

  -- `sort_by` with the later timestamp first, a stable sort.
  unfoldable insert_latest : Anomaly f.F → List (Anomaly f.F) → List (Anomaly f.F)
  insert_latest a [] = a ∷ []
  insert_latest a (b ∷ l) =
      let rest = insert_latest a l in if ltb_ℤ a.timestamp b.timestamp then b ∷ rest else a ∷ b ∷ l

  unfoldable sort_latest : List (Anomaly f.F) → List (Anomaly f.F)
  sort_latest [] = []
  sort_latest (a ∷ l) = insert_latest a (sort_latest l)

  unfoldable pub get_all_anomalies : ℕ → AnomalyDetector f.F → List (Anomaly f.F)
  unfolding sort_latest insert_latest
  get_all_anomalies limit d = take limit (sort_latest (all_anomalies d.anomalies))

  unfoldable pub reset_baseline : String → AnomalyDetector f.F → AnomalyDetector f.F
  reset_baseline metric_name d = record d { baselines = remove metric_name d.baselines }

  unfoldable pub get_stats : AnomalyDetector f.F → DetectorStats
  get_stats d = record {
    total_metrics = length d.baselines;
    total_anomalies = length (all_anomalies d.anomalies);
    active_baselines = length d.baselines;
  }
