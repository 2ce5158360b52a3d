-- ===== src/Analytics/Statistics.antt =====
-- `StatisticalMeasures` of src/models/metrics.rs, and `compute_statistics` and `percentile` of
-- src/analytics/aggregation_engine.rs. The values come from JSON numbers, so none of them is NaN
-- and `partial_cmp` always answers.
pub mod Order
use Prim.Native.Nat.{min}
use analytics_hub.Prelude.{
  ℕ, zero, suc, ◌+◌, ◌-◌, Bool, true, false, Option, none, some, List, [], ◌∷◌, map, length,
  if◌then◌else◌,
}
use analytics_hub.Prelude.Float.{FloatOps}

pub record StatisticalMeasures (F : Type 0) : Type 0 where
  pub avg : F
  pub min : F
  pub max : F
  pub p50 : F
  pub p95 : F
  pub p99 : F
  pub stddev : Option F
  pub count : ℕ
  pub sum : F

module _ (f : FloatOps) where
  abbrev pub zero_float : f.F
  zero_float = f.of_nat 0

  -- `StatisticalMeasures::default`
  unfoldable pub default_measures : StatisticalMeasures f.F
  default_measures = record {
    avg = zero_float;
    min = zero_float;
    max = zero_float;
    p50 = zero_float;
    p95 = zero_float;
    p99 = zero_float;
    stddev = none;
    count = 0;
    sum = zero_float;
  }

  unfoldable pub insert : f.F → List f.F → List f.F
  insert x [] = x ∷ []
  insert x (y ∷ ys) = if f.lt y x then y ∷ insert x ys else x ∷ y ∷ ys

  -- `sort_by`, a stable sort.
  unfoldable pub sort : List f.F → List f.F
  sort [] = []
  sort (x ∷ xs) = insert x (sort xs)

  -- `iter().sum()`
  unfoldable pub sum_from : f.F → List f.F → f.F
  sum_from acc [] = acc
  sum_from acc (x ∷ xs) = sum_from (f.add acc x) xs

  -- `xs[i]`, at an index in range.
  unfoldable pub at : List f.F → ℕ → f.F
  at [] i = zero_float
  at (x ∷ xs) zero = x
  at (x ∷ xs) (suc i) = at xs i

  -- The index of a percentile in `n` sorted values.
  unfoldable pub percentile_index : ℕ → ℕ → ℕ
  percentile_index p n =
      min (f.to_nat (f.mul (f.div (f.of_nat p) (f.of_nat 100)) (f.of_nat (n - 1)))) (n - 1)

  unfoldable pub percentile : List f.F → ℕ → f.F
  percentile [] p = zero_float
  percentile (x ∷ xs) p = at (x ∷ xs) (percentile_index p (length (x ∷ xs)))

  abbrev squared_diff : f.F → f.F → f.F
  squared_diff avg v = let diff = f.sub v avg in f.mul diff diff

  measures_of : List f.F → StatisticalMeasures f.F
  measures_of sorted =
      let count = length sorted in
      let sum = sum_from zero_float sorted in
      let avg = f.div sum (f.of_nat count) in
      let variance = f.div (sum_from zero_float (map (squared_diff avg) sorted)) (f.of_nat count) in
      record {
        avg = avg;
        min = at sorted 0;
        max = at sorted (count - 1);
        p50 = percentile sorted 50;
        p95 = percentile sorted 95;
        p99 = percentile sorted 99;
        stddev = some (f.sqrt variance);
        count = count;
        sum = sum;
      }

  unfoldable pub compute_statistics : List f.F → StatisticalMeasures f.F
  unfolding measures_of
  compute_statistics [] = default_measures
  compute_statistics (x ∷ xs) = measures_of (sort (x ∷ xs))
