-- ===== src/Analytics/Anomaly/Detection.antt =====
-- What src/analytics/anomaly.rs reports as an anomaly, and of which type.
use mathlib.Core.List.{reverse, reverse-append}
use text.Mathlib.TextPositions.{eq_refl}
use analytics_hub.Prelude.{
  ℕ, suc, ◌≡◌, ◌≢◌, refl, sym, ap, ◌∙◌, String, some, false, List, [], ◌∷◌, ◌++◌, take, arith,
}
use analytics_hub.Prelude.Int.{ℤ}
use analytics_hub.Prelude.Dict.{Dict, lookup, lookup-insert}
use analytics_hub.Prelude.Float.{FloatOps}
use analytics_hub.Analytics.Anomaly.{
  spike, drop, Anomaly, MetricBaseline, AnomalyDetector, add_value, back, half, one_and_a_half,
  baseline_of, calculate_mean, classify_anomaly, anomaly_at, detect, or_empty, store_anomaly,
  check_anomaly, get_anomalies,
}

module _ {A : Type 0} where
  back-append : (xs : List A) (x : A) → back (xs ++ x ∷ []) ≡ some x
  unfolding back
  back-append [] x = refl
  back-append (y ∷ []) x = refl
  back-append (y ∷ z ∷ xs) x = back-append (z ∷ xs) x

module _ (f : FloatOps) where
  back-add_value :
      (v : f.F) (t : ℤ) (b : MetricBaseline f.F) → back (add_value v t b).values ≡ some v
  unfolding add_value
  back-add_value v t b = back-append _ v

  stored_under :
      (name : String) (a : Anomaly f.F) (d : Dict (List (Anomaly f.F)))
      → lookup name (store_anomaly f name (some a) d) ≡ some (or_empty f (lookup name d) ++ a ∷ [])
  stored_under name a d =
      lookup-insert name name (or_empty f (lookup name d) ++ a ∷ []) d ∙ rw (eq_refl name) refl

  take-reverse :
      (limit : ℕ) (l : List (Anomaly f.F)) (a : Anomaly f.F)
      → take (suc limit) (reverse (l ++ a ∷ [])) ≡ a ∷ take limit (reverse l)
  take-reverse limit l a = ap (take (suc limit)) (reverse-append l (a ∷ []))

  -- An anomaly that is reported is kept: it is the first of the recent ones of its metric, followed
  -- by those of before, as far as the limit goes.
  pub detected_is_latest :
      (name : String) (v : f.F) (t : ℤ) (d : AnomalyDetector f.F) (limit : ℕ) {a : Anomaly f.F}
      → (check_anomaly f name v t d).0 ≡ some a
      → get_anomalies f name (suc limit) (check_anomaly f name v t d).1
        ≡ a ∷ get_anomalies f name limit d
  unfolding check_anomaly get_anomalies
  detected_is_latest name v t d limit {a} e =
      let kept = stored_under name a d.anomalies in
      let found = or_empty f (lookup name d.anomalies) in
      ap
        (λ o.
          take (suc limit)
            (reverse (or_empty f (lookup name (store_anomaly f name o d.anomalies)))))
        e
      ∙ ap (λ o. take (suc limit) (reverse (or_empty f o))) kept
      ∙ take-reverse limit found a

  classify_own :
      (v mean : f.F) (b : MetricBaseline f.F)
      → back b.values ≡ some v
      → f.lt (f.mul v (one_and_a_half f)) v ≡ false
      → f.lt v (f.mul v (half f)) ≡ false
      → (classify_anomaly f v mean b ≢ spike) × (classify_anomaly f v mean b ≢ drop)
  unfolding classify_anomaly
  classify_own v mean b own up down = (λ e. ground arith, λ e. ground arith)

  detect_type :
      (sensitivity : f.F) (name : String) (v : f.F) (t : ℤ) (b : MetricBaseline f.F)
      {a : Anomaly f.F}
      → detect f sensitivity name v t b ≡ some a
      → (mean : f.F) × (a.anomaly_type ≡ classify_anomaly f v mean b)
  unfolding detect anomaly_at
  detect_type sensitivity name v t b e = (calculate_mean f b, ground arith)

  -- The type of an anomaly compares the value with the newest one of the baseline, and that is the
  -- value itself: an anomaly is neither a spike nor a drop where the value does not exceed one and a
  -- half times itself and is not below half of itself.
  pub never_spike_or_drop :
      (name : String) (v : f.F) (t : ℤ) (d : AnomalyDetector f.F) {a : Anomaly f.F}
      → f.lt (f.mul v (one_and_a_half f)) v ≡ false
      → f.lt v (f.mul v (half f)) ≡ false
      → (check_anomaly f name v t d).0 ≡ some a
      → (a.anomaly_type ≢ spike) × (a.anomaly_type ≢ drop)
  unfolding check_anomaly
  never_spike_or_drop name v t d up down e =
      let b = add_value v t (baseline_of f (lookup name d.baselines)) in
      let found = detect_type d.sensitivity name v t b e in
      let own =
        classify_own v found.0 b (back-add_value v t (baseline_of f (lookup name d.baselines))) up
          down in
      (λ s. own.0 (sym found.1 ∙ s), λ s. own.1 (sym found.1 ∙ s))
