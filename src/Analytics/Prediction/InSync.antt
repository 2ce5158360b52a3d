-- ===== src/Analytics/Prediction/InSync.antt =====
-- The queues of a series of src/analytics/prediction.rs are as long as each other.
use analytics_hub.Prelude.{
  ℕ, ◌-◌, ◌≡◌, refl, ap, List, [], ◌∷◌, All, length, length-append, length-drop, String, Option,
  none, some, leb, arith, Bool-cases, inl, inr,
}
use analytics_hub.Prelude.Int.{ℤ}
use analytics_hub.Prelude.Dict.{Dict, lookup, insert, str_eq}
use analytics_hub.Analytics.Prediction.{
  TimeSeriesData, PredictionEngine, pop_front, add_point, cleanup_before, map_values, series_of,
}
use analytics_hub.Analytics.Prediction.Cleanup.{cleanup_before_lem}

module _ {V : Type 0} (Q : V → Type 0) where
  abbrev pub Holds : Option V → Type 0
  Holds none = Unit
  Holds (some v) = Q v

  abbrev pub AllValues : Dict V → Type 0
  AllValues d = All (λ entry. Q (entry.1)) d

  pub AllValues-insert :
      (key : String) (v : V) (d : Dict V) → Q v → AllValues d → AllValues (insert key v d)
  unfolding insert
  AllValues-insert key v [] q h = (q, tt)
  AllValues-insert key v (entry ∷ d) q h =
      let later = AllValues-insert key v d q h.1 in
      elim (Bool-cases (str_eq (entry.0) key)) [ inl e ↦ rw e (q, h.1) | inr e ↦ rw e (h.0, later) ]

  pub AllValues-lookup : (key : String) (d : Dict V) → AllValues d → Holds (lookup key d)
  unfolding lookup
  AllValues-lookup key [] h = tt
  AllValues-lookup key (entry ∷ d) h =
      let later = AllValues-lookup key d h.1 in
      elim (Bool-cases (str_eq (entry.0) key)) [ inl e ↦ rw e (h.0) | inr e ↦ rw e later ]

  pub AllValues-map :
      (g : V → V)
      → ((v : V) → Q v → Q (g v))
      → (d : Dict V) → AllValues d
      → AllValues (map_values g d)
  AllValues-map g step [] h = tt
  AllValues-map g step ((key, v) ∷ d) h = (step v h.0, AllValues-map g step d h.1)

length-pop_front : {A : Type 0} (xs : List A) → length (pop_front xs) ≡ length xs - 1
length-pop_front [] = refl
length-pop_front (x ∷ xs) = omega arith

module _ {F : Type 0} where
  -- A value for each time.
  abbrev pub InSync : TimeSeriesData F → Type 0
  InSync d = length d.values ≡ length d.timestamps

  pub add_point-InSync :
      (v : F) (t : ℤ) (d : TimeSeriesData F) → InSync d → InSync (add_point v t d)
  unfolding add_point
  add_point-InSync v t d h =
      let popped : length (pop_front d.values) ≡ length (pop_front d.timestamps) =
        omega (arith, length-pop_front d.values, length-pop_front d.timestamps) in
      elim (Bool-cases (leb d.max_size (length d.values))) [
        | inl e ↦ rw e (
            omega (
              arith,
              length-append (pop_front d.values) (v ∷ []),
              length-append (pop_front d.timestamps) (t ∷ []),
            ))
        | inr e ↦
            rw e
              (omega (arith, length-append d.values (v ∷ []), length-append d.timestamps (t ∷ [])))
      ]

  pub cleanup-InSync :
      (cutoff : ℤ) (d : TimeSeriesData F) → InSync d → InSync (cleanup_before cutoff d)
  cleanup-InSync cutoff d h =
      let c = cleanup_before_lem cutoff d in
      omega (
        arith,
        ap length c.1,
        ap length c.2,
        length-drop c.0 d.values,
        length-drop c.0 d.timestamps,
      )

  pub series_of-InSync :
      (size : ℕ) (o : Option (TimeSeriesData F)) → Holds InSync o → InSync (series_of size o)
  series_of-InSync size none h = refl
  series_of-InSync size (some d) h = h

  pub record AllInSync (e : PredictionEngine F) : Type 0 where
    pub in_sync : AllValues InSync e.time_series
