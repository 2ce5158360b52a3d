-- ===== src/Analytics/Prediction/Seasons.antt =====
-- The seasonal means of src/analytics/prediction.rs.
use analytics_hub.Prelude.{
  ℕ, zero, suc, ◌+◌, ◌-◌, ◌≤◌, ◌<◌, ◌≡◌, refl, sym, ap, ◌∙◌, List, [], ◌∷◌, map, drop, length, ltb,
  ltb→lt, arith, Bool-cases, inl, inr,
}
use analytics_hub.Prelude.Float.{FloatOps}
use analytics_hub.Analytics.Statistics.{sum_from, zero_float, at}
use analytics_hub.Analytics.Prediction.{range_from}
use analytics_hub.Analytics.Prediction.Forecast.{
  stride, mean_or_zero, period_of, season, calculate_seasonality,
}

-- Every `period`-th element, after the first `skipped` ones.
unfoldable pub every : {A : Type 0} → ℕ → ℕ → List A → List A
every skipped period [] = []
every zero period (x ∷ xs) = x ∷ every (period - 1) period xs
every (suc skipped) period (x ∷ xs) = every skipped period xs

module _ {A : Type 0} where
  every-drop : (n period : ℕ) (xs : List A) → every 0 period (drop n xs) ≡ every n period xs
  unfolding every
  every-drop zero period xs = refl
  every-drop (suc n) period [] = refl
  every-drop (suc n) period (x ∷ xs) = every-drop n period xs

  drop_all : (n : ℕ) (xs : List A) → length xs ≤ n → drop n xs ≡ []
  drop_all zero [] l = refl
  drop_all (suc n) [] l = refl
  drop_all zero (x ∷ xs) l = absurd (omega arith)
  drop_all (suc n) (x ∷ xs) l = drop_all n xs (omega arith)

  drop-drop : (m n : ℕ) (xs : List A) → drop m (drop n xs) ≡ drop (n + m) xs
  drop-drop m zero xs = ap (λ k. drop k xs) (omega arith)
  drop-drop zero (suc n) [] = let e : suc n ≡ suc n + 0 = omega arith in ap (λ k. drop k []) e
  drop-drop (suc m) (suc n) [] =
      let e : suc (n + suc m) ≡ suc n + suc m = omega arith in ap (λ k. drop k []) e
  drop-drop m (suc n) (x ∷ xs) =
      let e : suc (n + m) ≡ suc n + m = omega arith in
      drop-drop m n xs ∙ ap (λ k. drop k (x ∷ xs)) e

module _ (f : FloatOps) where
  drop-at : (j : ℕ) (xs : List f.F) → j < length xs → drop j xs ≡ at f xs j ∷ drop (suc j) xs
  unfolding at
  drop-at zero [] l = absurd (omega arith)
  drop-at (suc j) [] l = absurd (omega arith)
  drop-at zero (x ∷ xs) l = refl
  drop-at (suc j) (x ∷ xs) l = drop-at j xs (omega arith)

  stride_lem :
      (fuel period j : ℕ) (values : List f.F) (sum : f.F) (count : ℕ)
      → 0 < period
      → length values ≤ fuel + j
      → stride f fuel period j values sum count ≡ (
        sum_from f sum (every 0 period (drop j values)),
        count + length (every 0 period (drop j values)),
      )
  unfolding stride sum_from every
  stride_lem zero period j values sum count p l =
      rw (drop_all j values (omega arith)) (ap (λ n. (sum, n)) (omega arith))
  stride_lem (suc fuel) period j values sum count p l = elim (Bool-cases (ltb j (length values))) [
    | inl e ↦
        let within = ltb→lt j (length values) e in
        let later : every (period - 1) period (drop (suc j) values)
            ≡ every 0 period (drop (j + period) values) =
          sym (every-drop (period - 1) period (drop (suc j) values))
          ∙ ap (every 0 period) (drop-drop (period - 1) (suc j) values)
          ∙ ap (λ k. every 0 period (drop k values)) (omega arith) in
        let rest =
          stride_lem fuel period (j + period) values (f.add sum (at f values j)) (count + 1) p
            (omega arith) in
        rw (e, drop-at j values within, later)
          (rest
            ∙ ap
                (λ n. (
                  sum_from f (f.add sum (at f values j))
                      (every 0 period (drop (j + period) values)),
                  n,
                ))
                (omega arith))
    | inr e ↦
        let beyond = drop_all j values (ground (arith, e)) in
        rw (e, beyond) (ap (λ n. (sum, n)) (omega arith))
  ]

  -- The mean of some values, 0 where there are none.
  abbrev pub mean_of : List f.F → f.F
  mean_of values = mean_or_zero f (sum_from f (zero_float f) values, length values)

  season_lem :
      (values : List f.F) (i : ℕ)
      → 2 ≤ length values
      → season f values i ≡ mean_of (every i (period_of f values) values)
  unfolding season
  season_lem values i l =
      let p = period_of f values in
      let moves : 0 < p = omega arith in
      let first =
        λ (n : ℕ). mean_or_zero f (sum_from f (zero_float f) (every 0 p (drop i values)), n) in
      ap (mean_or_zero f)
        (stride_lem (length values) p i values (zero_float f) 0 moves (omega arith))
      ∙ ap first (omega arith)
      ∙ ap mean_of (every-drop i p values)

  -- Each value less their mean.
  abbrev pub centred : List f.F → List f.F
  centred values =
      let mean = f.div (sum_from f (zero_float f) values) (f.of_nat (length values)) in
      map (λ v. f.sub v mean) values

  map_eq :
      {A B : Type 0} (g h : A → B) → ((a : A) → g a ≡ h a) → (xs : List A) → map g xs ≡ map h xs
  map_eq g h e [] = refl
  map_eq g h e (x ∷ xs) = ap (λ y. y ∷ map g xs) (e x) ∙ ap (λ ys. h x ∷ ys) (map_eq g h e xs)

  -- The seasonal pattern of two or more values has a place for each step of the period, which is
  -- half their number and 24 at most; in place `i` stands the mean of the values `i`, `i + period`,
  -- `i + 2 * period` and so on to the end, less the mean of all the places.
  pub seasonality_means :
      (values : List f.F)
      → 2 ≤ length values
      → calculate_seasonality f values
        ≡ centred (
            map
              (λ i. mean_of (every i (period_of f values) values))
              (range_from 0 (period_of f values)))
  unfolding calculate_seasonality
  seasonality_means values l = ap centred (
      map_eq (season f values) (λ i. mean_of (every i (period_of f values) values))
        (λ i. season_lem values i l) (range_from 0 (period_of f values)))
