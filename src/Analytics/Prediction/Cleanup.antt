-- ===== src/Analytics/Prediction/Cleanup.antt =====
-- The retention of the time series of src/analytics/prediction.rs.
use analytics_hub.Prelude.{
  ℕ, zero, suc, ◌≡◌, refl, ◌∙◌, true, false, List, [], ◌∷◌, All, drop, take, Bool-cases, inl, inr,
}
use analytics_hub.Prelude.Int.{ℤ, ltb_ℤ}
use analytics_hub.Analytics.Prediction.{TimeSeriesData, pop_front, drop_before, cleanup_before}

abbrev pub Head : {A : Type 0} → (A → Type 0) → List A → Type 0
Head P [] = Unit
Head P (x ∷ xs) = P x

module _ {F : Type 0} where
  drop-pop_front : (n : ℕ) (xs : List F) → drop n (pop_front xs) ≡ drop (suc n) xs
  drop-pop_front zero [] = refl
  drop-pop_front (suc n) [] = refl
  drop-pop_front n (x ∷ xs) = refl

  -- The oldest points of both queues are dropped, as many of the one as of the other: each is older
  -- than the cutoff, and the first that stays is not.
  pub cleanup_before_lem :
      (cutoff : ℤ) (d : TimeSeriesData F)
      → (n : ℕ) × ((cleanup_before cutoff d).timestamps ≡ drop n d.timestamps)
        × ((cleanup_before cutoff d).values ≡ drop n d.values)
        × All (λ t. ltb_ℤ t cutoff ≡ true) (take n d.timestamps)
        × Head (λ t. ltb_ℤ t cutoff ≡ false) (cleanup_before cutoff d).timestamps
  unfolding cleanup_before
  cleanup_before_lem cutoff d = dropped d.timestamps d.values
    where
      dropped :
          (ts : List ℤ) (vs : List F)
          → (n : ℕ) × ((drop_before cutoff ts vs).0 ≡ drop n ts)
            × ((drop_before cutoff ts vs).1 ≡ drop n vs)
            × All (λ t. ltb_ℤ t cutoff ≡ true) (take n ts)
            × Head (λ t. ltb_ℤ t cutoff ≡ false) (drop_before cutoff ts vs).0
      dropped [] vs = (0, refl, refl, tt, tt)
      dropped (t ∷ ts) vs =
          let rest = dropped ts (pop_front vs) in
          elim (Bool-cases (ltb_ℤ t cutoff)) [
            | inl e ↦ (
              suc rest.0,
              rw e rest.1,
              rw e (rest.2 ∙ drop-pop_front rest.0 vs),
              (e, rest.3),
              rw e rest.4,
            )
            | inr e ↦ (0, rw e refl, rw e refl, tt, rw e e)
          ]
