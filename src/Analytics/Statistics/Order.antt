-- ===== src/Analytics/Statistics/Order.antt =====
-- The order of the measures that src/analytics/aggregation_engine.rs computes.
use analytics_hub.Prelude.{
  All, ℕ, zero, suc, ◌-◌, ◌≤◌, ◌<◌, ◌≡◌, refl, ap, true, false, List, [], ◌∷◌, length, arith,
  Bool-cases, inl, inr, ◌==◌,
}
use analytics_hub.Prelude.Float.{FloatOps}
use analytics_hub.Analytics.Statistics.{
  insert, sort, at, percentile, percentile_index, compute_statistics,
}

-- What IEEE 754 says of `<` on numbers that are not NaN.
pub record IsOrdered (f : FloatOps) : Type 1 where
  pub asymmetric : (a b : f.F) → f.lt a b ≡ true → f.lt b a ≡ false
  pub not_lt_trans : (a b c : f.F) → f.lt b a ≡ false → f.lt c b ≡ false → f.lt c a ≡ false

module _ (f : FloatOps) where
  -- a ≤ b
  abbrev pub AtMost : f.F → f.F → Type 0
  AtMost a b = f.lt b a ≡ false

  abbrev IsSorted : List f.F → Type 0
  IsSorted [] = Unit
  IsSorted (x ∷ xs) = All (AtMost x) xs × IsSorted xs

  All-insert : (P : f.F → Type 0) (x : f.F) (ys : List f.F) → P x → All P ys → All P (insert f x ys)
  unfolding insert
  All-insert P x [] p h = (p, tt)
  All-insert P x (y ∷ ys) p h = elim (Bool-cases (f.lt y x)) [
    | inl l ↦ rw l (h.0, All-insert P x ys p h.1)
    | inr l ↦ rw l (p, h)
  ]

  All-of_insert :
      (P : f.F → Type 0) (x : f.F) (ys : List f.F) → All P (insert f x ys) → P x × All P ys
  unfolding insert
  All-of_insert P x [] h = (h.0, tt)
  All-of_insert P x (y ∷ ys) h = elim (Bool-cases (f.lt y x)) [
    | inl l ↦
        let h' : All P (y ∷ insert f x ys) = rw l at h in
        let r = All-of_insert P x ys h'.1 in (r.0, (h'.0, r.1))
    | inr l ↦ let h' : All P (x ∷ y ∷ ys) = rw l at h in (h'.0, h'.1)
  ]

  All-of_sort : (P : f.F → Type 0) (xs : List f.F) → All P (sort f xs) → All P xs
  unfolding sort
  All-of_sort P [] h = tt
  All-of_sort P (x ∷ xs) h = let r = All-of_insert P x (sort f xs) h in (r.0, All-of_sort P xs r.1)

  length-insert : (x : f.F) (ys : List f.F) → length (insert f x ys) ≡ suc (length ys)
  unfolding insert
  length-insert x [] = refl
  length-insert x (y ∷ ys) = elim (Bool-cases (f.lt y x)) [
    | inl l ↦ rw l (ap suc (length-insert x ys))
    | inr l ↦ rw l
  ]

  pub length-sort : (xs : List f.F) → length (sort f xs) ≡ length xs
  unfolding sort
  length-sort [] = refl
  length-sort (x ∷ xs) = omega (arith, length-insert x (sort f xs), length-sort xs)

  All-at : (P : f.F → Type 0) (xs : List f.F) (i : ℕ) → i < length xs → All P xs → P (at f xs i)
  unfolding at
  All-at P [] i l h = absurd (omega arith)
  All-at P (x ∷ xs) zero l h = h.0
  All-at P (x ∷ xs) (suc i) l h = All-at P xs i (omega arith) h.1

  module _ (o : IsOrdered f) where
    All-trans : (x y : f.F) (ys : List f.F) → AtMost x y → All (AtMost y) ys → All (AtMost x) ys
    All-trans x y [] h a = tt
    All-trans x y (z ∷ zs) h a = (o.not_lt_trans x y z h a.0, All-trans x y zs h a.1)

    insert-IsSorted : (x : f.F) (ys : List f.F) → IsSorted ys → IsSorted (insert f x ys)
    unfolding insert
    insert-IsSorted x [] h = (tt, tt)
    insert-IsSorted x (y ∷ ys) h = elim (Bool-cases (f.lt y x)) [
      | inl l ↦ rw l (All-insert (AtMost y) x ys (o.asymmetric y x l) h.0, insert-IsSorted x ys h.1)
      | inr l ↦ rw l ((l, All-trans x y ys l h.0), h)
    ]

    sort-IsSorted : (xs : List f.F) → IsSorted (sort f xs)
    unfolding sort
    sort-IsSorted [] = tt
    sort-IsSorted (x ∷ xs) = insert-IsSorted x (sort f xs) (sort-IsSorted xs)

    at_mono :
        (xs : List f.F) (i j : ℕ)
        → IsSorted xs
        → i < j
        → j < length xs
        → AtMost (at f xs i) (at f xs j)
    unfolding at
    at_mono [] i j s h l = absurd (omega arith)
    at_mono (x ∷ xs) i zero s h l = absurd (omega arith)
    at_mono (x ∷ xs) zero (suc j) s h l = All-at (AtMost x) xs j (omega arith) s.0
    at_mono (x ∷ xs) (suc i) (suc j) s h l = at_mono xs i j s.1 (omega arith) (omega arith)

    AtMost-refl : (a : f.F) → AtMost a a
    AtMost-refl a = elim (Bool-cases (f.lt a a)) [ inl l ↦ o.asymmetric a a l | inr l ↦ l ]

    at_le :
        (xs : List f.F) (i j : ℕ)
        → IsSorted xs
        → i ≤ j
        → j < length xs
        → AtMost (at f xs i) (at f xs j)
    at_le xs i j s h l = elim (Bool-cases (i == j)) [
      | inl e ↦ let same : i ≡ j = ground arith in rw same (AtMost-refl (at f xs j))
      | inr n ↦ at_mono xs i j s (ground (arith, n)) l
    ]

    least : (xs : List f.F) → IsSorted xs → All (AtMost (at f xs 0)) xs
    unfolding at
    least [] s = tt
    least (x ∷ xs) s = (AtMost-refl x, s.0)

    All-below :
        (P : f.F → Type 0) (xs : List f.F) → ((i : ℕ) → i < length xs → P (at f xs i)) → All P xs
    unfolding at
    All-below P [] h = tt
    All-below P (x ∷ xs) h = (h 0 (omega arith), All-below P xs (λ i l. h (suc i) (omega arith)))

    greatest : (xs : List f.F) → IsSorted xs → All (λ v. AtMost v (at f xs (length xs - 1))) xs
    greatest xs s = All-below _ xs (λ i l. at_le xs i (length xs - 1) s (omega arith) (omega arith))

    -- The position before rounding down to an index grows with the percentile.
    module _
        (grows : (p q n : ℕ)
          → p ≤ q
          → f.to_nat (f.mul (f.div (f.of_nat p) (f.of_nat 100)) (f.of_nat n))
            ≤ f.to_nat (f.mul (f.div (f.of_nat q) (f.of_nat 100)) (f.of_nat n))) where
      percentile_le :
          (xs : List f.F) (p q : ℕ)
          → IsSorted xs
          → p ≤ q
          → AtMost (percentile f xs p) (percentile f xs q)
      unfolding percentile percentile_index
      percentile_le [] p q s h = AtMost-refl _
      percentile_le (x ∷ xs) p q s h =
          at_le (x ∷ xs) _ _ s (omega (arith, grows p q (suc (length xs) - 1) h)) (omega arith)

      min_le_percentile :
          (xs : List f.F) (p : ℕ)
          → IsSorted xs
          → 0 < length xs
          → AtMost (at f xs 0) (percentile f xs p)
      unfolding percentile percentile_index
      min_le_percentile [] p s l = absurd (omega arith)
      min_le_percentile (x ∷ xs) p s l = at_le (x ∷ xs) 0 _ s (omega arith) (omega arith)

      percentile_le_max :
          (xs : List f.F) (p : ℕ)
          → IsSorted xs
          → 0 < length xs
          → AtMost (percentile f xs p) (at f xs (length xs - 1))
      unfolding percentile percentile_index
      percentile_le_max [] p s l = absurd (omega arith)
      percentile_le_max (x ∷ xs) p s l =
          at_le (x ∷ xs) _ (length (x ∷ xs) - 1) s (omega arith) (omega arith)

      -- The statistics of some values: the count is their number, no value lies below the minimum
      -- or above the maximum, and the percentiles lie between these in their order.
      pub statistics_ordered :
          (x : f.F) (xs : List f.F)
          → let m = compute_statistics f (x ∷ xs) in
            (m.count ≡ length (x ∷ xs))
            × All (AtMost m.min) (x ∷ xs)
            × All (λ v. AtMost v m.max) (x ∷ xs)
            × AtMost m.min m.p50
            × AtMost m.p50 m.p95
            × AtMost m.p95 m.p99
            × AtMost m.p99 m.max
      unfolding compute_statistics
      statistics_ordered x xs =
          let s = sort-IsSorted (x ∷ xs) in
          let n = length-sort (x ∷ xs) in
          (
            n,
            All-of_sort _ (x ∷ xs) (least (sort f (x ∷ xs)) s),
            All-of_sort _ (x ∷ xs) (greatest (sort f (x ∷ xs)) s),
            min_le_percentile (sort f (x ∷ xs)) 50 s (omega (arith, n)),
            percentile_le (sort f (x ∷ xs)) 50 95 s (omega arith),
            percentile_le (sort f (x ∷ xs)) 95 99 s (omega arith),
            percentile_le_max (sort f (x ∷ xs)) 99 s (omega (arith, n)),
          )
