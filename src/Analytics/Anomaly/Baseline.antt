-- ===== src/Analytics/Anomaly/Baseline.antt =====
-- The sliding baseline of src/analytics/anomaly.rs.
use analytics_hub.Prelude.{
  ℕ, zero, suc, ◌-◌, ◌≤◌, ◌<◌, ◌≡◌, refl, sym, ap, ◌∙◌, List, [], ◌∷◌, ◌++◌, map, length, drop,
  subst, length-map, length-append, length-drop, arith, Bool-cases, inl, inr, leb, leb→le, leb→gt,
}
use mathlib.Core.List.{append_assoc, append-nil, map-append}
use analytics_hub.Prelude.Int.{ℤ}
use analytics_hub.Analytics.Anomaly.{MetricBaseline, new_baseline, add_value, pop}

module _ {A : Type 0} where
  drop-append : (n : ℕ) (xs ys : List A) → n ≤ length xs → drop n (xs ++ ys) ≡ drop n xs ++ ys
  drop-append zero xs ys l = refl
  drop-append (suc n) [] ys l = absurd (omega arith)
  drop-append (suc n) (x ∷ xs) ys l = drop-append n xs ys (omega arith)

  drop_one-drop : (n : ℕ) (xs : List A) → drop 1 (drop n xs) ≡ drop (suc n) xs
  drop_one-drop zero xs = refl
  drop_one-drop (suc n) [] = refl
  drop_one-drop (suc n) (x ∷ xs) = drop_one-drop n xs

  drop-nil : (n : ℕ) → drop {A = A} n [] ≡ []
  drop-nil zero = refl
  drop-nil (suc n) = refl

  pop-drop : (xs : List A) → pop xs ≡ drop 1 xs
  pop-drop [] = refl
  pop-drop (x ∷ xs) = refl

  -- The last `m` elements.
  abbrev pub last_of : ℕ → List A → List A
  last_of m xs = drop (length xs - m) xs

  length-last_of : (m : ℕ) (xs : List A) → length (last_of m xs) ≡ length xs - (length xs - m)
  length-last_of m xs = length-drop (length xs - m) xs

  last_of-full :
      (m : ℕ) (xs : List A) (x : A)
      → 0 < m
      → m ≤ length (last_of m xs)
      → pop (last_of m xs) ++ x ∷ [] ≡ last_of m (xs ++ x ∷ [])
  last_of-full m xs x p l =
      let filled = length-last_of m xs in
      let grown : length (xs ++ x ∷ []) - m ≡ suc (length xs - m) =
        omega (arith, length-append xs (x ∷ [])) in
      ap (λ l. l ++ x ∷ []) (pop-drop (last_of m xs) ∙ drop_one-drop (length xs - m) xs)
      ∙ sym (drop-append (suc (length xs - m)) xs (x ∷ []) (omega (arith, filled)))
      ∙ ap (λ n. drop n (xs ++ x ∷ [])) (sym grown)

  last_of-room :
      (m : ℕ) (xs : List A) (x : A)
      → length (last_of m xs) < m
      → last_of m xs ++ x ∷ [] ≡ last_of m (xs ++ x ∷ [])
  last_of-room m xs x l =
      let filled = length-last_of m xs in
      let grown : length (xs ++ x ∷ []) - m ≡ length xs - m =
        omega (arith, length-append xs (x ∷ [])) in
      sym (drop-append (length xs - m) xs (x ∷ []) (omega (arith, filled)))
      ∙ ap (λ n. drop n (xs ++ x ∷ [])) (sym grown)

module _ {F : Type 0} where
  abbrev pub add_values : List (F × ℤ) → MetricBaseline F → MetricBaseline F
  add_values [] b = b
  add_values ((v, t) ∷ points) b = add_values points (add_value v t b)

  -- What a baseline holds after some points, oldest first.
  pub record Holds (m : ℕ) (points : List (F × ℤ)) (b : MetricBaseline F) : Type 0 where
    pub sized : b.max_size ≡ m
    pub last_values : b.values ≡ last_of m (map (λ p. p.0) points)
    pub last_timestamps : b.timestamps ≡ last_of m (map (λ p. p.1) points)

  add_value-Holds :
      (m : ℕ) (seen : List (F × ℤ)) (v : F) (t : ℤ) (b : MetricBaseline F)
      → 0 < m
      → Holds m seen b
      → Holds m (seen ++ (v, t) ∷ []) (add_value v t b)
  unfolding add_value
  add_value-Holds m seen v t b p h =
      let size = length-map (λ q. q.0) seen in
      let times = length-map (λ q. q.1) seen in
      let held = ap length h.last_values in
      let kept_values = length-last_of m (map (λ q. q.0) seen) in
      let kept_times = length-last_of m (map (λ q. q.1) seen) in
      let fst_append = ap (last_of m) (sym (map-append (λ q. q.0) seen ((v, t) ∷ []))) in
      let snd_append = ap (last_of m) (sym (map-append (λ q. q.1) seen ((v, t) ∷ []))) in
      elim (Bool-cases (leb b.max_size (length b.values))) [
        | inl l ↦
            let full = leb→le b.max_size (length b.values) l in
            rw l (record {
              sized = h.sized;
              last_values =
                  ap (λ l. pop l ++ v ∷ []) h.last_values
                  ∙ last_of-full m _ v p (omega (arith, h.sized, full, held))
                  ∙ fst_append;
              last_timestamps =
                  ap (λ l. pop l ++ t ∷ []) h.last_timestamps
                  ∙ last_of-full m _ t p
                      (omega (arith, h.sized, full, held, size, times, kept_values, kept_times))
                  ∙ snd_append;
            })
        | inr l ↦
            let room = leb→gt b.max_size (length b.values) l in
            rw l (record {
              sized = h.sized;
              last_values =
                  ap (λ l. l ++ v ∷ []) h.last_values
                  ∙ last_of-room m _ v (omega (arith, h.sized, room, held))
                  ∙ fst_append;
              last_timestamps =
                  ap (λ l. l ++ t ∷ []) h.last_timestamps
                  ∙ last_of-room m _ t
                      (omega (arith, h.sized, room, held, size, times, kept_values, kept_times))
                  ∙ snd_append;
            })
      ]

  add_values-Holds :
      (m : ℕ) (points seen : List (F × ℤ)) (b : MetricBaseline F)
      → 0 < m
      → Holds m seen b
      → Holds m (seen ++ points) (add_values points b)
  add_values-Holds m [] seen b p h = subst (λ l. Holds m l b) (sym (append-nil seen)) h
  add_values-Holds m ((v, t) ∷ points) seen b p h =
      subst (λ l. Holds m l (add_values points (add_value v t b)))
        (append_assoc seen ((v, t) ∷ []) points)
        (add_values-Holds m points (seen ++ (v, t) ∷ []) (add_value v t b) p
          (add_value-Holds m seen v t b p h))

  -- A baseline is a sliding window: after any points it holds the values and the times of the last
  -- `m` of them, oldest first, or of all where they are fewer. `m` is its size, and not 0.
  pub add_values_lem :
      (m : ℕ) (points : List (F × ℤ))
      → 0 < m
      → ((add_values points (new_baseline m)).values ≡ last_of m (map (λ q. q.0) points))
        × ((add_values points (new_baseline m)).timestamps ≡ last_of m (map (λ q. q.1) points))
  add_values_lem m points p =
      let empty : Holds m [] (new_baseline m) = record {
        sized = refl;
        last_values = sym (drop-nil (0 - m));
        last_timestamps = sym (drop-nil (0 - m));
      } in
      let h = add_values-Holds m points [] (new_baseline m) p empty in
      (h.last_values, h.last_timestamps)
