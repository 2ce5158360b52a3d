-- ===== src/Analytics/Aggregation/Points.antt =====
-- Which points src/analytics/aggregation.rs aggregates in a window.
use mathlib.Core.Option
use mathlib.Core.Option.{some_inj}
use text.Mathlib.TextEquality.{eq_iff}
use mathlib.Core.List.{append_assoc, append-nil}
use analytics_hub.Prelude.{
  ℕ, ◌≡◌, refl, sym, ap, subst, ◌∙◌, String, Option, none, some, List, [], ◌∷◌, ◌++◌, if◌then◌else◌,
  Bool-cases, inl, inr, arith,
}
use analytics_hub.Prelude.Int.{ℤ}
use analytics_hub.Prelude.Dict.{Dict, lookup, insert, lookup-insert, str_eq}
use analytics_hub.Prelude.Float.{FloatOps}
use analytics_hub.Analytics.Window.{TimeWindow, seconds_to_window}
use analytics_hub.Analytics.Aggregation.{
  AggregationState, AggregatedMetric, Aggregations, window_eq, add_value, or_new, insert_window,
  insert_windows, new_engine, add_point, find_window, calculate_statistics, metric_of,
  get_aggregated,
}

pub record Point (F : Type 0) : Type 0 where
  pub name : String
  pub value : F
  pub timestamp : ℤ

module _ {F : Type 0} where
  abbrev pub add_points : List (Point F) → Aggregations F → Aggregations F
  add_points [] l = l
  add_points (p ∷ ps) l = add_points ps (add_point p.name p.value p.timestamp l)

  -- The values of the points of one metric, in their order.
  abbrev pub values_of : String → List (Point F) → List F
  values_of name [] = []
  values_of name (p ∷ ps) =
      let rest = values_of name ps in if str_eq p.name name then p.value ∷ rest else rest

  -- Every window holds these values under the name.
  abbrev IsHeld : String → List F → Aggregations F → Type 0
  IsHeld name vs [] = Unit
  IsHeld name vs ((w, d) ∷ l) = ((or_new (lookup name d)).values ≡ vs) × IsHeld name vs l

  insert_window-IsHeld :
      (name : String) (w : TimeWindow) (l : Aggregations F)
      → IsHeld name [] l
      → IsHeld name [] (insert_window w l)
  unfolding insert_window lookup
  insert_window-IsHeld name w [] h = (refl, tt)
  insert_window-IsHeld name w ((u, d) ∷ l) h = elim (Bool-cases (window_eq u w)) [
    | inl e ↦ rw e (refl, h.1)
    | inr e ↦ rw e (h.0, insert_window-IsHeld name w l h.1)
  ]

  insert_windows-IsHeld :
      (name : String) (ss : List ℕ) (l : Aggregations F)
      → IsHeld name [] l
      → IsHeld name [] (insert_windows ss l)
  insert_windows-IsHeld name [] l h = h
  insert_windows-IsHeld name (s ∷ ss) l h =
      insert_windows-IsHeld name ss _ (insert_window-IsHeld name (seconds_to_window s) l h)

  values-insert :
      (name : String) (p : Point F) (d : Dict (AggregationState F)) (vs : List F)
      → (or_new (lookup name d)).values ≡ vs
      → (or_new (
          lookup name
            (insert p.name (add_value p.value p.timestamp (or_new (lookup p.name d))) d))).values
        ≡ vs ++ values_of name (p ∷ [])
  unfolding add_value
  values-insert name p d vs h =
      let grown = add_value p.value p.timestamp (or_new (lookup p.name d)) in
      elim (Bool-cases (str_eq p.name name)) [
        | inl e ↦
            let same : p.name ≡ name = (eq_iff p.name name).0 e in
            rw (lookup-insert p.name name grown d, e)
              (ap (λ l. l ++ p.value ∷ []) (ap (λ k. (or_new (lookup k d)).values) same ∙ h))
        | inr e ↦ rw (lookup-insert p.name name grown d, e) (h ∙ sym (append-nil vs))
      ]

  add_point-IsHeld :
      (name : String) (p : Point F) (vs : List F) (l : Aggregations F)
      → IsHeld name vs l
      → IsHeld name (vs ++ values_of name (p ∷ [])) (add_point p.name p.value p.timestamp l)
  unfolding add_point
  add_point-IsHeld name p vs [] h = tt
  add_point-IsHeld name p vs ((w, d) ∷ l) h =
      (values-insert name p d vs h.0, add_point-IsHeld name p vs l h.1)

  values_of_split :
      (name : String) (p : Point F) (ps : List (Point F))
      → values_of name (p ∷ []) ++ values_of name ps ≡ values_of name (p ∷ ps)
  values_of_split name p ps = elim (Bool-cases (str_eq p.name name)) [
    | inl e ↦ rw e refl
    | inr e ↦ rw e refl
  ]

  values_of-cons :
      (name : String) (vs : List F) (p : Point F) (ps : List (Point F))
      → (vs ++ values_of name (p ∷ [])) ++ values_of name ps ≡ vs ++ values_of name (p ∷ ps)
  values_of-cons name vs p ps =
      append_assoc vs (values_of name (p ∷ [])) (values_of name ps)
      ∙ ap (λ l. vs ++ l) (values_of_split name p ps)

  add_points-IsHeld :
      (name : String) (ps : List (Point F)) (vs : List F) (l : Aggregations F)
      → IsHeld name vs l
      → IsHeld name (vs ++ values_of name ps) (add_points ps l)
  add_points-IsHeld name [] vs l h = subst (λ x. IsHeld name x l) (sym (append-nil vs)) h
  add_points-IsHeld name (p ∷ ps) vs l h =
      subst (λ x. IsHeld name x (add_points (p ∷ ps) l)) (values_of-cons name vs p ps)
        (add_points-IsHeld name ps (vs ++ values_of name (p ∷ [])) _
          (add_point-IsHeld name p vs l h))

module _ (f : FloatOps) where
  in_state :
      (now : ℤ) (name : String) (w : TimeWindow) (o : Option (AggregationState f.F)) (vs : List f.F)
      {m : AggregatedMetric f.F}
      → (or_new o).values ≡ vs
      → Option.map (metric_of f now name w) o ≡ some m
      → m.values ≡ calculate_statistics f vs
  in_state now name w none vs h e = ground arith
  in_state now name w (some s) vs h e =
      sym (ap (λ (k : AggregatedMetric f.F). k.values) (some_inj.0 e))
      ∙ ap (calculate_statistics f) h

  in_dict :
      (now : ℤ) (name : String) (w : TimeWindow) (d : Dict (AggregationState f.F)) (vs : List f.F)
      {m : AggregatedMetric f.F}
      → (or_new (lookup name d)).values ≡ vs
      → Option.map (metric_of f now name w) (lookup name d) ≡ some m
      → m.values ≡ calculate_statistics f vs
  in_dict now name w d vs h e = in_state now name w (lookup name d) vs h e

  found_values :
      (now : ℤ) (name : String) (w : TimeWindow) (vs : List f.F) (l : Aggregations f.F)
      {m : AggregatedMetric f.F}
      → IsHeld name vs l
      → get_aggregated f now name w l ≡ some m
      → m.values ≡ calculate_statistics f vs
  unfolding get_aggregated find_window
  found_values now name w vs [] h e = ground arith
  found_values now name w vs ((u, d) ∷ l) h e = elim (Bool-cases (window_eq u w)) [
    | inl eq ↦ in_dict now name w d vs h.0 (rw eq at e)
    | inr eq ↦ found_values now name w vs l h.1 (rw eq at e)
  ]

  -- A window is no window in time: what is aggregated for a metric under any window are all its
  -- values since the engine was made, however long ago they came.
  pub aggregates_all_points :
      (windows : List ℕ) (points : List (Point f.F)) (now : ℤ) (name : String) (w : TimeWindow)
      {m : AggregatedMetric f.F}
      → get_aggregated f now name w (add_points points (new_engine windows)) ≡ some m
      → m.values ≡ calculate_statistics f (values_of name points)
  unfolding new_engine
  aggregates_all_points windows points now name w e =
      found_values now name w (values_of name points)
        (add_points points (insert_windows windows []))
        (add_points-IsHeld name points [] (insert_windows windows [])
          (insert_windows-IsHeld name windows [] tt))
        e
