-- ===== src/Analytics/Correlation/Symmetry.antt =====
-- Temporal correlations of src/analytics/correlation_engine.rs, seen from both events.
use mathlib.Core.Option.{some_inj}
use analytics_hub.Prelude.{
  ℕ, suc, ◌+◌, ◌-◌, ◌/◌, ◌≡◌, refl, sym, ap, ◌∙◌, Bool, true, false, none, some, ◌==◌, arith,
  if◌then◌else◌,
}
use analytics_hub.Prelude.Int.{
  ℤ, pos, negsuc, pos_part, neg_part, neg, neg_part-neg, pos_part-neg, leb_ℤ, sub_ℤ, add_ℤ, abs_ℤ,
  div_ℕ, pos_part-sub_ℕ, neg_part-sub_ℕ,
}
use analytics_hub.Prelude.Float.{FloatOps}
use analytics_hub.Schema.Event.{AnalyticsEvent}
use analytics_hub.Analytics.Correlation.{
  CorrelationConfig, Correlation, temporal, Draws, module_eq, seconds_apart,
}
use analytics_hub.Analytics.Correlation.Detection.{
  strength_at, calculate_temporal_strength, in_time_window, correlation_of, temporal_with,
}
use analytics_hub.Analytics.Correlation.Process.{buffered}

pos_part-sub_ℤ :
    (a b : ℤ) → pos_part (sub_ℤ a b) ≡ pos_part a + neg_part b - (pos_part b + neg_part a)
unfolding sub_ℤ
pos_part-sub_ℤ a b = pos_part-sub_ℕ _ _

neg_part-sub_ℤ :
    (a b : ℤ) → neg_part (sub_ℤ a b) ≡ pos_part b + neg_part a - (pos_part a + neg_part b)
unfolding sub_ℤ
neg_part-sub_ℤ a b = neg_part-sub_ℕ _ _

pos_part-add_ℤ :
    (a b : ℤ) → pos_part (add_ℤ a b) ≡ pos_part a + pos_part b - (neg_part a + neg_part b)
unfolding add_ℤ
pos_part-add_ℤ a b = pos_part-sub_ℕ _ _

neg_part-add_ℤ :
    (a b : ℤ) → neg_part (add_ℤ a b) ≡ neg_part a + neg_part b - (pos_part a + pos_part b)
unfolding add_ℤ
neg_part-add_ℤ a b = neg_part-sub_ℕ _ _

abs_ℤ-pos : (n : ℕ) → abs_ℤ (pos n) ≡ n
abs_ℤ-pos n = omega arith

abs_ℤ-neg : (n : ℕ) → abs_ℤ (neg n) ≡ n
abs_ℤ-neg n = omega (arith, pos_part-neg n, neg_part-neg n)

abs_ℤ-div_ℕ : (a : ℤ) (k : ℕ) → abs_ℤ (div_ℕ a k) ≡ abs_ℤ a / k
abs_ℤ-div_ℕ (pos n) k = abs_ℤ-pos (n / k) ∙ ap (λ x. x / k) (sym (abs_ℤ-pos n))
abs_ℤ-div_ℕ (negsuc n) k = abs_ℤ-neg (suc n / k) ∙ ap (λ x. x / k) (sym (abs_ℤ-neg (suc n)))

abs_ℤ-sub_ℤ : (a b : ℤ) → abs_ℤ (sub_ℤ a b) ≡ abs_ℤ (sub_ℤ b a)
abs_ℤ-sub_ℤ a b =
    omega (arith, pos_part-sub_ℤ a b, neg_part-sub_ℤ a b, pos_part-sub_ℤ b a, neg_part-sub_ℤ b a)

seconds_apart_comm : (a b : ℤ) → seconds_apart a b ≡ seconds_apart b a
seconds_apart_comm a b =
    abs_ℤ-div_ℕ (sub_ℤ a b) _
    ∙ ap (λ d. d / 1000000000) (abs_ℤ-sub_ℤ a b)
    ∙ sym (abs_ℤ-div_ℕ (sub_ℤ b a) _)

leb_ℤ-sub_ℤ : (a w b : ℤ) → leb_ℤ (sub_ℤ a w) b ≡ leb_ℤ a (add_ℤ b w)
leb_ℤ-sub_ℤ a w b =
    let p = pos_part-sub_ℤ a w in
    let q = neg_part-sub_ℤ a w in
    let r = pos_part-add_ℤ b w in let s = neg_part-add_ℤ b w in ground arith

==_comm : (m n : ℕ) → (m == n) ≡ (n == m)
==_comm m n = ground arith

module _ {A : Type 0} where
  pub guards-of_some :
      (s n t : Bool) {x c : A}
      → (if s then none else if n then (if t then some x else none) else none) ≡ some c
      → (s ≡ false) × (n ≡ true) × (t ≡ true) × (x ≡ c)
  guards-of_some true n t e = ground arith
  guards-of_some false true true e = (refl, refl, refl, some_inj.0 e)
  guards-of_some false true false e = ground arith
  guards-of_some false false t e = ground arith

  some-of_guards :
      {s n t : Bool} {x : A}
      → s ≡ false
      → n ≡ true
      → t ≡ true
      → (if s then none else if n then (if t then some x else none) else none) ≡ some x
  some-of_guards p q r = rw (p, q, r) refl

module _ (f : FloatOps) {P : Type 0} (config : CorrelationConfig f.F) (draws : Draws)
    (a b : AnalyticsEvent P) where
  in_time_window_comm :
      in_time_window f config a (buffered b) ≡ in_time_window f config b (buffered a)
  in_time_window_comm =
      let p = leb_ℤ-sub_ℤ a.common.timestamp config.time_window b.common.timestamp in
      let q = leb_ℤ-sub_ℤ b.common.timestamp config.time_window a.common.timestamp in ground arith

  strength_comm :
      calculate_temporal_strength f config a (buffered b)
      ≡ calculate_temporal_strength f config b (buffered a)
  unfolding calculate_temporal_strength
  strength_comm =
      ap (λ n. strength_at f config a n (module_eq a.common.source_module b.common.source_module))
        (seconds_apart_comm a.common.timestamp b.common.timestamp)
      ∙ ap (strength_at f config a (seconds_apart b.common.timestamp a.common.timestamp))
          (==_comm _ _)

  -- Temporal correlation is symmetric: where an event finds another in its window, with a strength
  -- that is enough, the other finds it too, with the same strength and the ends exchanged.
  pub temporal_symmetric :
      {c : Correlation f.F}
      → temporal_with f config a draws (buffered b) ≡ some c
      → (c' : Correlation f.F) × (temporal_with f config b draws (buffered a) ≡ some c')
        × (c'.strength ≡ c.strength)
        × (c'.source_event_id ≡ c.target_event_id)
        × (c'.target_event_id ≡ c.source_event_id)
  unfolding temporal_with
  temporal_symmetric {c} e =
      let strength = strength_comm in
      let h = guards-of_some _ _ _ e in
      (
        correlation_of f draws temporal b.common.event_id a.common.event_id
            (calculate_temporal_strength f config b (buffered a)),
        some-of_guards (==_comm a.common.event_id b.common.event_id ∙ h.0)
            (sym in_time_window_comm ∙ h.1) (ap (f.le config.min_strength) (sym strength) ∙ h.2),
        sym strength ∙ ap (λ d. d.strength) h.3,
        ap (λ d. d.target_event_id) h.3,
        ap (λ d. d.source_event_id) h.3,
      )
