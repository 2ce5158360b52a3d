-- ===== src/Analytics/Correlation/Buffer.antt =====
-- The size of the buffer of src/analytics/correlation_engine.rs.
use analytics_hub.Prelude.{
  All-map, ℕ, ◌+◌, ◌≡◌, ◌≢◌, refl, sym, ap, subst, Bool, true, false, List, [], ◌∷◌, ◌⊎◌, All, ◌==◌,
  length, leb, arith, Bool-cases, inl, inr,
}
use analytics_hub.Prelude.Int.{ℤ}
use analytics_hub.Prelude.IdMap.{IdMap, remove_id, insert_id, retain}
use analytics_hub.Schema.Event.{AnalyticsEvent}
use analytics_hub.Analytics.Correlation.{CorrelationConfig, BufferedEvent, CorrelationEngine}
use analytics_hub.Analytics.Correlation.Process.{
  buffered, new_engine, is_recent, cleanup_old_events, buffer_event, get_stats,
}
use analytics_hub.Analytics.Correlation.Run.{All-remove_id}

module _ {V : Type 0} where
  retain_recent :
      (keep : V → Bool) (l : IdMap V) → All (λ entry. keep (entry.1) ≡ true) l → retain keep l ≡ l
  unfolding retain
  retain_recent keep [] h = refl
  retain_recent keep (entry ∷ l) h = rw h.0 (ap (λ m. entry ∷ m) (retain_recent keep l h.1))

  remove_absent : (key : ℕ) (l : IdMap V) → All (λ entry. entry.0 ≢ key) l → remove_id key l ≡ l
  unfolding remove_id
  remove_absent key [] h = refl
  remove_absent key (entry ∷ l) h =
      let other : (entry.0 == key) ≡ false = ground (arith, h.0) in
      rw other (ap (λ m. entry ∷ m) (remove_absent key l h.1))

  retain-All :
      (keep : V → Bool) (l : IdMap V) → All (λ entry. keep (entry.1) ≡ true) (retain keep l)
  unfolding retain
  retain-All keep [] = tt
  retain-All keep (entry ∷ l) = elim (Bool-cases (keep (entry.1))) [
    | inl e ↦ rw e (e, retain-All keep l)
    | inr e ↦ rw e (retain-All keep l)
  ]

module _ {P : Type 0} where
  -- The identifiers of the events differ from those of the buffer and from each other.
  abbrev pub AreNew : List (AnalyticsEvent P) → IdMap BufferedEvent → Type 0
  AreNew [] buffer = Unit
  AreNew (event ∷ events) buffer =
      All (λ entry. entry.0 ≢ event.common.event_id) buffer
      × AreNew events ((event.common.event_id, buffered event) ∷ buffer)

module _ {F : Type 0} (config : CorrelationConfig F) (now : ℤ) where
  abbrev IsRecent : ℕ × BufferedEvent → Type 0
  IsRecent entry = is_recent config now (entry.1) ≡ true

module _ {P F : Type 0} (config : CorrelationConfig F) (now : ℤ) where
  -- The events one after the other, with cleanups at the same time.
  unfoldable pub buffer_events : List (AnalyticsEvent P) → CorrelationEngine F → CorrelationEngine F
  unfolding buffer_event
  buffer_events [] s = s
  buffer_events (event ∷ events) s = buffer_events events (buffer_event config now event s)

  abbrev pub AreRecent : List (AnalyticsEvent P) → Type 0
  AreRecent events = All (λ event. is_recent config now (buffered event) ≡ true) events

  buffer_event_recent :
      (event : AnalyticsEvent P) (s : CorrelationEngine F)
      → All (IsRecent config now) s.event_buffer
      → All (λ entry. entry.0 ≢ event.common.event_id) s.event_buffer
      → (buffer_event config now event s).event_buffer
        ≡ (event.common.event_id, buffered event) ∷ s.event_buffer
  unfolding buffer_event cleanup_old_events insert_id
  buffer_event_recent event s h fresh =
      let absent = remove_absent event.common.event_id s.event_buffer fresh in
      let kept = retain_recent (is_recent config now) s.event_buffer h in
      ap (λ m. (event.common.event_id, buffered event) ∷ m)
        (elim (Bool-cases (leb config.max_buffer_size (length s.event_buffer))) [
          | inl e ↦ rw (e, kept) absent
          | inr e ↦ rw e absent
        ])

  buffer_events_grow :
      (events : List (AnalyticsEvent P)) (s : CorrelationEngine F)
      → All (IsRecent config now) s.event_buffer
      → AreRecent events
      → AreNew events s.event_buffer
      → length (buffer_events events s).event_buffer ≡ length events + length s.event_buffer
  unfolding buffer_events
  buffer_events_grow [] s h recent fresh = omega arith
  buffer_events_grow (event ∷ events) s h recent fresh =
      let one = buffer_event_recent event s h fresh.0 in
      let rest =
        buffer_events_grow events (buffer_event config now event s)
          (subst (All (IsRecent config now)) (sym one) (recent.0, h)) recent.1
          (subst (AreNew events) (sym one) fresh.1) in
      omega (arith, rest, ap length one)

  -- The configured size of the buffer bounds nothing: events with different identifiers that are
  -- all newer than the cutoff of a cleanup, two time windows before, are all buffered by a new
  -- engine, however many they are and whatever the size is.
  pub buffer_unbounded :
      (events : List (AnalyticsEvent P))
      → AreRecent events
      → AreNew events []
      → (get_stats (buffer_events events new_engine)).buffered_events ≡ length events
  unfolding get_stats
  buffer_unbounded events recent fresh =
      omega (arith, buffer_events_grow events new_engine tt recent fresh)

  -- Where the buffer holds as many events as it should, buffering an event leaves none, other than
  -- that event, that is not newer than the cutoff.
  pub full_buffer_recent :
      (event : AnalyticsEvent P) (s : CorrelationEngine F)
      → leb config.max_buffer_size (length s.event_buffer) ≡ true
      → All
          (λ entry. (entry.1 ≡ buffered event) ⊎ (is_recent config now (entry.1) ≡ true))
          (buffer_event config now event s).event_buffer
  unfolding buffer_event cleanup_old_events insert_id
  full_buffer_recent event s full = rw full (
    inl refl,
    All-map (λ entry. IsRecent config now entry × (entry.0 ≢ event.common.event_id)) _
        (λ entry h. inr h.0) _
        (All-remove_id (IsRecent config now) event.common.event_id _
          (retain-All (is_recent config now) s.event_buffer)),
  )
