-- ===== src/Analytics/Correlation/Stored.antt =====
-- What src/analytics/correlation_engine.rs leaves in the database.
use mathlib.Core.List.{append-nil, append_assoc}
use analytics_hub.Prelude.{
  ℕ, suc, ◌+◌, ◌≡◌, arith, refl, sym, ap, ◌∙◌, subst, Bool, true, false, ◌&&◌, Option, none, some,
  List, [], ◌∷◌, ◌++◌, ◌⊎◌, inl, inr, ◌>>=◌, map, length, Outcome, ok, err, Bool-cases,
}
use analytics_hub.Prelude.Float.{FloatOps}
use analytics_hub.Storage.{has, unavailable, unique_violation}
use analytics_hub.Analytics.Correlation.{
  CorrelationConfig, Correlation, Tables, World, StoreError, refused, foreign_key_violation,
  CorrelationFaults,
}
use analytics_hub.Analytics.Correlation.Process.{
  buffer_event, row_of, has_row, store_correlation, and_then, store_all, find_correlated_by_id,
  detect, detect_and_store, process_event,
}
use analytics_hub.Analytics.Correlation.Run.{Request}

module _ {P F : Type 0} where
  -- After the correlations `front` of `cs` were inserted, the next is refused, and nothing of it or
  -- of those after it is written: the tables are the ones that refuse it, and its error is returned.
  pub record Refuses (fails : ℕ → Bool) (i : ℕ) (front cs : List (Correlation F))
      (error : StoreError) (t : Tables P F) : Type 0 where
    pub next : Correlation F
    pub rest : List (Correlation F)
    pub order : cs ≡ front ++ next ∷ rest
    pub refusal : store_correlation (fails (i + length front)) next t ≡ (err error, t)

  -- The correlations `front` of `cs` are inserted, in their order, and no event.
  pub record Stores (fails : ℕ → Bool) (i : ℕ) (t : Tables P F) (front cs : List (Correlation F))
      (r : Outcome (Unit {0}) StoreError × Tables P F) : Type 0 where
    pub same_events : r.1.events ≡ t.events
    pub rows : r.1.correlations ≡ t.correlations ++ map row_of front
    pub finished :
        ((r.0 ≡ ok tt) × (front ≡ cs))
        ⊎ ((error : StoreError) × (r.0 ≡ err error) × Refuses fails i front cs error r.1)

  store_correlation-cases :
      (fails : Bool) (c : Correlation F) (t : Tables P F)
      → (store_correlation fails c t
          ≡ (ok tt, record t { correlations = t.correlations ++ row_of c ∷ [] }))
        ⊎ ((e : StoreError) × (store_correlation fails c t ≡ (err e, t)))
  unfolding store_correlation
  store_correlation-cases true c t = inr (refused unavailable, refl)
  store_correlation-cases false c t = elim (Bool-cases (has_row c.correlation_id t.correlations)) [
    | inl e ↦ inr (refused unique_violation, rw e refl)
    | inr e ↦ elim (Bool-cases (has c.source_event_id t.events && has c.target_event_id t.events)) [
      | inl known ↦ inl (rw (e, known) refl)
      | inr unknown ↦ inr (foreign_key_violation, rw (e, unknown) refl)
    ]
  ]

  later_Refuses :
      (fails : ℕ → Bool) (i : ℕ) (c : Correlation F) (front cs : List (Correlation F))
      (error : StoreError) (t : Tables P F)
      → Refuses fails (suc i) front cs error t
      → Refuses fails i (c ∷ front) (c ∷ cs) error t
  later_Refuses fails i c front cs error t h =
      let shifted : suc i + length front ≡ i + length (c ∷ front) = omega arith in
      record {
        next = h.next;
        rest = h.rest;
        order = ap (λ l. c ∷ l) h.order;
        refusal =
            subst (λ k. store_correlation (fails k) h.next t ≡ (err error, t)) shifted h.refusal;
      }

  store_all-Stores :
      (fails : ℕ → Bool) (i : ℕ) (cs : List (Correlation F)) (t : Tables P F)
      → (front : List (Correlation F)) × Stores fails i t front cs (store_all fails i cs t)
  unfolding store_all
  store_all-Stores fails i [] t = (
    [],
    record {
      same_events = refl;
      rows = sym (append-nil t.correlations);
      finished = inl (refl, refl);
    },
  )
  store_all-Stores fails i (c ∷ cs) t =
      let stores = λ (stored : Outcome (Unit {0}) StoreError × Tables P F).
        (front : List (Correlation F)) × Stores fails i t front (c ∷ cs)
          (and_then stored (store_all fails (suc i) cs)) in
      elim (store_correlation-cases (fails i) c t) [
        | inl e ↦
            let added = record t { correlations = t.correlations ++ row_of c ∷ [] } in
            let (front, h) = store_all-Stores fails (suc i) cs added in
            subst stores (sym e) (
              c ∷ front,
              record {
                same_events = h.same_events;
                rows = h.rows ∙ append_assoc t.correlations (row_of c ∷ []) _;
                finished = elim h.finished [
                  | inl d ↦ inl (d.0, ap (λ l. c ∷ l) d.1)
                  | inr (error, told, refused_next) ↦
                      inr (error, told, later_Refuses fails i c front cs error _ refused_next)
                ];
              },
            )
        | inr (error, e) ↦
            let first : i ≡ i + 0 = omega arith in
            subst stores (sym e) (
              [],
              record {
                same_events = refl;
                rows = sym (append-nil t.correlations);
                finished = inr (
                  error,
                  refl,
                  record {
                    next = c;
                    rest = cs;
                    order = refl;
                    refusal = subst (λ k. store_correlation (fails k) c t ≡ (err error, t)) first e;
                  },
                );
              },
            )
      ]

module _ (f : FloatOps) {P : Type 0} (config : CorrelationConfig f.F) (r : Request P) where
  -- What is detected for the event of a request.
  abbrev pub detected : World P f.F → List (Correlation f.F)
  detected s =
      detect f config r.draws r.event (buffer_event config r.now r.event s.engine).event_buffer

  abbrev pub processed : World P f.F → Outcome (List (Correlation f.F)) StoreError × World P f.F
  processed s = process_event f config r.draws r.faults r.now r.event s

  -- What the query by the correlation identifier answers.
  abbrev pub query : Outcome (List (Correlation f.F)) StoreError
  query = find_correlated_by_id r.faults r.event.common.correlation_id

  -- What a call leaves in the database, and what it answers.
  pub record Leaves (s : World P f.F) (front : List (Correlation f.F))
      (after : Outcome (List (Correlation f.F)) StoreError × World P f.F) : Type 0 where
    pub same_events : after.1.tables.events ≡ s.tables.events
    pub rows : after.1.tables.correlations ≡ s.tables.correlations ++ map row_of front
    pub returned :
        ((after.0 ≡ ok (detected s)) × (front ≡ detected s))
        ⊎ ((error : StoreError) × (after.0 ≡ err error)
            × (((query ≡ err error) × (front ≡ []))
                ⊎ Refuses r.faults.insert_fails 0 front (detected s) error after.1.tables))

  pub find_correlated_by_id-cases :
      (faults : CorrelationFaults) (id : Option ℕ)
      → (find_correlated_by_id {F = f.F} faults id ≡ ok [])
        ⊎ ((e : StoreError) × (find_correlated_by_id {F = f.F} faults id ≡ err e))
  find_correlated_by_id-cases faults none = inl refl
  find_correlated_by_id-cases faults (some id) = elim (Bool-cases faults.query_fails) [
    | inl e ↦ inr (refused unavailable, rw e refl)
    | inr e ↦ inl (rw e refl)
  ]

  -- A call inserts the correlations it detected, in their order, and adds or removes no event. Where
  -- it succeeds all of them are inserted, and they are what it returns. Where it fails, either the
  -- query by the correlation identifier has failed, and none is inserted; or those before the first
  -- that the tables refuse are inserted, and they stay, and its error is returned.
  pub process_event_stores :
      (s : World P f.F) → (front : List (Correlation f.F)) × Leaves s front (processed s)
  unfolding process_event detect_and_store
  process_event_stores s =
      let started = record s { engine = buffer_event config r.now r.event s.engine } in
      let leaves = λ (by_id : Outcome (List (Correlation f.F)) StoreError).
        (front : List (Correlation f.F)) × Leaves s front
          (detect_and_store f config r.draws r.faults r.event started by_id) in
      elim (find_correlated_by_id-cases r.faults r.event.common.correlation_id) [
        | inl e ↦
            let (front, h) = store_all-Stores r.faults.insert_fails 0 (detected s) s.tables in
            subst leaves (sym e) (
              front,
              record {
                same_events = h.same_events;
                rows = h.rows;
                returned = elim h.finished [
                  | inl d ↦ inl (ap (λ o. o >>= λ _. ok (detected s)) d.0, d.1)
                  | inr (error, told, refused_next) ↦
                      inr (error, ap (λ o. o >>= λ _. ok (detected s)) told, inr refused_next)
                ];
              },
            )
        | inr (error, e) ↦ subst leaves (sym e) (
          [],
          record {
            same_events = refl;
            rows = sym (append-nil s.tables.correlations);
            returned = inr (error, refl, inl (e, refl));
          },
        )
      ]
