-- ===== src/Kafka/Twice.antt =====
-- Creating the topics of src/infra/kafka/topics.rs again.
use analytics_hub.Prelude.{
  ◌≡◌, ◌≢◌, refl, String, Bool, true, false, List, [], ◌∷◌, Bool-cases, inl, inr, Outcome, ok, err,
  All, arith,
}
use analytics_hub.Prelude.Text.{contains}
use analytics_hub.Prelude.Effects.{continue}
use analytics_hub.Kafka.{TopicConfig}
use analytics_hub.Kafka.Topics.{
  Broker, TopicError, created_of, create_topic, push_created, create_topics,
}

abbrev pub SaysExists : (b : Broker) → b.Error → Type 0
SaysExists b e = contains "already exists" (b.message e) ≡ true

-- What Kafka documents of creation: one answer for the topic; after a success, and where the answer
-- says that the topic exists, it does; no topic is lost; and an existing one is refused, with that
-- answer and no change.
pub record IsBroker (b : Broker) : Type 0 where
  pub exists : String → b.State → Bool
  pub answers : (c : TopicConfig) (s : b.State) → (b.create c s).0 ≢ ok []
  pub settles :
      (c : TopicConfig) (s : b.State) (t : String)
      (results : List (Outcome String (String × b.Error)))
      → (b.create c s).0 ≡ ok (ok t ∷ results)
      → exists c.name (b.create c s).1 ≡ true
  pub known :
      (c : TopicConfig) (s : b.State) (t : String) (e : b.Error)
      (results : List (Outcome String (String × b.Error)))
      → (b.create c s).0 ≡ ok (err (t, e) ∷ results)
      → SaysExists b e
      → exists c.name (b.create c s).1 ≡ true
  pub keeps :
      (c : TopicConfig) (name : String) (s : b.State)
      → exists name s ≡ true
      → exists name (b.create c s).1 ≡ true
  pub existing_error : TopicConfig → b.State → b.Error
  pub says : (c : TopicConfig) (s : b.State) → SaysExists b (existing_error c s)
  pub refuses :
      (c : TopicConfig) (s : b.State)
      → exists c.name s ≡ true
      → b.create c s ≡ (ok (err (c.name, existing_error c s) ∷ []), s)

module _ (b : Broker) (laws : IsBroker b) where
  existing_skipped :
      (c : TopicConfig) (s : b.State)
      → laws.exists c.name s ≡ true
      → create_topic b c s ≡ (ok false, s)
  unfolding create_topic created_of
  existing_skipped c s h = rw (laws.refuses c s h) (rw (laws.says c s) refl)

  creates_none :
      (configs : List TopicConfig) (created : List String) (s : b.State)
      → All (λ c. laws.exists c.name s ≡ true) configs
      → create_topics b configs created s ≡ (ok created, s)
  unfolding create_topics push_created
  creates_none [] created s h = refl
  creates_none (c ∷ configs) created s h =
      rw (existing_skipped c s h.0) (creates_none configs created s h.1)

  settled_of :
      (c : TopicConfig) (s : b.State) (is_new : Bool)
      (answer : Outcome (List (Outcome String (String × b.Error))) b.Error)
      → (b.create c s).0 ≡ answer
      → created_of b answer ≡ ok is_new
      → laws.exists c.name (b.create c s).1 ≡ true
  unfolding created_of
  settled_of c s is_new (err e) h k = absurd (cc)
  settled_of c s is_new (ok []) h k = absurd (laws.answers c s h)
  settled_of c s is_new (ok (ok t ∷ results)) h k = laws.settles c s t results h
  settled_of c s is_new (ok (err (t, e) ∷ results)) h k =
      elim (Bool-cases (contains "already exists" (b.message e))) [
        | inl there ↦ laws.known c s t e results h there
        | inr other ↦ absurd (ground arith)
      ]

  abbrev after_one :
      TopicConfig
      → List TopicConfig
      → List String
      → Outcome Bool (TopicError b.Error)
      → b.State
      → Outcome (List String) (TopicError b.Error) × b.State
  after_one c configs created r s =
      continue r (λ is_new. create_topics b configs (push_created b is_new c created)) s

  kept_after :
      (c : TopicConfig) (configs : List TopicConfig) (created : List String) (name : String)
      (r : Outcome Bool (TopicError b.Error)) (s : b.State)
      → laws.exists name s ≡ true
      → ((made : List String) → laws.exists name (create_topics b configs made s).1 ≡ true)
      → laws.exists name (after_one c configs created r s).1 ≡ true
  kept_after c configs created name (ok is_new) s h rest = rest (push_created b is_new c created)
  kept_after c configs created name (err e) s h rest = h

  kept_by_all :
      (configs : List TopicConfig) (created : List String) (name : String) (s : b.State)
      → laws.exists name s ≡ true
      → laws.exists name (create_topics b configs created s).1 ≡ true
  unfolding create_topics create_topic
  kept_by_all [] created name s h = h
  kept_by_all (c ∷ configs) created name s h =
      let there = laws.keeps c name s h in
      kept_after c configs created name (created_of b (b.create c s).0) (b.create c s).1 there
        (λ made. kept_by_all configs made name (b.create c s).1 there)

  abbrev AllExist : List TopicConfig → b.State → Type 0
  AllExist configs s = All (λ c. laws.exists c.name s ≡ true) configs

  settled_after :
      (c : TopicConfig) (configs : List TopicConfig) (created out : List String)
      (r : Outcome Bool (TopicError b.Error)) (s : b.State)
      → ((is_new : Bool) → r ≡ ok is_new → laws.exists c.name s ≡ true)
      → ((made : List String)
          → (create_topics b configs made s).0 ≡ ok out
          → AllExist configs (create_topics b configs made s).1)
      → (after_one c configs created r s).0 ≡ ok out
      → AllExist (c ∷ configs) (after_one c configs created r s).1
  settled_after c configs created out (ok is_new) s there rest h =
      let made = push_created b is_new c created in
      (kept_by_all configs made c.name s (there is_new refl), rest made h)
  settled_after c configs created out (err e) s there rest h = absurd (cc)

  all_settled :
      (configs : List TopicConfig) (created out : List String) (s : b.State)
      → (create_topics b configs created s).0 ≡ ok out
      → AllExist configs (create_topics b configs created s).1
  unfolding create_topics create_topic
  all_settled [] created out s h = tt
  all_settled (c ∷ configs) created out s h =
      settled_after c configs created out (created_of b (b.create c s).0) (b.create c s).1
        (λ is_new e. settled_of c s is_new (b.create c s).0 refl e)
        (λ made. all_settled configs made out (b.create c s).1) h

  -- Topics that were created, or found to exist, all exist afterwards, and creating them again
  -- creates none, changes nothing and is no error.
  pub create_topics_twice :
      (configs : List TopicConfig) (s : b.State) (out : List String)
      → (create_topics b configs [] s).0 ≡ ok out
      → All (λ c. laws.exists c.name (create_topics b configs [] s).1 ≡ true) configs
        × (create_topics b configs [] (create_topics b configs [] s).1
            ≡ (ok [], (create_topics b configs [] s).1))
  create_topics_twice configs s out h =
      let there = all_settled configs [] out s h in
      (there, creates_none configs [] (create_topics b configs [] s).1 there)
