-- ===== src/Kafka/Topics.antt =====
-- src/infra/kafka/topics.rs: creating and deleting topics, over a broker that is a parameter.
use analytics_hub.Prelude.{
  String, Bool, true, false, List, [], ◌∷◌, ◌++◌, if◌then◌else◌, Outcome, ok, err,
}
use analytics_hub.Prelude.Text.{starts_with, contains}
use analytics_hub.Prelude.Effects.{Effect, pure, ◌>>=◌}
use analytics_hub.Kafka.{TopicConfig}

-- The admin client of rdkafka: a request fails, or is answered for each of its topics.
pub record Broker : Type 1 where
  pub State : Type 0
  pub Error : Type 0
  pub message : Error → String
  pub create : TopicConfig → State → Outcome (List (Outcome String (String × Error))) Error × State
  pub delete : List String → State → Outcome (List (Outcome String (String × Error))) Error × State
  pub topic_names : State → Outcome (List String) Error

pub data TopicError (E : Type 0) : Type 0 where
  request_failed : E → TopicError E
  refused : String → E → TopicError E

filter_llm : List String → List String
filter_llm [] = []
filter_llm (t ∷ ts) = let rest = filter_llm ts in if starts_with "llm-" t then t ∷ rest else rest

module _ (b : Broker) where
  abbrev pub Admin : Type 0 → Type 0
  Admin A = Effect b.State (TopicError b.Error) A

  -- The loop over the results, which returns in its first turn.
  unfoldable pub created_of :
      Outcome (List (Outcome String (String × b.Error))) b.Error → Outcome Bool (TopicError b.Error)
  created_of (err e) = err (request_failed e)
  created_of (ok []) = ok true
  created_of (ok (ok t ∷ results)) = ok true
  created_of (ok (err (t, e) ∷ results)) =
      if contains "already exists" (b.message e) then ok false else err (refused t e)

  unfoldable pub create_topic : TopicConfig → Admin Bool
  create_topic config s = let (answer, s') = b.create config s in (created_of answer, s')

  unfoldable pub push_created : Bool → TopicConfig → List String → List String
  push_created true config created = created ++ config.name ∷ []
  push_created false config created = created

  unfoldable pub create_topics : List TopicConfig → List String → Admin (List String)
  create_topics [] created = pure created
  create_topics (config ∷ configs) created =
      create_topic config >>= λ is_new. create_topics configs (push_created is_new config created)

  unfoldable pub deleted_of :
      Outcome (List (Outcome String (String × b.Error))) b.Error
      → Outcome (Unit {0}) (TopicError b.Error)
  deleted_of (err e) = err (request_failed e)
  deleted_of (ok []) = ok tt
  deleted_of (ok (ok t ∷ results)) = deleted_of (ok results)
  deleted_of (ok (err (t, e) ∷ results)) = err (refused t e)

  unfoldable pub delete_topics : List String → Admin (Unit {0})
  delete_topics names s = let (answer, s') = b.delete names s in (deleted_of answer, s')

  unfoldable pub llm_names : Outcome (List String) b.Error → Outcome (List String) b.Error
  unfolding filter_llm
  llm_names (ok names) = ok (filter_llm names)
  llm_names (err e) = err e

  unfoldable pub list_llm_topics : b.State → Outcome (List String) b.Error
  list_llm_topics s = llm_names (b.topic_names s)
