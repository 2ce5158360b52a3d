-- ===== src/Examples/Kafka.antt =====
-- Topics and permissions at a small broker, which keeps the names of its topics.
use text.Mathlib.TextEquality.{eq_iff}
use analytics_hub.Prelude.{
  ◌≡◌, ◌≢◌, refl, String, none, some, Bool, true, false, ◌||◌, List, [], ◌∷◌, map, Outcome, ok, err,
  count, All, arith,
}
use analytics_hub.Prelude.Int.{pos}
use analytics_hub.Prelude.Dict.{str_eq}
use analytics_hub.Prelude.Text.{starts_with}
use analytics_hub.Cluster.{Pod, phase_of}
use analytics_hub.Cluster.Shell.{Shell, is_running, has_prefix, running_pod}
use analytics_hub.Kafka.{TopicConfig, new_topic, AclConfig, topic, write, new_acl, ClusterHealth}
use analytics_hub.Kafka.Topics.{Broker, create_topic, created_of, push_created, create_topics}
use analytics_hub.Kafka.Verification.{
  ClusterMetadata, Report, is_under_replicated, is_offline, count_partitions, verify,
}
use analytics_hub.Kafka.Offline.{all_led, verify_verdict}
use analytics_hub.Kafka.Twice.{IsBroker, create_topics_twice}
use analytics_hub.Kafka.Acls.{not_created, acl_command, create_acls}
use analytics_hub.Kafka.Acls.Granted.{denied, denials_granted, duplicates_fail}

abbrev is_among : String → List String → Bool
is_among name [] = false
is_among name (n ∷ names) = str_eq name n || is_among name names

abbrev add_name :
    Bool
    → String
    → List String
    → Outcome (List (Outcome String (String × String))) String × List String
add_name true name names = (ok (err (name, "already exists") ∷ []), names)
add_name false name names = (ok (ok name ∷ []), name ∷ names)

abbrev small_broker : Broker
small_broker = record {
  State = List String;
  Error = String;
  message = λ e. e;
  create = λ c names. add_name (is_among c.name names) c.name names;
  delete = λ dropped names. (ok (map (λ n. ok n) dropped), names);
  topic_names = λ names. ok names;
}

answers_once : (b : Bool) (name : String) (names : List String) → (add_name b name names).0 ≢ ok []
answers_once true name names h = absurd (cc)
answers_once false name names h = absurd (cc)

same_name : (name : String) → str_eq name name ≡ true
same_name name = ground (arith, eq_iff name name)

or_true : (b : Bool) → (b || true) ≡ true
or_true true = refl
or_true false = refl

there_after :
    (b : Bool) (name : String) (names : List String)
    → is_among name names ≡ b
    → is_among name (add_name b name names).1 ≡ true
there_after true name names h = h
there_after false name names h = rw (same_name name) refl

still_there :
    (b : Bool) (name n : String) (names : List String)
    → is_among name names ≡ true
    → is_among name (add_name b n names).1 ≡ true
still_there true name n names h = h
still_there false name n names h = rw h (or_true (str_eq name n))

small_broker-IsBroker : IsBroker small_broker
small_broker-IsBroker = record {
  exists = is_among;
  answers = λ c s. answers_once (is_among c.name s) c.name s;
  settles = λ c s t results h. there_after _ c.name s refl;
  known = λ c s t e results h said. there_after _ c.name s refl;
  keeps = λ c name s h. still_there (is_among c.name s) name c.name s h;
  existing_error = λ c s. "already exists";
  says = λ c s. refl;
  refuses = λ c s h. rw h refl;
}

abbrev two_topics : List TopicConfig
two_topics = new_topic "llm-events" 32 3 "events" ∷ new_topic "llm-traces" 32 3 "traces" ∷ []

abbrev one_there : List String
one_there = "llm-traces" ∷ []

created_first :
    create_topics small_broker two_topics [] one_there
    ≡ (ok ("llm-events" ∷ []), "llm-events" ∷ one_there)
unfolding create_topics create_topic created_of push_created new_topic
created_first = refl

create_topics_twice_example :
    All
      (λ c.
        small_broker-IsBroker.exists c.name (create_topics small_broker two_topics [] one_there).1
        ≡ true)
      two_topics
    × (create_topics small_broker two_topics []
          (create_topics small_broker two_topics [] one_there).1
        ≡ (ok [], (create_topics small_broker two_topics [] one_there).1))
create_topics_twice_example =
    create_topics_twice small_broker small_broker-IsBroker two_topics one_there ("llm-events" ∷ [])
      (rw created_first refl)

-- A pod in which every program is refused.
abbrev kafka_pods : List Pod
kafka_pods =
    record {
      name = some "kafka-0";
      spec = none;
      status = some (record { phase = some "Running"; conditions = none; pod_ip = none });
    }
    ∷ []

abbrev refusing : Shell
refusing = record {
  State = List String;
  Error = String;
  list_pods = λ ran. ok kafka_pods;
  exec_in_pod = λ pod program ran. (err "ACL already exists", program ∷ ran);
}

abbrev writes_events : AclConfig
writes_events = new_acl "llm-analytics-producer" topic "llm-events" write

denials_granted_example :
    create_acls refusing "hub" "kafka:9092" (denied writes_events ∷ []) [] []
    ≡ create_acls refusing "hub" "kafka:9092" (writes_events ∷ []) [] []
denials_granted_example = denials_granted refusing "hub" "kafka:9092" (writes_events ∷ []) [] []

kafka_0_runs : running_pod "kafka-" kafka_pods ≡ some "kafka-0"
unfolding running_pod has_prefix is_running phase_of
kafka_0_runs = refl

duplicates_fail_example :
    create_acls refusing "hub" "kafka:9092" (writes_events ∷ []) [] []
    ≡ (err (not_created "ACL already exists"), acl_command "kafka:9092" writes_events ∷ [])
duplicates_fail_example =
    duplicates_fail refusing "hub" "kafka:9092" writes_events [] [] [] _ kafka_pods "kafka-0"
      "ACL already exists" refl kafka_0_runs refl

abbrev texts : Report String
texts = record {
  unreachable = λ e. e;
  brokers_found = λ n. "brokers";
  topics_found = λ n. "topics";
  llm_topics_found = λ n. "llm topics";
  llm_topics_expected = λ n. "expected";
  under_replicated_found = λ n. "under-replicated";
  offline_found = λ n. "offline";
}

-- One broker, and a partition whose second replica is behind.
abbrev behind : ClusterMetadata
behind = record {
  brokers = pos 1 ∷ [];
  topics =
      record {
        name = "llm-events";
        partitions =
            record { id = pos 0; leader = pos 1; replicas = pos 1 ∷ pos 2 ∷ []; isr = pos 1 ∷ [] }
            ∷ [];
      }
      ∷ [];
}

verify_verdict_example :
    (h : ClusterHealth) × (verify texts (ok behind) (ok behind) (ok behind) (ok behind) ≡ ok h)
    × (h.healthy ≡ all_led behind.topics)
    × (h.broker_count ≡ 1)
    × (h.topic_count ≡ 1)
    × (h.llm_topic_count ≡ count (λ t. starts_with "llm-" t.name) behind.topics)
    × (h.under_replicated_partitions ≡ count_partitions is_under_replicated behind.topics)
    × (h.offline_partitions ≡ count_partitions is_offline behind.topics)
verify_verdict_example = verify_verdict texts behind behind behind behind
