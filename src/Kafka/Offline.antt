-- ===== src/Kafka/Offline.antt =====
-- What src/infra/kafka/verification.rs calls healthy.
use analytics_hub.Prelude.{
  ℕ, ◌≡◌, refl, String, Bool, true, false, List, [], ◌∷◌, map, length, length-map, count, ◌==◌,
  if◌then◌else◌, ok, arith,
}
use analytics_hub.Prelude.Text.{starts_with}
use analytics_hub.Kafka.{ClusterHealth, new_cluster_health, add_message, mark_unhealthy}
use analytics_hub.Kafka.Verification.{
  Partition, TopicMetadata, ClusterMetadata, Report, is_under_replicated, is_offline,
  count_partitions, check_connectivity, check_metadata, check_topics, replication_said,
  check_replication, health_of, verify,
}

-- All partitions of all topics have a leader.
abbrev pub no_partition : (Partition → Bool) → List Partition → Bool
no_partition p [] = true
no_partition p (x ∷ l) = if p x then false else no_partition p l

abbrev pub all_led : List TopicMetadata → Bool
all_led [] = true
all_led (t ∷ topics) = if no_partition is_offline t.partitions then all_led topics else false

count-map :
    (p : String → Bool) (topics : List TopicMetadata)
    → count p (map (λ t. t.name) topics) ≡ count (λ t. p t.name) topics
count-map p [] = refl
count-map p (t ∷ topics) = ground (arith, count-map p topics)

none_counted : (p : Partition → Bool) (l : List Partition) → (count p l == 0) ≡ no_partition p l
none_counted p [] = refl
none_counted p (x ∷ l) = ground (arith, none_counted p l)

all_led-counted :
    (topics : List TopicMetadata) → (count_partitions is_offline topics == 0) ≡ all_led topics
unfolding count_partitions
all_led-counted [] = refl
all_led-counted (t ∷ topics) =
    ground (arith, all_led-counted topics, none_counted is_offline t.partitions)

abbrev both_said : Bool → Bool → ClusterHealth → (m n k l : String) → ClusterHealth
both_said b c h m n k l =
    let first = if b then add_message m h else add_message n h in
    if c then add_message k first else mark_unhealthy l first

two_tests :
    (b c : Bool) (h : ClusterHealth) (m n k l : String)
    → both_said b c h m n k l ≡ record h {
      healthy = if c then h.healthy else false;
      messages = (both_said b c h m n k l).messages;
    }
unfolding add_message mark_unhealthy
two_tests true true h m n k l = refl
two_tests true false h m n k l = refl
two_tests false true h m n k l = refl
two_tests false false h m n k l = refl

module _ {E : Type 0} (report : Report E) where
  said :
      (u o : ℕ) (h : ClusterHealth)
      → replication_said report u o h ≡ record h {
        under_replicated_partitions = u;
        offline_partitions = o;
        healthy = if o == 0 then h.healthy else false;
        messages = (replication_said report u o h).messages;
      }
  unfolding replication_said add_message mark_unhealthy
  said u o h =
      two_tests (u == 0) (o == 0)
        (record h { under_replicated_partitions = u; offline_partitions = o })
        "No under-replicated partitions" (report.under_replicated_found u) "No offline partitions"
        (report.offline_found o)

  -- A cluster that answers all four requests is reported healthy if, and only if, every partition of
  -- the last answer has a leader, however few brokers and replicas there are; the five counts, that of
  -- the topics of the hub included, are those of the answers.
  pub verify_verdict :
      (connected metadata topics replication : ClusterMetadata)
      → (h : ClusterHealth) × (verify report
            (ok connected)
            (ok metadata)
            (ok topics)
            (ok replication)
          ≡ ok h)
        × (h.healthy ≡ all_led replication.topics)
        × (h.broker_count ≡ length metadata.brokers)
        × (h.topic_count ≡ length topics.topics)
        × (h.llm_topic_count ≡ count (λ t. starts_with "llm-" t.name) topics.topics)
        × (h.under_replicated_partitions ≡ count_partitions is_under_replicated replication.topics)
        × (h.offline_partitions ≡ count_partitions is_offline replication.topics)
  unfolding verify check_connectivity check_metadata check_topics check_replication replication_said
      health_of add_message mark_unhealthy new_cluster_health
  verify_verdict connected metadata topics replication =
      let u = count_partitions is_under_replicated replication.topics in
      let o = count_partitions is_offline replication.topics in
      let counted = all_led-counted replication.topics in
      (
        _,
        refl,
        rw (said u o) (ground (arith, counted)),
        rw (said u o) (ground arith),
        rw (said u o) (ground (arith, length-map (λ (t : TopicMetadata). t.name) topics.topics)),
        rw (said u o) (ground (arith, count-map (starts_with "llm-") topics.topics)),
        rw (said u o) refl,
        rw (said u o) refl,
      )
