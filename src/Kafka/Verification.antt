-- ===== src/Kafka/Verification.antt =====
-- src/infra/kafka/verification.rs: what is said of a cluster, from the metadata that it is asked for
-- four times.
use analytics_hub.Prelude.{
  ℕ, ◌+◌, String, Bool, List, [], ◌∷◌, map, length, count, ◌==◌, ltb, if◌then◌else◌, Outcome, ok,
  err,
}
use analytics_hub.Prelude.Int.{ℤ, pos, ltb_ℤ}
use analytics_hub.Prelude.Text.{starts_with}
use analytics_hub.Prelude.Effects.{Effect, ◌>>◌}
use analytics_hub.Kafka.{ClusterHealth, new_cluster_health, add_message, mark_unhealthy}

pub record Partition : Type 0 where
  pub id : ℤ
  pub leader : ℤ
  pub replicas : List ℤ
  pub isr : List ℤ

pub record TopicMetadata : Type 0 where
  pub name : String
  pub partitions : List Partition

pub record ClusterMetadata : Type 0 where
  pub brokers : List ℤ
  pub topics : List TopicMetadata

-- The texts that `format!` writes.
pub record Report (E : Type 0) : Type 0 where
  pub unreachable : E → String
  pub brokers_found : ℕ → String
  pub topics_found : ℕ → String
  pub llm_topics_found : ℕ → String
  pub llm_topics_expected : ℕ → String
  pub under_replicated_found : ℕ → String
  pub offline_found : ℕ → String

unfoldable pub is_under_replicated : Partition → Bool
is_under_replicated p = ltb (length p.isr) (length p.replicas)

unfoldable pub is_offline : Partition → Bool
is_offline p = ltb_ℤ p.leader (pos 0)

-- How many partitions of the topics pass a test, as the two loops count them.
unfoldable pub count_partitions : (Partition → Bool) → List TopicMetadata → ℕ
count_partitions p [] = 0
count_partitions p (t ∷ topics) = count p t.partitions + count_partitions p topics

module _ {E : Type 0} (report : Report E) where
  abbrev pub Check : Type 0
  Check = Effect ClusterHealth E (Unit {0})

  unfoldable pub check_connectivity : Outcome ClusterMetadata E → Check
  check_connectivity (ok m) h = (ok tt, add_message "Kafka brokers are reachable" h)
  check_connectivity (err e) h = (err e, mark_unhealthy (report.unreachable e) h)

  unfoldable pub check_metadata : Outcome ClusterMetadata E → Check
  check_metadata (err e) h = (err e, h)
  check_metadata (ok m) h =
      let broker_count = length m.brokers in
      let counted =
        add_message (report.brokers_found broker_count)
          (record h { broker_count = broker_count }) in
      (
        ok tt,
        if ltb broker_count 3
            then add_message "WARNING: Less than 3 brokers detected (recommended: 3+)" counted
            else counted,
      )

  unfoldable pub check_topics : Outcome ClusterMetadata E → Check
  check_topics (err e) h = (err e, h)
  check_topics (ok m) h =
      let topics = map (λ t. t.name) m.topics in
      let topic_count = length topics in
      let llm_topic_count = count (λ t. starts_with "llm-" t) topics in
      let counted = add_message (report.llm_topics_found llm_topic_count) (
        add_message (report.topics_found topic_count)
          (record h { topic_count = topic_count; llm_topic_count = llm_topic_count })) in
      (
        ok tt,
        if ltb llm_topic_count 10
            then add_message (report.llm_topics_expected llm_topic_count) counted
            else counted,
      )

  unfoldable pub replication_said : ℕ → ℕ → ClusterHealth → ClusterHealth
  replication_said under_replicated offline h =
      let counted = record h {
        under_replicated_partitions = under_replicated;
        offline_partitions = offline;
      } in
      let said =
        if under_replicated == 0
        then add_message "No under-replicated partitions" counted
        else add_message (report.under_replicated_found under_replicated) counted in
      if offline == 0
      then add_message "No offline partitions" said
      else mark_unhealthy (report.offline_found offline) said

  unfoldable pub check_replication : Outcome ClusterMetadata E → Check
  check_replication (err e) h = (err e, h)
  check_replication (ok m) h = (
    ok tt,
    replication_said (count_partitions is_under_replicated m.topics)
        (count_partitions is_offline m.topics) h,
  )

  unfoldable pub health_of : Outcome (Unit {0}) E × ClusterHealth → Outcome ClusterHealth E
  health_of (ok u, h) = ok h
  health_of (err e, h) = err e

  -- `verify`; the answers are those of the four requests for metadata.
  unfoldable pub verify :
      (connected metadata topics replication : Outcome ClusterMetadata E) → Outcome ClusterHealth E
  verify connected metadata topics replication = health_of (
      (check_connectivity connected
          >> (check_metadata metadata >> (check_topics topics >> check_replication replication)))
        new_cluster_health)
