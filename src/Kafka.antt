-- ===== src/Kafka.antt =====
-- src/infra/kafka/types.rs: the topics and the permissions that the hub needs, and what is reported
-- of a cluster. Numbers are written as text by a parameter.
pub mod Topics
pub mod Acls
pub mod Verification
pub mod Twice
pub mod Offline
use analytics_hub.Prelude.{ℕ, String, Bool, true, false, List, [], ◌∷◌, ◌++◌, map}
use analytics_hub.Prelude.Dict.{Dict, insert}
use analytics_hub.Prelude.Text as Text

pub record TopicConfig : Type 0 where
  pub name : String
  pub partitions : ℕ
  pub replication_factor : ℕ
  pub config : Dict String
  pub description : String

unfoldable pub new_topic : String → ℕ → ℕ → String → TopicConfig
new_topic name partitions replication_factor description = record {
  name = name;
  partitions = partitions;
  replication_factor = replication_factor;
  config = [];
  description = description;
}

unfoldable pub with_config : String → String → TopicConfig → TopicConfig
with_config key value t = record t { config = insert key value t.config }

unfoldable pub with_cleanup_policy : String → TopicConfig → TopicConfig
with_cleanup_policy policy = with_config "cleanup.policy" policy

unfoldable pub with_compression : String → TopicConfig → TopicConfig
with_compression compression = with_config "compression.type" compression

module _ (number : ℕ → String) where
  unfoldable pub with_retention_ms : ℕ → TopicConfig → TopicConfig
  with_retention_ms ms = with_config "retention.ms" (number ms)

  unfoldable pub with_retention_bytes : ℕ → TopicConfig → TopicConfig
  with_retention_bytes bytes = with_config "retention.bytes" (number bytes)

  unfoldable pub with_min_isr : ℕ → TopicConfig → TopicConfig
  with_min_isr min_isr = with_config "min.insync.replicas" (number min_isr)

  -- The policies that every topic sets, in the order of the source for all but the first two.
  unfoldable pub kept : String → ℕ → TopicConfig → TopicConfig
  kept policy ms t =
      with_min_isr 2 (with_compression "lz4" (with_retention_ms ms (with_cleanup_policy policy t)))

  unfoldable pub get_llm_topic_configs : List TopicConfig
  get_llm_topic_configs =
      with_config "max.message.bytes" "10485760" (
        with_min_isr 2 (
          with_compression "lz4" (
            with_config "segment.bytes" "1073741824" (
              with_config "segment.ms" "86400000" (
                with_retention_bytes 536870912000 (
                  with_retention_ms 604800000 (
                    with_cleanup_policy "delete"
                      (new_topic "llm-events" 32 3 "Main event stream for all LLM events"))))))))
      ∷ with_min_isr 2 (
          with_compression "lz4" (
            with_config "segment.bytes" "1073741824" (
              with_config "segment.ms" "86400000" (
                with_retention_bytes 1073741824000 (
                  with_retention_ms 2592000000 (
                    with_cleanup_policy "delete"
                      (new_topic "llm-metrics" 32 3 "Performance metrics and telemetry data")))))))
      ∷ kept "delete" 604800000
          (new_topic "llm-analytics" 16 3 "Processed analytics and aggregated data")
      ∷ kept "delete" 604800000 (new_topic "llm-traces" 32 3 "Distributed tracing data")
      ∷ kept "delete" 2592000000 (new_topic "llm-errors" 16 3 "Error events and exceptions")
      ∷ with_config "min.compaction.lag.ms" "86400000" (
          kept "compact,delete" 7776000000
            (new_topic "llm-audit" 8 3 "Audit logs with compaction for compliance"))
      ∷ kept "delete" 2592000000
          (new_topic "llm-aggregated-metrics" 16 3 "Pre-aggregated metrics for faster queries")
      ∷ kept "delete" 604800000 (new_topic "llm-alerts" 8 3 "Alert notifications and triggers")
      ∷ kept "compact,delete" 2592000000
          (new_topic "llm-usage-stats" 16 3 "Usage statistics with compaction")
      ∷ kept "delete" 2592000000
          (new_topic "llm-model-performance" 16 3 "Model performance metrics and benchmarks")
      ∷ kept "delete" 7776000000
          (new_topic "llm-cost-tracking" 8 3 "Cost analysis and tracking data")
      ∷ kept "delete" 604800000
          (new_topic "llm-session-events" 16 3 "Session-level events and state changes")
      ∷ kept "delete" 7776000000 (new_topic "llm-user-feedback" 8 3 "User feedback and ratings")
      ∷ kept "delete" 2592000000
          (new_topic "llm-system-health" 8 3 "System health metrics and status")
      ∷ []

pub data AclResourceType : Type 0 where
  topic group cluster : AclResourceType

pub data AclOperation : Type 0 where
  read write describe create delete all_operations : AclOperation

pub data AclPermission : Type 0 where
  allow deny : AclPermission

pub record AclConfig : Type 0 where
  pub principal : String
  pub resource_type : AclResourceType
  pub resource_name : String
  pub operation : AclOperation
  pub permission : AclPermission

unfoldable pub new_acl : String → AclResourceType → String → AclOperation → AclConfig
new_acl principal resource_type resource_name operation = record {
  principal = principal;
  resource_type = resource_type;
  resource_name = resource_name;
  operation = operation;
  permission = allow;
}

-- The topics that both principals use.
abbrev pub shared_topics : List String
shared_topics =
    "llm-events" ∷ "llm-metrics" ∷ "llm-analytics" ∷ "llm-traces" ∷ "llm-errors" ∷ "llm-audit"
    ∷ "llm-alerts" ∷ "llm-session-events" ∷ "llm-user-feedback" ∷ "llm-cost-tracking" ∷ []

unfoldable pub group_acls : String → List String → List AclConfig
group_acls consumer [] = []
group_acls consumer (g ∷ groups) =
    new_acl consumer group g read ∷ new_acl consumer group g describe ∷ group_acls consumer groups

unfoldable pub get_standard_acls : List AclConfig
get_standard_acls =
    let producer : String = "llm-analytics-producer" in
    let consumer : String = "llm-analytics-consumer" in
    map (λ t. new_acl producer topic t write) shared_topics
    ++ (new_acl producer topic "llm-*" describe
        ∷ new_acl producer cluster "kafka-cluster" create
        ∷ (map (λ t. new_acl consumer topic t read)
              (shared_topics
                ++ ("llm-aggregated-metrics" ∷ "llm-model-performance" ∷ "llm-usage-stats" ∷ []))
            ++ (new_acl consumer topic "llm-*" describe
                ∷ group_acls consumer ("llm-analytics-group" ∷ "llm-stream-processor" ∷ []))))

pub record ClusterHealth : Type 0 where
  pub broker_count : ℕ
  pub topic_count : ℕ
  pub llm_topic_count : ℕ
  pub under_replicated_partitions : ℕ
  pub offline_partitions : ℕ
  pub healthy : Bool
  pub messages : List String

unfoldable pub new_cluster_health : ClusterHealth
new_cluster_health = record {
  broker_count = 0;
  topic_count = 0;
  llm_topic_count = 0;
  under_replicated_partitions = 0;
  offline_partitions = 0;
  healthy = true;
  messages = [];
}

unfoldable pub add_message : String → ClusterHealth → ClusterHealth
add_message message h = record h { messages = h.messages ++ message ∷ [] }

unfoldable pub mark_unhealthy : String → ClusterHealth → ClusterHealth
mark_unhealthy reason h = record h {
  healthy = false;
  messages = h.messages ++ (Text.◌++◌ "ERROR: " reason) ∷ [];
}
