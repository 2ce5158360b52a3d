-- ===== src/Cluster/Shell.antt =====
-- Programs that run in a pod of the cluster, and the search for a pod to run them in: `get_kafka_pod`
-- of src/infra/kafka/acls.rs, and `get_redis_pod` of src/infra/redis/cluster.rs, which is the same
-- for another prefix.
use analytics_hub.Prelude.{
  String, Option, none, some, Bool, false, ◌&&◌, List, [], ◌∷◌, if◌then◌else◌, Outcome,
}
use analytics_hub.Prelude.Dict.{str_eq}
use analytics_hub.Prelude.Text.{starts_with}
use analytics_hub.Cluster.{Pod, phase_of}

-- The pods as a client of one namespace sees them.
pub record Shell : Type 1 where
  pub State : Type 0
  pub Error : Type 0
  pub list_pods : State → Outcome (List Pod) Error
  pub exec_in_pod : String → String → State → Outcome String Error × State

unfoldable pub is_running : Option String → Bool
is_running none = false
is_running (some phase) = str_eq phase "Running"

unfoldable pub has_prefix : String → Option String → Bool
has_prefix prefix none = false
has_prefix prefix (some name) = starts_with prefix name

-- The name of the first pod that runs and whose name begins so.
unfoldable pub running_pod : String → List Pod → Option String
running_pod prefix [] = none
running_pod prefix (pod ∷ pods) =
    let later = running_pod prefix pods in
    if has_prefix prefix pod.name && is_running (phase_of pod.status) then pod.name else later
