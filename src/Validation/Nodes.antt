-- ===== src/Validation/Nodes.antt =====
-- src/infra/validation/cluster.rs
use analytics_hub.Prelude.{
  ℕ, ◌*◌, ◌/◌, String, Option, some, none, Bool, false, ◌&&◌, ◌||◌, List, [], ◌∷◌, length, count,
  ◌==◌, ltb, if◌then◌else◌, Outcome, ok, err,
}
use analytics_hub.Prelude.Dict.{str_eq}
use analytics_hub.Prelude.Text.{◌++◌}
use analytics_hub.Cluster.{Pod, PodCondition, conditions_ready}
use analytics_hub.Validation.{
  ValidationCheck, ValidationResults, critical, important, new_check, new_results, pass, fail, warn,
}
use analytics_hub.Validation.Listing.{Listing, Node, running, ratio, of_answer, add_all}

unfoldable pub is_node_ready : Node → Bool
is_node_ready n = conditions_ready n.conditions

unfoldable pub is_pressure : PodCondition → Bool
is_pressure c =
    (str_eq c.kind "MemoryPressure" || str_eq c.kind "DiskPressure" || str_eq c.kind "PIDPressure")
    && str_eq c.status "True"

unfoldable pub any_pressure : List PodCondition → Bool
any_pressure [] = false
any_pressure (c ∷ cs) = is_pressure c || any_pressure cs

unfoldable pub under_pressure : Option (List PodCondition) → Bool
under_pressure none = false
under_pressure (some cs) = any_pressure cs

module _ (number : ℕ → String) where
  unfoldable pub nodes_ready : List Node → ValidationCheck
  nodes_ready nodes =
      let check = new_check "nodes-ready" "Cluster Health" critical in
      let total = length nodes in
      let ready = count is_node_ready nodes in
      if total == 0
      then fail "No nodes found in cluster" check
      else if ready == total
      then pass ("All nodes ready" ++ ratio number ready total) check
      else if ltb 0 ready
      then warn ("Some nodes not ready" ++ ratio number ready total) check
      else fail "No nodes ready" check

  unfoldable pub node_pressure : List Node → ValidationCheck
  node_pressure nodes =
      let check = new_check "node-pressure" "Cluster Health" important in
      let pressed = count (λ n. under_pressure n.conditions) nodes in
      if pressed == 0
      then pass "No nodes under resource pressure" check
      else warn (number pressed ++ " node(s) under resource pressure") check

  unfoldable pub system_pods : List Pod → ValidationCheck
  system_pods pods =
      let check = new_check "system-pods" "Cluster Health" important in
      let total = length pods in
      if total == 0
      then warn "No system pods found" check
      else if running pods == total
      then pass ("All system pods running" ++ ratio number (running pods) total) check
      else if ltb (total * 8 / 10) (running pods)
      then warn ("Some system pods not running" ++ ratio number (running pods) total) check
      else fail ("Many system pods not running" ++ ratio number (running pods) total) check

-- `ensured` is what `ensure_namespace` returned.
unfoldable pub namespace_exists : {E : Type 0} → String → Outcome (Unit {0}) E → ValidationCheck
namespace_exists namespace (ok u) =
    pass ("Namespace '" ++ namespace ++ "' exists")
      (new_check "namespace-exists" "Cluster Health" critical)
namespace_exists namespace (err e) =
    fail ("Namespace '" ++ namespace ++ "' does not exist")
      (new_check "namespace-exists" "Cluster Health" critical)

module _ (number : ℕ → String) where
  unfoldable pub validate_cluster :
      (l : Listing) → Outcome (Unit {0}) l.Error → Outcome ValidationResults l.Error
  validate_cluster l ensured =
      add_all
        (of_answer (nodes_ready number) l.nodes
          ∷ of_answer (node_pressure number) l.nodes
          ∷ of_answer (system_pods number) (l.pods "kube-system" none)
          ∷ ok (namespace_exists l.namespace ensured)
          ∷ [])
        (new_results "Cluster Health")
