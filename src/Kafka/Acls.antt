-- ===== src/Kafka/Acls.antt =====
-- src/infra/kafka/acls.rs: permissions, granted by a program that runs in a pod of Kafka.
pub mod Granted
use analytics_hub.Prelude.{
  String, Option, none, some, Bool, true, false, [], ◌∷◌, if◌then◌else◌, Outcome, ok, err,
}
use analytics_hub.Prelude.Text.{◌++◌, contains}
use analytics_hub.Prelude.Effects.{Effect, pure, raise, continue, ◌>>=◌}
use mathlib.Core.List
use analytics_hub.Cluster.{Pod}
use analytics_hub.Cluster.Shell.{Shell, running_pod}
use analytics_hub.Kafka.{
  AclConfig, AclResourceType, topic, group, cluster, AclOperation, read, write, describe, create,
  delete, all_operations,
}

unfoldable pub operation_str : AclOperation → String
operation_str read = "READ"
operation_str write = "WRITE"
operation_str describe = "DESCRIBE"
operation_str create = "CREATE"
operation_str delete = "DELETE"
operation_str all_operations = "ALL"

unfoldable pub resource_flag : AclResourceType → String → String
resource_flag topic name = "--topic " ++ name
resource_flag group name = "--group " ++ name
resource_flag cluster name = "--cluster"

unfoldable pub acl_command : String → AclConfig → String
acl_command bootstrap_servers acl =
    "kafka-acls.sh --bootstrap-server "
    ++ bootstrap_servers
    ++ " --add --allow-principal User:"
    ++ acl.principal
    ++ " --operation "
    ++ operation_str acl.operation
    ++ " "
    ++ resource_flag acl.resource_type acl.resource_name
    ++ " --force"

-- What `create_acls` lists of a permission that it has created.
unfoldable pub created_acl : AclConfig → String
created_acl acl = acl.principal ++ ":" ++ acl.resource_name ++ ":" ++ operation_str acl.operation

pub data AclError (E : Type 0) : Type 0 where
  no_running_pod : AclError E
  failed : E → AclError E
  not_created : E → AclError E

-- `to_string` on the errors, which writes the context that was added last.
unfoldable pub message : {E : Type 0} → String → AclError E → String
message namespace no_running_pod = "No running Kafka pod found in namespace " ++ namespace
message namespace (failed e) = "Failed to list pods in namespace " ++ namespace
message namespace (not_created e) = "Failed to create ACL"

module _ (sh : Shell) (namespace bootstrap_servers : String) where
  abbrev pub Run : Type 0 → Type 0
  Run A = Effect sh.State (AclError sh.Error) A

  unfoldable pub found_pod : Option String → Run String
  found_pod none = raise no_running_pod
  found_pod (some name) = pure name

  unfoldable pub pod_among : Outcome (List.List Pod) sh.Error → Run String
  pod_among (ok pods) = found_pod (running_pod "kafka-" pods)
  pod_among (err e) = raise (failed e)

  unfoldable pub get_kafka_pod : Run String
  get_kafka_pod s = pod_among (sh.list_pods s) s

  unfoldable pub executed : Outcome String sh.Error → Outcome (Unit {0}) (AclError sh.Error)
  executed (ok output) = ok tt
  executed (err e) = err (not_created e)

  unfoldable pub execute_in : AclConfig → String → Run (Unit {0})
  execute_in acl pod s =
      let (answer, s') = sh.exec_in_pod pod (acl_command bootstrap_servers acl) s in
      (executed answer, s')

  unfoldable pub create_acl : AclConfig → Run (Unit {0})
  create_acl acl = get_kafka_pod >>= execute_in acl

  -- The `match` on the result for one permission; `rest` is the loop after it.
  unfoldable pub created_or_there :
      Outcome (Unit {0}) (AclError sh.Error)
      → String
      → List.List String
      → (List.List String → Run (List.List String))
      → Run (List.List String)
  created_or_there (ok u) name created rest = rest (List.◌++◌ created (name ∷ []))
  created_or_there (err e) name created rest =
      if contains "already exists" (message namespace e) then rest created else raise e

  unfoldable pub create_acls : List.List AclConfig → List.List String → Run (List.List String)
  create_acls [] created s = pure created s
  create_acls (acl ∷ acls) created s =
      let (result, s') = create_acl acl s in
      created_or_there result (created_acl acl) created (create_acls acls) s'
