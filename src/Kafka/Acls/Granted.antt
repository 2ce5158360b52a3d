-- ===== src/Kafka/Acls/Granted.antt =====
-- What becomes of a denial in src/infra/kafka/acls.rs.
use analytics_hub.Prelude.{
  ◌≡◌, refl, String, true, false, List, [], ◌∷◌, map, some, if◌then◌else◌, Bool, Outcome, ok, err,
}
use analytics_hub.Prelude.Text.{contains}
use analytics_hub.Prelude.Effects.{raise}
use analytics_hub.Cluster.{Pod}
use analytics_hub.Cluster.Shell.{Shell, running_pod}
use analytics_hub.Kafka.{AclConfig, deny}
use analytics_hub.Kafka.Acls.{
  AclError, not_created, message, get_kafka_pod, pod_among, found_pod, executed, acl_command,
  created_acl, Run, execute_in, create_acl, created_or_there, create_acls,
}

-- The same, as a denial.
abbrev pub denied : AclConfig → AclConfig
denied acl = record acl { permission = deny }

module _ (sh : Shell) (namespace bootstrap_servers : String) where
  same_rest :
      (result : Outcome (Unit {0}) (AclError sh.Error)) (name : String) (created : List String)
      (rest rest' : List String → Run sh namespace bootstrap_servers (List String)) (s : sh.State)
      → ((made : List String) → rest made s ≡ rest' made s)
      → created_or_there sh namespace bootstrap_servers result name created rest s
        ≡ created_or_there sh namespace bootstrap_servers result name created rest' s
  unfolding created_or_there
  same_rest (ok u) name created rest rest' s h = h _
  same_rest (err e) name created rest rest' s h =
      chosen (contains "already exists" (message namespace e)) (h created)
    where
      chosen :
          (b : Bool)
          → rest created s ≡ rest' created s
          → (if b then rest created else raise e) s ≡ (if b then rest' created else raise e) s
      chosen true k = k
      chosen false k = refl

  -- Denials are granted: a list of permissions of which all are turned into denials is executed as
  -- the list itself, with the same result and the same effect.
  pub denials_granted :
      (acls : List AclConfig) (created : List String) (s : sh.State)
      → create_acls sh namespace bootstrap_servers (map denied acls) created s
        ≡ create_acls sh namespace bootstrap_servers acls created s
  unfolding create_acls create_acl execute_in acl_command created_acl
  denials_granted [] created s = refl
  denials_granted (acl ∷ acls) created s =
      let (result, s') = create_acl sh namespace bootstrap_servers acl s in
      same_rest result (created_acl acl) created _ _ s' (λ made. denials_granted acls made s')

  -- A permission that Kafka refuses to add, for whatever reason, one that exists included, ends
  -- the loop with an error, and the permissions after it are not created.
  pub duplicates_fail :
      (acl : AclConfig) (acls : List AclConfig) (created : List String) (s s' : sh.State)
      (pods : List Pod) (pod : String) (e : sh.Error)
      → sh.list_pods s ≡ ok pods
      → running_pod "kafka-" pods ≡ some pod
      → sh.exec_in_pod pod (acl_command bootstrap_servers acl) s ≡ (err e, s')
      → create_acls sh namespace bootstrap_servers (acl ∷ acls) created s
        ≡ (err (not_created e), s')
  unfolding create_acls create_acl get_kafka_pod pod_among found_pod execute_in executed
      created_or_there message
  duplicates_fail acl acls created s s' pods pod e listed found refused =
      rw listed (rw found (rw refused refl))
