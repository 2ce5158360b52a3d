-- ===== src/Cli/Cleanup/Cloud.antt =====
-- What src/cli/utils/cleanup.rs asks of the user, of the cluster and of the programs that destroy a
-- cloud. An action is a request: whether it is granted is dropped by the source (`.await.ok()`,
-- `.output().ok()`), but for the answer of `list-clusters`, and so is no part of the model.
use analytics_hub.Prelude.{ℕ, String, Bool, List, [], ◌∷◌, if◌then◌else◌, ◌||◌, Outcome, ok, err}
use analytics_hub.Prelude.Dict.{str_eq}
use analytics_hub.Prelude.Text.{◌++◌}
use analytics_hub.Prelude.Effects.{Effect, pure, ◌>>=◌, ◌>>◌}

pub data Question : Type 0 where
  delete_production destroy_environment : Question

pub data Action : Type 0 where
  asked : Question → Action
  scale_all_deployments : ℕ → Action
  delete_all_jobs delete_all_cronjobs : Action
  delete_namespace : String → Action
  sleep_seconds : ℕ → Action
  run_program : String → List String → Action

abbrev pub Log : Type 0
Log = List Action

-- The terminal, the cluster and the programs; the log says what was requested before.
pub record Outside : Type 1 where
  pub Error : Type 0
  pub read_line : Question → Log → Outcome String Error
  pub trim : String → String
  pub new_client : String → Log → Outcome (Unit {0}) Error
  pub is_accessible : Log → Bool
  pub output : Log → Outcome String Error

module _ {E : Type 0} where
  -- A request whose result is dropped: the command goes on whether it is granted or refused.
  unfoldable pub act : Action → Effect Log E (Unit {0})
  act a log = (ok tt, a ∷ log)

  unfoldable pub destroy_gcp : String → Effect Log E (Unit {0})
  destroy_gcp environment =
      let cluster_name = "llm-analytics-hub-" ++ environment in
      let region : String = "us-central1" in
      do
        act (
            run_program "gcloud" (
              "container"
              ∷ "clusters"
              ∷ "delete"
              ∷ cluster_name
              ∷ ("--region=" ++ region)
              ∷ "--quiet"
              ∷ []))
        act (
            run_program "gcloud"
              ("sql" ∷ "instances" ∷ "delete" ∷ (cluster_name ++ "-postgres") ∷ "--quiet" ∷ []))
        act (
            run_program "gcloud" (
              "redis"
              ∷ "instances"
              ∷ "delete"
              ∷ (cluster_name ++ "-redis")
              ∷ ("--region=" ++ region)
              ∷ "--quiet"
              ∷ []))
        act (
            run_program "gcloud"
              ("compute" ∷ "networks" ∷ "delete" ∷ (cluster_name ++ "-vpc") ∷ "--quiet" ∷ []))

  unfoldable pub destroy_azure : String → Effect Log E (Unit {0})
  destroy_azure environment = act (
      run_program "az" (
        "group"
        ∷ "delete"
        ∷ "--name"
        ∷ ("llm-analytics-hub-" ++ (environment ++ "-rg"))
        ∷ "--yes"
        ∷ "--no-wait"
        ∷ []))

module _ {E : Type 0} (o : Outside) where
  -- The cluster's ARN, where the program answered one.
  unfoldable pub delete_msk : Outcome String o.Error → Effect Log E (Unit {0})
  delete_msk (err e) = pure tt
  delete_msk (ok stdout) =
      let cluster_arn = o.trim stdout in
      if str_eq cluster_arn "" || str_eq cluster_arn "None"
      then pure tt
      else act (run_program "aws" ("kafka" ∷ "delete-cluster" ∷ "--cluster-arn" ∷ cluster_arn ∷ []))

  unfoldable pub run_output : String → List String → Effect Log E (Outcome String o.Error)
  run_output program args log =
      (ok (o.output (run_program program args ∷ log)), run_program program args ∷ log)

  unfoldable pub destroy_aws : String → Effect Log E (Unit {0})
  destroy_aws environment =
      let cluster_name = "llm-analytics-hub-" ++ environment in
      do
        act (run_program "eksctl" ("delete" ∷ "cluster" ∷ "--name" ∷ cluster_name ∷ "--wait" ∷ []))
        act (
            run_program "aws" (
              "rds"
              ∷ "delete-db-instance"
              ∷ "--db-instance-identifier"
              ∷ (cluster_name ++ "-postgres")
              ∷ "--skip-final-snapshot"
              ∷ "--delete-automated-backups"
              ∷ []))
        act (
            run_program "aws" (
              "elasticache"
              ∷ "delete-replication-group"
              ∷ "--replication-group-id"
              ∷ (cluster_name ++ "-redis")
              ∷ "--region"
              ∷ "us-east-1"
              ∷ []))
        output ← run_output "aws" (
            "kafka"
            ∷ "list-clusters"
            ∷ "--cluster-name-filter"
            ∷ (cluster_name ++ "-kafka")
            ∷ "--query"
            ∷ "ClusterInfoList[0].ClusterArn"
            ∷ "--output"
            ∷ "text"
            ∷ [])
        delete_msk output
