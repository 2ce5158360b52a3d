-- ===== src/Cli/Cleanup.antt =====
-- src/cli/utils/cleanup.rs: what the command asks and requests, as the list of its actions, the
-- latest first. What the user types, and whether the cluster answers, are functions of the actions
-- before. Whether a request is granted is not recorded, as the source drops it. Progress output is
-- left out.
pub mod Cloud
pub mod Consent
pub mod Steps
pub mod Silent
use analytics_hub.Prelude.{
  ℕ, String, Option, none, some, Bool, true, false, not, ◌&&◌, ◌||◌, List, [], ◌∷◌, if◌then◌else◌,
  Outcome, ok, err,
}
use analytics_hub.Prelude.Dict.{str_eq}
use analytics_hub.Prelude.Effects.{Effect, pure, raise, continue, ◌>>=◌, ◌>>◌, for_each}
use analytics_hub.Cli.Cleanup.Cloud.{
  Action, asked, scale_all_deployments, delete_all_jobs, delete_all_cronjobs, delete_namespace,
  sleep_seconds, Question, delete_production, destroy_environment, Outside, Log, act, destroy_aws,
  destroy_gcp, destroy_azure,
}

pub record CleanupArgs : Type 0 where
  pub environment : String
  pub provider : String
  pub force : Bool
  pub skip_backup : Bool
  pub k8s_only : Bool
  pub namespace : String
  pub additional_namespaces : List String

-- What the command reads of `ExecutionContext`.
pub record Context : Type 0 where
  pub dry_run : Bool
  pub json_output : Bool

pub data CleanupError (E : Type 0) : Type 0 where
  invalid_provider : String → CleanupError E
  confirmation_failed cancelled : CleanupError E
  failed : E → CleanupError E

-- The report that the command ends with.
pub data Report : Type 0 where
  would_clean : Report
  cleaned : Bool → Bool → Report

unfoldable pub is_provider : String → Bool
is_provider p = str_eq p "aws" || str_eq p "gcp" || str_eq p "azure" || str_eq p "k8s"

module _ (o : Outside) where
  abbrev pub Step : Type 0 → Type 0
  Step A = Effect Log (CleanupError o.Error) A

  unfoldable pub or_fail : {A : Type 0} → Outcome A o.Error → Step A
  or_fail (ok a) = pure a
  or_fail (err e) = raise (failed e)

  -- `print!`, `flush` and `read_line`
  unfoldable pub ask : Question → Step String
  ask q log = or_fail (o.read_line q log) (asked q ∷ log)

  unfoldable pub require : Question → String → CleanupError o.Error → Step (Unit {0})
  require q expected e = do
    answer ← ask q
    if str_eq (o.trim answer) expected then pure tt else raise e

  unfoldable pub confirm_cleanup : CleanupArgs → Step (Unit {0})
  confirm_cleanup args = do
    if str_eq args.environment "production"
        then require delete_production "DELETE PRODUCTION" confirmation_failed
        else pure tt
    require destroy_environment "yes" cancelled

  -- `create_backup`
  unfoldable pub create_backup : Step (Unit {0})
  create_backup = pure tt

  unfoldable pub drain_accessible : Bool → Step (Unit {0})
  drain_accessible false = pure tt
  drain_accessible true = do
    act (scale_all_deployments 0)
    act delete_all_jobs
    act delete_all_cronjobs
    act (sleep_seconds 30)

  unfoldable pub drain_kubernetes_resources : CleanupArgs → Step (Unit {0})
  drain_kubernetes_resources args log =
      (do or_fail (o.new_client args.namespace log); drain_accessible (o.is_accessible log)) log

  unfoldable pub delete_accessible : CleanupArgs → Bool → Step (Unit {0})
  delete_accessible args false = pure tt
  delete_accessible args true = do
    act (delete_namespace args.namespace)
    for_each (λ ns. act (delete_namespace ns)) args.additional_namespaces
    for_each (λ ns. act (delete_namespace ns))
        ("monitoring" ∷ "cert-manager" ∷ "ingress-nginx" ∷ [])

  unfoldable pub delete_kubernetes_resources : CleanupArgs → Step (Unit {0})
  delete_kubernetes_resources args log =
      (do or_fail (o.new_client args.namespace log); delete_accessible args (o.is_accessible log))
        log

  -- The provider was checked before: any other is the one without a cloud.
  unfoldable pub destroy_cloud_infrastructure : CleanupArgs → Step (Unit {0})
  destroy_cloud_infrastructure args =
      if str_eq args.provider "aws"
      then destroy_aws o args.environment
      else if str_eq args.provider "gcp"
      then destroy_gcp args.environment
      else if str_eq args.provider "azure"
      then destroy_azure args.environment
      else pure tt

  unfoldable pub cleanup_local_state : Step (Unit {0})
  cleanup_local_state = pure tt

  -- The part of `execute` after the dry run.
  unfoldable pub clean : CleanupArgs → Context → Step Report
  clean args ctx = do
    if not args.force && not ctx.json_output then confirm_cleanup args else pure tt
    if not args.skip_backup && not ctx.json_output then create_backup else pure tt
    drain_kubernetes_resources args
    delete_kubernetes_resources args
    if args.k8s_only then pure tt else destroy_cloud_infrastructure args
    cleanup_local_state
    pure (cleaned true (not args.k8s_only))

  -- `CleanupArgs::execute`
  unfoldable pub execute_cleanup : CleanupArgs → Context → Step Report
  execute_cleanup args ctx =
      if is_provider args.provider
      then if ctx.dry_run then pure would_clean else clean args ctx
      else raise (invalid_provider args.provider)
