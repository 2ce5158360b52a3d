-- ===== src/Cli/Cleanup/Silent.antt =====
-- What src/cli/utils/cleanup.rs requests without asking, and what it reports.
use analytics_hub.Prelude.{◌≡◌, refl, String, Bool, true, false, not, ◌&&◌, [], ok, arith}
use mathlib.Core.Path.{fun_ext}
use analytics_hub.Prelude.Effects.{pure}
use analytics_hub.Cli.Cleanup.{
  CleanupArgs, Context, cleaned, is_provider, or_fail, drain_accessible, drain_kubernetes_resources,
  delete_accessible, delete_kubernetes_resources, destroy_cloud_infrastructure, create_backup,
  cleanup_local_state, clean, execute_cleanup,
}
use analytics_hub.Cli.Cleanup.Cloud.{delete_namespace, Outside, Log}
use analytics_hub.Cli.Cleanup.Steps.{
  IsSilent, Did, Proceeds, Does, Returns, silently, does, act-Does, pure-Returns, >>-Returns,
  deletes-Proceeds, aws-Proceeds, gcp-Proceeds, azure-Proceeds,
}

quiet : (b c : Bool) → c ≡ true → (not b && not c) ≡ false
quiet b c h = ground arith

-- A client connects and the cluster is accessible, whatever was requested before.
pub record Answers (o : Outside) (namespace : String) : Type 0 where
  pub connects : (log : Log) → o.new_client namespace log ≡ ok tt
  pub accessible : (log : Log) → o.is_accessible log ≡ true

module _ (o : Outside) (args : CleanupArgs) where
  cloud-Proceeds : Proceeds (destroy_cloud_infrastructure o args)
  unfolding destroy_cloud_infrastructure
  cloud-Proceeds = search (silently, aws-Proceeds, gcp-Proceeds, azure-Proceeds)

  drain_accessible-Proceeds : Proceeds (drain_accessible o true)
  unfolding drain_accessible
  drain_accessible-Proceeds = search silently

  delete_accessible-Proceeds : Proceeds (delete_accessible o args true)
  unfolding delete_accessible
  delete_accessible-Proceeds = search (silently, deletes-Proceeds)

  delete_accessible-Does : Does (delete_namespace args.namespace) (delete_accessible o args true)
  unfolding delete_accessible
  delete_accessible-Does = search (silently, does, act-Does, deletes-Proceeds)

  module _ (there : Answers o args.namespace) where
    drain_reaches : drain_kubernetes_resources o args ≡ drain_accessible o true
    unfolding drain_kubernetes_resources or_fail
    drain_reaches = fun_ext (λ log. rw (there.connects log, there.accessible log) refl)

    delete_reaches : delete_kubernetes_resources o args ≡ delete_accessible o args true
    unfolding delete_kubernetes_resources or_fail
    delete_reaches = fun_ext (λ log. rw (there.connects log, there.accessible log) refl)

    drain-Proceeds : Proceeds (drain_kubernetes_resources o args)
    drain-Proceeds = rw drain_reaches drain_accessible-Proceeds

    delete-Proceeds : Proceeds (delete_kubernetes_resources o args)
    delete-Proceeds = rw delete_reaches delete_accessible-Proceeds

    delete-Does : Does (delete_namespace args.namespace) (delete_kubernetes_resources o args)
    delete-Does = rw delete_reaches delete_accessible-Does

    clean-Does :
        (ctx : Context)
        → ctx.json_output ≡ true
        → Does (delete_namespace args.namespace) (clean o args ctx)
    unfolding clean create_backup cleanup_local_state
    clean-Does ctx printed =
        rw
          (quiet args.force ctx.json_output printed, quiet args.skip_backup ctx.json_output printed)
          (search (silently, does, delete-Does, drain-Proceeds, cloud-Proceeds) depth 12)

    clean-Returns :
        (ctx : Context)
        → ctx.json_output ≡ true
        → Returns (cleaned true (not args.k8s_only)) (clean o args ctx)
    unfolding clean create_backup cleanup_local_state
    clean-Returns ctx printed =
        rw
          (quiet args.force ctx.json_output printed, quiet args.skip_backup ctx.json_output printed)
          (search
            (silently, >>-Returns, pure-Returns, delete-Proceeds, drain-Proceeds, cloud-Proceeds)
            depth 12)

    -- A command that is asked for JSON requests the deletion of the namespace without a question,
    -- whether it is forced or not and whatever the environment: where its provider is one of the
    -- four, it is no dry run and the cluster answers, it asks nothing and makes that request, and it
    -- reports that the resources were cleaned, whether the request is granted or refused.
    pub json_deletes_unasked :
        (ctx : Context)
        → is_provider args.provider ≡ true
        → ctx.json_output ≡ true
        → ctx.dry_run ≡ false
        → ((execute_cleanup o args ctx []).0 ≡ ok (cleaned true (not args.k8s_only)))
          × IsSilent (execute_cleanup o args ctx []).1
          × Did (delete_namespace args.namespace) (execute_cleanup o args ctx []).1
    unfolding execute_cleanup clean
    json_deletes_unasked ctx known printed real =
        let d = clean-Does ctx printed in
        let r = clean-Returns ctx printed in
        rw (known, real) (r.returns [], d.proceeds.silent [] tt, d.done [])

  module _ (connects : (log : Log) → o.new_client args.namespace log ≡ ok tt)
      (silent : (log : Log) → o.is_accessible log ≡ false) where
    drain_missed : drain_kubernetes_resources o args ≡ pure tt
    unfolding drain_kubernetes_resources or_fail drain_accessible
    drain_missed = fun_ext (λ log. rw (connects log, silent log) refl)

    delete_missed : delete_kubernetes_resources o args ≡ pure tt
    unfolding delete_kubernetes_resources or_fail delete_accessible
    delete_missed = fun_ext (λ log. rw (connects log, silent log) refl)

    -- A command for the cluster alone that is asked for JSON, and whose cluster does not answer, requests
    -- nothing, and reports that the cluster was cleaned.
    pub unreachable_reported_clean :
        (ctx : Context)
        → is_provider args.provider ≡ true
        → ctx.json_output ≡ true
        → ctx.dry_run ≡ false
        → args.k8s_only ≡ true
        → execute_cleanup o args ctx [] ≡ (ok (cleaned true false), [])
    unfolding execute_cleanup clean create_backup cleanup_local_state
    unreachable_reported_clean ctx known printed real only =
        rw
          (
            known,
            real,
            quiet args.force ctx.json_output printed,
            quiet args.skip_backup ctx.json_output printed,
            drain_missed,
            delete_missed,
            only,
          )
          refl
