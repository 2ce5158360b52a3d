-- ===== src/Cli/Validate/Exit.antt =====
-- With what src/cli/validate/all.rs ends.
use analytics_hub.Prelude.{
  ℕ, ◌≡◌, refl, ap, ◌∙◌, String, Bool, true, false, not, ◌&&◌, if◌then◌else◌, Outcome, ok, is_ok,
  arith, Bool-cases, inl, inr,
}
use analytics_hub.Prelude.Effects.{◌>>=◌}
use analytics_hub.Cli.Cleanup.{Context}
use analytics_hub.Validation.{ValidationReport, new_report}
use analytics_hub.Validation.Listing.{Listing}
use analytics_hub.Validation.Prerequisites.{Tools, validate_prerequisites}
use analytics_hub.Validation.Programs.{Programs}
use analytics_hub.Validation.Reach.{is_installed, is_reached, prerequisites_verdict}
use analytics_hub.Cli.Validate.{
  CommandOutput, Printed, as_json, as_report, ValidateError, success_with_data, failure_with_data,
  output_json, output_text, add_prerequisites, run_steps, output_all, validate_all,
}
use analytics_hub.Cli.Validate.Answers.{Answered}
use analytics_hub.Cli.Validate.Verdict.{
  is_sound, Reported, steps_fast, steps_full, then_ok, categorised,
}

stays_false : (b c d : Bool) → b ≡ c → b ≡ false → b ≡ (c && d)
stays_false b c d h e = ground arith

module _ {S : Type 0} where
  text_ok :
      (E : Type 0) (failed : String) (b : Bool) (x : Printed) (s : S)
      → is_ok (output_text {E = E} failed b x s).0 ≡ b
  unfolding output_text
  text_ok E failed true x s = refl
  text_ok E failed false x s = refl

success_iff :
    (passed failed : String) (b : Bool) (r : ValidationReport)
    → (if b then success_with_data passed r else failure_with_data failed r).success ≡ b
unfolding success_with_data failure_with_data
success_iff passed failed true r = refl
success_iff passed failed false r = refl

module _ (number : ℕ → String) (t : Tools) (l : Listing) (p : Programs l.Error)
    (client ensured : Outcome (Unit {0}) l.Error) (now : String) (a : Answered l)
    (connected : client ≡ ok tt) where
  -- kubectl is installed and reaches the cluster, and the steps find it sound.
  abbrev pub is_validated : Bool → p.State → Bool
  is_validated fast s =
      (is_installed t && is_reached t) && is_sound number t l p client ensured now a fast s

  abbrev first_report : ValidationReport
  first_report = add_prerequisites number t l p client ensured now (new_report now l.namespace)

  first_healthy : first_report.healthy ≡ (is_installed t && is_reached t)
  unfolding add_prerequisites new_report
  first_healthy =
      categorised (validate_prerequisites t) (new_report now l.namespace)
      ∙ rw (prerequisites_verdict t) (ground arith)

  steps :
      (fast : Bool) (report : ValidationReport) (s : p.State)
      → Reported number t l p client ensured now a fast report s
  steps true report s = steps_fast number t l p client ensured now a connected report s
  steps false report s = steps_full number t l p client ensured now a connected report s

  abbrev goes_on :
      Bool → Context → p.State → Bool → Outcome Printed (ValidateError l.Error) × p.State
  goes_on fast ctx s healthy =
      (if not healthy
          then output_all number t l p client ensured now ctx first_report
          else run_steps number t l p client ensured now fast first_report
            >>= output_all number t l p client ensured now ctx)
        s

  ended :
      (fast : Bool) (ctx : Context) (s : p.State)
      → (r : ValidationReport) × (s' : p.State) × (validate_all number t l p client ensured now fast
            ctx s
          ≡ output_all number t l p client ensured now ctx r s')
        × (r.healthy ≡ is_validated fast s)
  unfolding validate_all
  ended fast ctx s = elim (Bool-cases first_report.healthy) [
    | inl e ↦
        let (r, s', ran, said) = steps fast first_report s in
        (
          r,
          s',
          ap (goes_on fast ctx s) e
              ∙ then_ok (run_steps number t l p client ensured now fast first_report) _ s s' r ran,
          said ∙ ap (λ b. b && is_sound number t l p client ensured now a fast s) first_healthy,
        )
    | inr e ↦ (
      first_report,
      s,
      ap (goes_on fast ctx s) e,
      stays_false _ _ (is_sound number t l p client ensured now a fast s) first_healthy e,
    )
  ]

  -- Where the cluster answers and JSON is not asked for, the command succeeds if, and only if,
  -- kubectl is installed and reaches the cluster, a node is ready, the namespace exists or was
  -- created, a pod of TimescaleDB runs, a pod of the application runs if it has any, and, unless the
  -- command is to be fast, PostgreSQL accepts connections in the first pod of TimescaleDB that runs,
  -- if that pod has a name, and then a temporary pod resolves a host.
  pub validate_all_verdict :
      (fast : Bool) (ctx : Context) (s : p.State)
      → ctx.json_output ≡ false
      → is_ok (validate_all number t l p client ensured now fast ctx s).0 ≡ is_validated fast s
  unfolding output_all
  validate_all_verdict fast ctx s printed =
      let (r, s', ran, said) = ended fast ctx s in
      ap (λ x. is_ok x.0) ran
      ∙ ap
          (λ json.
            is_ok
              ((if json
                  then output_json {E = l.Error} "All validations passed" "Some validations failed"
                      r.healthy r
                  else output_text "Validation failed" r.healthy (as_report r))
                s').0)
          printed
      ∙ text_ok l.Error "Validation failed" r.healthy (as_report r) s'
      ∙ said

  -- Where the cluster answers and JSON is asked for, the command succeeds whatever it finds: that
  -- something failed is only a field of what it prints.
  pub json_always_succeeds :
      (fast : Bool) (ctx : Context) (s : p.State)
      → ctx.json_output ≡ true
      → (o : CommandOutput) × ((validate_all number t l p client ensured now fast ctx s).0
          ≡ ok (as_json o))
        × (o.success ≡ is_validated fast s)
  unfolding output_all output_json
  json_always_succeeds fast ctx s printed =
      let (r, s', ran, said) = ended fast ctx s in
      let o =
        if r.healthy
        then success_with_data "All validations passed" r
        else failure_with_data "Some validations failed" r in
      (
        o,
        ap (λ x. x.0) ran
            ∙ ap
                (λ json.
                  ((if json
                      then output_json {E = l.Error} "All validations passed"
                          "Some validations failed" r.healthy r
                      else output_text "Validation failed" r.healthy (as_report r))
                    s').0)
                printed,
        success_iff "All validations passed" "Some validations failed" r.healthy r ∙ said,
      )
