-- ===== src/Validation/Prerequisites.antt =====
-- src/infra/validation/prerequisites.rs: the programs that the other validators need. What a program
-- prints is read by functions that are arguments.
use analytics_hub.Prelude.{String, List, [], ◌∷◌, ℕ, if◌then◌else◌, Outcome, ok, err}
use analytics_hub.Prelude.Text.{◌++◌}
use analytics_hub.Command.{Output}
use analytics_hub.Validation.{
  ValidationCheck, ValidationResults, critical, important, new_check, pass, fail, warn, new_results,
  add_check,
}

-- `Command::output` on a program and its arguments, and the standard library's reading of text.
pub record Tools : Type 1 where
  pub Error : Type 0
  pub output : List String → Outcome Output Error
  pub from_utf8_lossy : List ℕ → String
  pub lines : String → List String
  pub trim : String → String

unfoldable pub first_or_unknown : List String → String
first_or_unknown [] = "unknown"
first_or_unknown (line ∷ lines) = line

module _ (t : Tools) where
  unfoldable pub kubectl_said : ValidationCheck → Outcome Output t.Error → ValidationCheck
  kubectl_said check (ok o) =
      let version = first_or_unknown (t.lines (t.from_utf8_lossy o.stdout)) in
      if o.success
      then pass ("kubectl installed (" ++ version ++ ")") check
      else fail "kubectl command failed" check
  kubectl_said check (err e) = fail "kubectl not found - install kubectl to continue" check

  unfoldable pub check_kubectl : ValidationCheck
  check_kubectl =
      kubectl_said (new_check "kubectl-installed" "Prerequisites" critical)
        (t.output ("kubectl" ∷ "version" ∷ "--client" ∷ "--short" ∷ []))

  unfoldable pub helm_said : ValidationCheck → Outcome Output t.Error → ValidationCheck
  helm_said check (ok o) =
      let version = t.trim (t.from_utf8_lossy o.stdout) in
      if o.success
      then pass ("helm installed (" ++ version ++ ")") check
      else warn "helm command failed" check
  helm_said check (err e) = warn "helm not found - some operations may not be available" check

  unfoldable pub check_helm : ValidationCheck
  check_helm =
      helm_said (new_check "helm-installed" "Prerequisites" important)
        (t.output ("helm" ∷ "version" ∷ "--short" ∷ []))

  unfoldable pub access_said : ValidationCheck → Outcome Output t.Error → ValidationCheck
  access_said check (ok o) =
      if o.success
      then pass "Kubernetes cluster is accessible" check
      else fail "Cannot connect to Kubernetes cluster - check kubeconfig" check
  access_said check (err e) = fail "Failed to check cluster access" check

  unfoldable pub check_cluster_access : ValidationCheck
  check_cluster_access =
      access_said (new_check "cluster-access" "Prerequisites" critical)
        (t.output ("kubectl" ∷ "cluster-info" ∷ []))

  -- `PrerequisiteValidator::validate`, which never returns an error.
  unfoldable pub validate_prerequisites : ValidationResults
  validate_prerequisites =
      add_check check_cluster_access
        (add_check check_helm (add_check check_kubectl (new_results "Prerequisites")))
