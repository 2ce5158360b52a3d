-- ===== src/Validation/Security.antt =====
-- src/infra/validation/security.rs
use analytics_hub.Prelude.{
  ℕ, suc, String, Option, some, none, Bool, true, false, not, ◌&&◌, ◌||◌, List, [], ◌∷◌, count,
  ◌==◌, ltb, if◌then◌else◌, Outcome,
}
use analytics_hub.Prelude.Dict.{Dict, str_eq}
use analytics_hub.Prelude.Int.{ℤ, pos}
use analytics_hub.Prelude.Text.{◌++◌}
use analytics_hub.Cluster.{Pod, PodSpec, Container}
use analytics_hub.Validation.{
  ValidationCheck, ValidationResults, critical, important, advisory, new_check, new_results, pass,
  warn,
}
use analytics_hub.Validation.Listing.{Listing, of_answer, add_all}

unfoldable pub is_zero : ℤ → Bool
is_zero (pos n) = n == 0
is_zero z = false

unfoldable pub root_user : Option ℤ → Bool
root_user none = true
root_user (some uid) = is_zero uid

unfoldable pub user_of : Option PodSpec → Option ℤ
user_of none = none
user_of (some spec) = spec.run_as_user

unfoldable pub may_run_as_root : Pod → Bool
may_run_as_root p = root_user (user_of p.spec)

unfoldable pub or_false : Option Bool → Bool
or_false none = false
or_false (some b) = b

unfoldable pub any_container : (Container → Bool) → List Container → Bool
any_container p [] = false
any_container p (c ∷ cs) = p c || any_container p cs

-- A test of a pod's containers, with what stands for a pod without a specification.
unfoldable pub containers_pass : Bool → (Container → Bool) → Option PodSpec → Bool
containers_pass missing p none = missing
containers_pass missing p (some spec) = any_container p spec.containers

unfoldable pub is_privileged : Pod → Bool
is_privileged pod = containers_pass false (λ c. or_false c.privileged) pod.spec

unfoldable pub is_unset : Option (Dict String) → Bool
is_unset none = true
is_unset (some d) = false

unfoldable pub lacks_limits : Pod → Bool
lacks_limits pod = containers_pass true (λ c. is_unset c.limits) pod.spec

unfoldable pub has_name : Option String → Bool
has_name none = false
has_name (some n) = true

-- How many pods that pass the test have a name: `filter`, `filter_map` and `len`.
unfoldable pub named : (Pod → Bool) → List Pod → ℕ
named p [] = 0
named p (pod ∷ pods) =
    let rest = named p pods in if p pod && has_name pod.name then suc rest else rest

unfoldable pub is_user_secret : Option String → Bool
is_user_secret none = true
is_user_secret (some kind) = not (str_eq kind "kubernetes.io/service-account-token")

module _ (number : ℕ → String) where
  -- The end of the checks that count pods.
  unfoldable pub none_or_warn : ValidationCheck → String → String → ℕ → ValidationCheck
  none_or_warn check fine found n =
      if n == 0 then pass fine check else warn (number n ++ found) check

  -- The end of the checks that count resources.
  unfoldable pub some_or_warn : ValidationCheck → String → String → String → ℕ → ValidationCheck
  some_or_warn check before after missing n =
      if ltb 0 n then pass (before ++ number n ++ after) check else warn missing check

  unfoldable pub root_pods : List Pod → ValidationCheck
  root_pods pods =
      none_or_warn (new_check "no-root-pods" "Security Compliance" important)
        "No pods running as root" " pod(s) may be running as root" (named may_run_as_root pods)

  unfoldable pub privileged_containers : List Pod → ValidationCheck
  privileged_containers pods =
      none_or_warn (new_check "no-privileged-containers" "Security Compliance" critical)
        "No privileged containers" " pod(s) with privileged containers" (named is_privileged pods)

  unfoldable pub network_policies_check : ℕ → ValidationCheck
  network_policies_check n =
      some_or_warn (new_check "network-policies" "Security Compliance" important)
        "Network policies configured (" " policies)"
        "No network policies configured - network traffic is not restricted" n

  unfoldable pub disruption_budgets_check : ℕ → ValidationCheck
  disruption_budgets_check n =
      some_or_warn (new_check "pod-disruption-budgets" "Security Compliance" advisory)
        "Pod disruption budgets configured (" " PDBs)"
        "No pod disruption budgets configured - availability during updates may be affected" n

  unfoldable pub secrets_check : List (Option String) → ValidationCheck
  secrets_check kinds =
      some_or_warn (new_check "secrets-configured" "Security Compliance" important)
        "Secrets configured (" " secrets)"
        "No secrets configured - applications may not have credentials" (count is_user_secret kinds)

  unfoldable pub resource_limits : List Pod → ValidationCheck
  resource_limits pods =
      none_or_warn (new_check "resource-limits" "Security Compliance" important)
        "All pods have resource limits defined" " pod(s) without resource limits"
        (named lacks_limits pods)

  unfoldable pub validate_security : (l : Listing) → Outcome ValidationResults l.Error
  validate_security l =
      let pods = l.pods l.namespace none in
      add_all
        (of_answer root_pods pods
          ∷ of_answer privileged_containers pods
          ∷ of_answer network_policies_check l.network_policies
          ∷ of_answer disruption_budgets_check l.disruption_budgets
          ∷ of_answer secrets_check l.secret_types
          ∷ of_answer resource_limits pods
          ∷ [])
        (new_results "Security Compliance")
