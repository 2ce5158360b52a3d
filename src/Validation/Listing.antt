-- ===== src/Validation/Listing.antt =====
-- What the validators of src/infra/validation read of the cluster, and how they add their checks.
use analytics_hub.Prelude.{ℕ, String, Option, List, [], ◌∷◌, count, Outcome, ok, err}
use analytics_hub.Prelude.Text.{◌++◌}
use analytics_hub.Cluster.{Pod, PodCondition, phase_of}
use analytics_hub.Cluster.Shell.{is_running}
use analytics_hub.Validation.{ValidationCheck, ValidationResults, add_check}

pub record Node : Type 0 where
  pub name : Option String
  pub conditions : Option (List PodCondition)

-- The API server's answers to `list`: pods by namespace and label, and of what is only counted, how
-- much there is. A request that is repeated in a run is answered the same, so that the run sees the
-- cluster at one moment.
pub record Listing : Type 1 where
  pub Error : Type 0
  pub namespace : String
  pub pods : String → Option String → Outcome (List Pod) Error
  pub nodes : Outcome (List Node) Error
  pub services : Outcome ℕ Error
  pub network_policies : Outcome ℕ Error
  pub disruption_budgets : Outcome ℕ Error
  pub autoscalers : Outcome ℕ Error
  pub ingresses : Outcome ℕ Error
  pub secret_types : Outcome (List (Option String)) Error

unfoldable pub running : List Pod → ℕ
running pods = count (λ p. is_running (phase_of p.status)) pods

-- " (a/b)"
unfoldable pub ratio : (ℕ → String) → ℕ → ℕ → String
ratio number a b = " (" ++ number a ++ "/" ++ number b ++ ")"

module _ {E : Type 0} where
  -- What a check says of an answer; `?` passes its error on.
  unfoldable pub of_answer :
      {A : Type 0} → (A → ValidationCheck) → Outcome A E → Outcome ValidationCheck E
  of_answer check (ok a) = ok (check a)
  of_answer check (err e) = err e

  -- `results.add_check(check?)`, for one check after the other.
  unfoldable pub add_all :
      List (Outcome ValidationCheck E) → ValidationResults → Outcome ValidationResults E
  add_all [] r = ok r
  add_all (ok c ∷ checks) r = add_all checks (add_check c r)
  add_all (err e ∷ checks) r = err e
