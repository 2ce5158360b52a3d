-- ===== src/Validation/Programs.antt =====
-- Checks of src/infra/validation that run a program in the cluster.
use analytics_hub.Prelude.{
  String, Option, none, some, List, [], ◌∷◌, if◌then◌else◌, Outcome, ok, err,
}
use analytics_hub.Prelude.Text.{contains}
use analytics_hub.Prelude.Effects.{Effect, continue}
use analytics_hub.Cluster.{Pod, phase_of}
use analytics_hub.Cluster.Shell.{is_running}
use analytics_hub.Validation.{ValidationCheck, ValidationResults, add_check, skip}
use analytics_hub.Validation.Listing.{Listing}

-- The programs, which may change the state of the cluster.
pub record Programs (E : Type 0) : Type 1 where
  pub State : Type 0
  pub exec_in_pod : String → String → State → Outcome String E × State
  pub run_pod_command : String → String → List String → State → Outcome String E × State

-- The name of the first pod that runs.
unfoldable pub first_running : List Pod → Option String
first_running [] = none
first_running (pod ∷ pods) =
    let later = first_running pods in if is_running (phase_of pod.status) then pod.name else later

-- What a check says of the output: whether it holds a text, or that there is none.
unfoldable pub holds :
    {E : Type 0}
    → String
    → ValidationCheck
    → ValidationCheck
    → ValidationCheck
    → Outcome String E
    → ValidationCheck
holds text present absent broken (ok output) = if contains text output then present else absent
holds text present absent broken (err e) = broken

-- `results.add_check(check.await?)`, for one check after the other.
unfoldable pub run_all :
    {S E : Type 0}
    → List (Effect S E ValidationCheck)
    → ValidationResults
    → Effect S E ValidationResults
run_all [] r s = (ok r, s)
run_all (m ∷ ms) r s = continue (m s).0 (λ c. run_all ms (add_check c r)) (m s).1

module _ (l : Listing) (p : Programs l.Error) where
  abbrev pub Check : Type 0
  Check = Effect p.State l.Error ValidationCheck

  unfoldable pub in_pod :
      String
      → String
      → ValidationCheck
      → (Outcome String l.Error → ValidationCheck)
      → Option String
      → Check
  in_pod command absent check judge none s = (ok (skip absent check), s)
  in_pod command absent check judge (some pod) s =
      let (answer, s') = p.exec_in_pod pod command s in (ok (judge answer), s')

  unfoldable pub among :
      String
      → String
      → ValidationCheck
      → (Outcome String l.Error → ValidationCheck)
      → Outcome (List Pod) l.Error
      → Check
  among command absent check judge (ok pods) s =
      in_pod command absent check judge (first_running pods) s
  among command absent check judge (err e) s = (err e, s)

  -- The pod is looked for by its label, and the program is run in it.
  unfoldable pub in_labelled :
      String
      → String
      → String
      → ValidationCheck
      → (Outcome String l.Error → ValidationCheck)
      → Check
  in_labelled label command absent check judge =
      among command absent check judge (l.pods l.namespace (some label))
