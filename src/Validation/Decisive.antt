-- ===== src/Validation/Decisive.antt =====
-- Checks of src/infra/validation that cannot make their category unhealthy, and categories whose first
-- check decides.
use analytics_hub.Prelude.{
  ◌≡◌, refl, ◌∙◌, String, Option, some, none, false, not, List, [], ◌∷◌, Outcome, ok, err, arith,
  All,
}
use analytics_hub.Prelude.Effects.{Effect}
use analytics_hub.Cluster.{Pod}
use analytics_hub.Validation.{ValidationCheck, ValidationResults, new_results, skip, add_check}
use analytics_hub.Validation.Blame.{blames, added}
use analytics_hub.Validation.Listing.{Listing}
use analytics_hub.Validation.Programs.{
  Programs, first_running, holds, run_all, in_pod, among, in_labelled,
}

module _ {S E : Type 0} where
  -- A check that answers, and does not blame the category.
  abbrev pub Harmless : Effect S E ValidationCheck → Type 0
  Harmless m = (s : S) → (c : ValidationCheck) × ((m s).0 ≡ ok c) × (blames c ≡ false)

  remains_healthy :
      (ms : List (Effect S E ValidationCheck)) (r : ValidationResults) (s : S)
      → All Harmless ms
      → (r' : ValidationResults) × ((run_all ms r s).0 ≡ ok r') × (r'.healthy ≡ r.healthy)
  unfolding run_all
  remains_healthy [] r s hs = (r, refl, refl)
  remains_healthy (m ∷ ms) r s hs =
      let (c, p, b) = hs.0 s in
      let (r', total, e) = remains_healthy ms (add_check c r) (m s).1 hs.1 in
      (r', rw p total, e ∙ added c r ∙ rw b refl)

  -- Only the first check can make the category unhealthy.
  pub first_decides :
      (m : Effect S E ValidationCheck) (ms : List (Effect S E ValidationCheck)) (category : String)
      (s : S) (c : ValidationCheck)
      → (m s).0 ≡ ok c
      → All Harmless ms
      → (r : ValidationResults) × ((run_all (m ∷ ms) (new_results category) s).0 ≡ ok r)
        × (r.healthy ≡ not (blames c))
  unfolding run_all new_results
  first_decides m ms category s c p hs =
      let (r, total, e) = remains_healthy ms (add_check c (new_results category)) (m s).1 hs in
      (r, rw p total, e ∙ added c (new_results category) ∙ ground arith)

pub holds_blame :
    {E : Type 0}
    → (text : String) (present absent broken : ValidationCheck) (o : Outcome String E)
    → blames present ≡ false
    → blames absent ≡ false
    → blames broken ≡ false
    → blames (holds text present absent broken o) ≡ false
unfolding holds
holds_blame text present absent broken (ok output) p q r = ground arith
holds_blame text present absent broken (err e) p q r = r

module _ (l : Listing) (p : Programs l.Error) where
  pub in_pod-Harmless :
      (command absent : String) (check : ValidationCheck)
      (judge : Outcome String l.Error → ValidationCheck) (pod : Option String)
      → ((a : Outcome String l.Error) → blames (judge a) ≡ false)
      → Harmless (in_pod l p command absent check judge pod)
  unfolding in_pod skip
  in_pod-Harmless command absent check judge none h s = (_, refl, refl)
  in_pod-Harmless command absent check judge (some pod) h s = (_, refl, h _)

  pub in_labelled-Harmless :
      (label command absent : String) (check : ValidationCheck)
      (judge : Outcome String l.Error → ValidationCheck) (pods : List Pod)
      → l.pods l.namespace (some label) ≡ ok pods
      → ((a : Outcome String l.Error) → blames (judge a) ≡ false)
      → Harmless (in_labelled l p label command absent check judge)
  unfolding in_labelled among
  in_labelled-Harmless label command absent check judge pods listed h s =
      rw listed (in_pod-Harmless command absent check judge (first_running pods) h s)
