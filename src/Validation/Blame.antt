-- ===== src/Validation/Blame.antt =====
-- Which checks of src/infra/validation make a category unhealthy.
use mathlib.Core.List.{append-nil, append_assoc}
use analytics_hub.Prelude.{
  ◌+◌, ◌++◌, u64, All, sym, ℕ, ◌≡◌, refl, ap, ◌∙◌, String, Bool, true, false, not, ◌&&◌, ◌||◌, List,
  [], map, ◌∷◌, if◌then◌else◌, ok, arith,
}
use analytics_hub.Validation.{
  ValidationCheck, ValidationResults, CheckSeverity, CheckStatus, passing, failing, warning,
  skipped, is_critical, pass, warn, count_status, add_check,
}
use analytics_hub.Validation.Listing.{add_all}
use analytics_hub.Validation.Security.{none_or_warn, some_or_warn}

abbrev pub is_failing : CheckStatus → Bool
is_failing failing = true
is_failing s = false

-- A critical check that failed.
abbrev pub blames : ValidationCheck → Bool
blames c = is_failing c.status && is_critical c.severity

abbrev pub some_blames : List ValidationCheck → Bool
some_blames [] = false
some_blames (c ∷ checks) = blames c || some_blames checks

counted :
    (s : CheckStatus) (severity : CheckSeverity) (r : ValidationResults)
    → (count_status s severity r).healthy
      ≡ (not (is_failing s && is_critical severity) && r.healthy)
unfolding count_status
counted passing severity r = refl
counted failing severity r = ground arith
counted warning severity r = refl
counted skipped severity r = refl

pub added :
    (c : ValidationCheck) (r : ValidationResults)
    → (add_check c r).healthy ≡ (not (blames c) && r.healthy)
unfolding add_check
added c r = counted c.status c.severity _

both_blame : (a b h : Bool) → (not b && (not a && h)) ≡ (not (a || b) && h)
both_blame true b h = ground arith
both_blame false b h = refl

-- A category whose answers all come is unhealthy where a critical check failed.
pub added_all :
    {E : Type 0}
    → (checks : List ValidationCheck) (r : ValidationResults)
    → (r' : ValidationResults) × (add_all {E = E} (map ok checks) r ≡ ok r')
      × (r'.healthy ≡ (not (some_blames checks) && r.healthy))
unfolding add_all
added_all [] r = (r, refl, refl)
added_all (c ∷ checks) r =
    let (r', total, healthy) = added_all checks (add_check c r) in
    (
      r',
      total,
      healthy
          ∙ ap (λ b. not (some_blames checks) && b) (added c r)
          ∙ both_blame (blames c) (some_blames checks) r.healthy,
    )

-- No check of a list fails.
abbrev pub NoneFails : List ValidationCheck → Type 0
NoneFails checks = All (λ c. is_failing c.status ≡ false) checks

counted_kept :
    (s : CheckStatus) (severity : CheckSeverity) (r : ValidationResults)
    → is_failing s ≡ false
    → ((count_status s severity r).failed ≡ r.failed)
      × ((count_status s severity r).checks ≡ r.checks)
unfolding count_status
counted_kept passing severity r h = (refl, refl)
counted_kept failing severity r h = absurd (ground arith)
counted_kept warning severity r h = (refl, refl)
counted_kept skipped severity r h = (refl, refl)

added_kept :
    (c : ValidationCheck) (r : ValidationResults)
    → is_failing c.status ≡ false
    → ((add_check c r).failed ≡ r.failed) × ((add_check c r).checks ≡ r.checks ++ c ∷ [])
unfolding add_check
added_kept c r h =
    let kept = counted_kept c.status c.severity (record r { total = u64 (r.total + 1) }) h in
    (kept.0, ap (λ l. l ++ c ∷ []) kept.1)

-- A category of checks that do not fail counts no failure, and lists them all.
pub added_none :
    {E : Type 0}
    → (checks : List ValidationCheck) (r : ValidationResults) → NoneFails checks
    → (r' : ValidationResults) × (add_all {E = E} (map ok checks) r ≡ ok r')
      × (r'.healthy ≡ r.healthy)
      × (r'.failed ≡ r.failed)
      × (r'.checks ≡ r.checks ++ checks)
unfolding add_all
added_none [] r h = (r, refl, refl, refl, sym (append-nil r.checks))
added_none (c ∷ checks) r h =
    let (r', total, healthy, failed, listed) = added_none checks (add_check c r) h.1 in
    let kept = added_kept c r h.0 in
    (
      r',
      total,
      healthy ∙ added c r ∙ rw (h.0) refl,
      failed ∙ kept.0,
      listed ∙ ap (λ l. l ++ checks) kept.1 ∙ append_assoc r.checks (c ∷ []) checks,
    )

pub chosen_fails :
    (b : Bool) (m n : String) (c : ValidationCheck)
    → is_failing (if b then pass m c else warn n c).status ≡ false
unfolding pass warn
chosen_fails true m n c = refl
chosen_fails false m n c = refl

pub chosen_blame :
    (b : Bool) (m n : String) (c : ValidationCheck)
    → blames (if b then pass m c else warn n c) ≡ false
unfolding pass warn
chosen_blame true m n c = refl
chosen_blame false m n c = refl

module _ (number : ℕ → String) where
  pub none_or_warn_blame :
      (c : ValidationCheck) (fine found : String) (n : ℕ)
      → blames (none_or_warn number c fine found n) ≡ false
  unfolding none_or_warn
  none_or_warn_blame c fine found n = chosen_blame _ _ _ c

  pub some_or_warn_blame :
      (c : ValidationCheck) (before behind missing : String) (n : ℕ)
      → blames (some_or_warn number c before behind missing n) ≡ false
  unfolding some_or_warn
  some_or_warn_blame c before behind missing n = chosen_blame _ _ _ c

  pub none_or_warn_fails :
      (c : ValidationCheck) (fine found : String) (n : ℕ)
      → is_failing (none_or_warn number c fine found n).status ≡ false
  unfolding none_or_warn
  none_or_warn_fails c fine found n = chosen_fails _ _ _ c

  pub some_or_warn_fails :
      (c : ValidationCheck) (before behind missing : String) (n : ℕ)
      → is_failing (some_or_warn number c before behind missing n).status ≡ false
  unfolding some_or_warn
  some_or_warn_fails c before behind missing n = chosen_fails _ _ _ c
