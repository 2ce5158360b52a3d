-- ===== src/Validation/Summaries.antt =====
-- What the summaries of src/infra/validation/types.rs say of the checks.
use analytics_hub.Prelude.{
  ◌≡◌, refl, sym, subst, String, Bool, true, false, not, ◌&&◌, List, [], ◌∷◌, ◌++◌, length,
  length-append, count-append, all-append, count, all, u64, arith,
}
use mathlib.Core.List.{append_assoc, append-nil}
use analytics_hub.Validation.{
  CheckStatus, passing, failing, warning, ValidationCheck, ValidationResults, ValidationReport,
  new_results, is_critical, add_check, new_report, add_category,
}

abbrev is_passing : CheckStatus → Bool
is_passing passing = true
is_passing _ = false

abbrev is_failing : CheckStatus → Bool
is_failing failing = true
is_failing _ = false

abbrev is_warning : CheckStatus → Bool
is_warning warning = true
is_warning _ = false

abbrev pub has_passed : ValidationCheck → Bool
has_passed c = is_passing c.status

abbrev pub has_failed : ValidationCheck → Bool
has_failed c = is_failing c.status

abbrev pub has_warned : ValidationCheck → Bool
has_warned c = is_warning c.status

-- The check is no critical one that failed.
abbrev pub is_tolerable : ValidationCheck → Bool
is_tolerable c = not (is_failing c.status && is_critical c.severity)

-- `add_check` for each of some checks.
abbrev pub add_checks : List ValidationCheck → ValidationResults → ValidationResults
add_checks [] r = r
add_checks (c ∷ cs) r = add_checks cs (add_check c r)

-- What results say of their checks.
pub record Summarises (cs : List ValidationCheck) (r : ValidationResults) : Type 0 where
  pub all_checks : r.checks ≡ cs
  pub healthy_tolerable : r.healthy ≡ all is_tolerable cs
  pub total_length : r.total ≡ u64 (length cs)
  pub passed_count : r.passed ≡ u64 (count has_passed cs)
  pub failed_count : r.failed ≡ u64 (count has_failed cs)
  pub warnings_count : r.warnings ≡ u64 (count has_warned cs)

add_check-Summarises :
    (cs : List ValidationCheck) (c : ValidationCheck) (r : ValidationResults)
    → Summarises cs r
    → Summarises (cs ++ c ∷ []) (add_check c r)
unfolding add_check
add_check-Summarises cs c r h = record {
  all_checks = ground (arith, h.all_checks);
  healthy_tolerable = ground (arith, h.healthy_tolerable, all-append is_tolerable cs (c ∷ []));
  total_length = ground (arith, h.total_length, length-append cs (c ∷ []));
  passed_count = ground (arith, h.passed_count, count-append has_passed cs (c ∷ []));
  failed_count = ground (arith, h.failed_count, count-append has_failed cs (c ∷ []));
  warnings_count = ground (arith, h.warnings_count, count-append has_warned cs (c ∷ []));
}

add_checks-Summarises :
    (cs ds : List ValidationCheck) (r : ValidationResults)
    → Summarises ds r
    → Summarises (ds ++ cs) (add_checks cs r)
add_checks-Summarises [] ds r h = subst (λ l. Summarises l r) (sym (append-nil ds)) h
add_checks-Summarises (c ∷ cs) ds r h =
    subst (λ l. Summarises l (add_checks cs (add_check c r))) (append_assoc ds (c ∷ []) cs)
      (add_checks-Summarises cs (ds ++ c ∷ []) (add_check c r) (add_check-Summarises ds c r h))

-- The results of a category keep its checks in order and count them, in all and by status, modulo
-- 2^64, and are healthy exactly when no critical check has failed.
pub results_summarise :
    (category : String) (cs : List ValidationCheck)
    → Summarises cs (add_checks cs (new_results category))
unfolding new_results
results_summarise category cs = add_checks-Summarises cs [] (new_results category) (record {
  all_checks = refl;
  healthy_tolerable = refl;
  total_length = refl;
  passed_count = refl;
  failed_count = refl;
  warnings_count = refl;
})

-- `add_category` for the results of each category's checks.
abbrev pub add_categories :
    List (String × List ValidationCheck) → ValidationReport → ValidationReport
add_categories [] p = p
add_categories ((category, cs) ∷ gs) p =
    add_categories gs (add_category (add_checks cs (new_results category)) p)

abbrev pub checks_of : List (String × List ValidationCheck) → List ValidationCheck
checks_of [] = []
checks_of ((category, cs) ∷ gs) = cs ++ checks_of gs

-- What a report says of all checks.
pub record Reports (cs : List ValidationCheck) (p : ValidationReport) : Type 0 where
  pub healthy_tolerable : p.healthy ≡ all is_tolerable cs
  pub total_length : p.total_checks ≡ u64 (length cs)
  pub passed_count : p.total_passed ≡ u64 (count has_passed cs)
  pub failed_count : p.total_failed ≡ u64 (count has_failed cs)
  pub warnings_count : p.total_warnings ≡ u64 (count has_warned cs)

add_category-Reports :
    (cs ds : List ValidationCheck) (r : ValidationResults) (p : ValidationReport)
    → Summarises cs r
    → Reports ds p
    → Reports (ds ++ cs) (add_category r p)
unfolding add_category
add_category-Reports cs ds r p s h = record {
  healthy_tolerable =
      ground (arith, h.healthy_tolerable, s.healthy_tolerable, all-append is_tolerable ds cs);
  total_length = omega (arith, h.total_length, s.total_length, length-append ds cs);
  passed_count = omega (arith, h.passed_count, s.passed_count, count-append has_passed ds cs);
  failed_count = omega (arith, h.failed_count, s.failed_count, count-append has_failed ds cs);
  warnings_count = omega (arith, h.warnings_count, s.warnings_count, count-append has_warned ds cs);
}

add_categories-Reports :
    (gs : List (String × List ValidationCheck)) (ds : List ValidationCheck) (p : ValidationReport)
    → Reports ds p
    → Reports (ds ++ checks_of gs) (add_categories gs p)
add_categories-Reports [] ds p h = subst (λ l. Reports l p) (sym (append-nil ds)) h
add_categories-Reports ((category, cs) ∷ gs) ds p h =
    let r = add_checks cs (new_results category) in
    subst (λ l. Reports l (add_categories gs (add_category r p)))
      (append_assoc ds cs (checks_of gs))
      (add_categories-Reports gs (ds ++ cs) (add_category r p)
        (add_category-Reports cs ds r p (results_summarise category cs) h))

-- A report counts the checks of all its categories, in all and by status, modulo 2^64, and is
-- healthy exactly when no critical check of any category has failed.
pub report_summarises :
    (now environment : String) (gs : List (String × List ValidationCheck))
    → Reports (checks_of gs) (add_categories gs (new_report now environment))
unfolding new_report
report_summarises now environment gs =
    add_categories-Reports gs [] (new_report now environment) (record {
      healthy_tolerable = refl;
      total_length = refl;
      passed_count = refl;
      failed_count = refl;
      warnings_count = refl;
    })
