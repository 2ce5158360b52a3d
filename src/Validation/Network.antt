-- ===== src/Validation/Network.antt =====
-- src/infra/validation/network.rs
use analytics_hub.Prelude.{ℕ, String, Outcome, ok, err, [], ◌∷◌, if◌then◌else◌, ltb}
use analytics_hub.Prelude.Text.{◌++◌}
use analytics_hub.Prelude.Effects.{Effect}
use analytics_hub.Validation.{
  ValidationCheck, ValidationResults, critical, important, advisory, new_check, pass, fail, warn,
  new_results,
}
use analytics_hub.Validation.Listing.{Listing, of_answer}
use analytics_hub.Validation.Programs.{Programs, Check, in_labelled, run_all}

unfoldable pub dns_said : {E : Type 0} → ValidationCheck → Outcome String E → ValidationCheck
dns_said check (ok output) = pass "DNS resolution working" check
dns_said check (err e) = fail "DNS resolution not working" check

unfoldable pub connection_said : {E : Type 0} → ValidationCheck → Outcome String E → ValidationCheck
connection_said check (ok output) = pass "Service-to-service connectivity working" check
connection_said check (err e) = warn "Some service connectivity issues detected" check

unfoldable pub ingress_said : (ℕ → String) → ℕ → ValidationCheck
ingress_said number ingress_count =
    let check = new_check "ingress-configured" "Network Connectivity" advisory in
    if ltb 0 ingress_count
    then pass ("Ingress resources configured (" ++ number ingress_count ++ " ingresses)") check
    else warn "No ingress resources configured - services not exposed externally" check

module _ (number : ℕ → String) (l : Listing) (p : Programs l.Error) where
  unfoldable pub check_dns_resolution : Check l p
  check_dns_resolution s =
      let (answer, s') =
        p.run_pod_command "dns-test" "busybox:latest" ("nslookup" ∷ "kubernetes.default" ∷ []) s in
      (ok (dns_said (new_check "dns-resolution" "Network Connectivity" critical) answer), s')

  unfoldable pub check_service_connectivity : Check l p
  check_service_connectivity =
      let check = new_check "service-connectivity" "Network Connectivity" important in
      in_labelled l p "app=analytics-api" "nc -zv timescaledb-service 5432"
        "No application pod available for connectivity tests" check (connection_said check)

  unfoldable pub check_ingress : Check l p
  check_ingress s = (of_answer (ingress_said number) l.ingresses, s)

  -- `NetworkValidator::validate`
  unfoldable pub validate_network : Effect p.State l.Error ValidationResults
  validate_network =
      run_all (check_dns_resolution ∷ check_service_connectivity ∷ check_ingress ∷ [])
        (new_results "Network Connectivity")
