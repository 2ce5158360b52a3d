-- ===== src/Cluster/Verdict.antt =====
-- What the health checks of src/infra/k8s/health.rs say of a cluster, and do to it.
use analytics_hub.Prelude.{
  ℕ, suc, ◌≡◌, refl, ap, ◌∙◌, String, Bool, true, false, ◌&&◌, ◌||◌, List, [], ◌∷◌, length, count,
  count-le-length, all, ◌==◌, ltb, Outcome, ok, err, is_ok, if◌then◌else◌, arith,
}
use analytics_hub.Cluster.{
  Pod, Deployment, ApiServer, ensure_namespace, create_missing, is_pod_ready, is_deployment_ready,
}
use analytics_hub.Cluster.Health.{
  new_health, add_health_check, passed_check, failed_check, with_details, Messages, namespace_check,
  ready_check, pods_check, deployments_check, services_check, check_all,
}

-- All that a list holds is ready, and the list could be read.
abbrev pub all_of : {A E : Type 0} → (A → Bool) → Outcome (List A) E → Bool
all_of p (ok l) = all p l
all_of p (err e) = false

count-length : {A : Type 0} → (p : A → Bool) (l : List A) → (count p l == length l) ≡ all p l
count-length p [] = refl
count-length p (a ∷ l) = ground (arith, count-length p l, count-le-length p l)

passed_if :
    (a b : Bool) (details : List (String × ℕ)) (name m n k : String)
    → (if a
        then with_details details (passed_check name m)
        else if b
        then with_details details (passed_check name n)
        else with_details details (failed_check name k)).passed
      ≡ (a || b)
unfolding with_details passed_check failed_check
passed_if true b details name m n k = refl
passed_if false true details name m n k = refl
passed_if false false details name m n k = refl

chosen_passed :
    (b : Bool) (details : List (String × ℕ)) (name m n : String)
    → (if b
        then with_details details (passed_check name m)
        else with_details details (passed_check name n)).passed
      ≡ true
unfolding with_details passed_check
chosen_passed true details name m n = refl
chosen_passed false details name m n = refl

some_ready : (n : ℕ) (b : Bool) → ((b && ltb 0 (suc n)) || (suc n == 0)) ≡ b
some_ready n true = ground arith
some_ready n false = ground arith

module _ {E : Type 0} (messages : Messages E) where
  ready_passed :
      {A : Type 0}
      → (p : A → Bool) (name missing : String) (details : List (String × ℕ)) (l : List A)
      → (ready_check messages name missing details (count p l) (length l)).passed ≡ all p l
  unfolding ready_check with_details passed_check
  ready_passed p name missing details [] = refl
  ready_passed p name missing details (a ∷ l) =
      passed_if (count p (a ∷ l) == length (a ∷ l) && ltb 0 (suc (length l))) (suc (length l) == 0)
        details name (messages.all_ready (suc (length l))) missing
        (messages.only_ready (count p (a ∷ l)) (suc (length l)))
      ∙ some_ready (length l) (count p (a ∷ l) == length (a ∷ l))
      ∙ count-length p (a ∷ l)

  namespace_passed :
      (namespace : String) (o : Outcome (Unit {0}) E)
      → (namespace_check messages namespace o).passed ≡ is_ok o
  unfolding namespace_check passed_check failed_check
  namespace_passed namespace (ok u) = refl
  namespace_passed namespace (err e) = refl

  pods_passed : (o : Outcome (List Pod) E) → (pods_check messages o).passed ≡ all_of is_pod_ready o
  unfolding pods_check failed_check
  pods_passed (ok pods) = ready_passed is_pod_ready _ _ _ pods
  pods_passed (err e) = refl

  deployments_passed :
      (o : Outcome (List Deployment) E)
      → (deployments_check messages o).passed ≡ all_of is_deployment_ready o
  unfolding deployments_check failed_check
  deployments_passed (ok deployments) = ready_passed is_deployment_ready _ _ _ deployments
  deployments_passed (err e) = refl

  services_passed :
      {S : Type 0} → (o : Outcome (List S) E) → (services_check messages o).passed ≡ is_ok o
  unfolding services_check with_details passed_check failed_check
  services_passed (ok []) = refl
  services_passed (ok (a ∷ l)) =
      chosen_passed (ltb 0 (suc (length l))) _ _ (messages.found (suc (length l))) _
  services_passed (err e) = refl

folded :
    (a b c d : Bool)
    → (if d then if c then if b then if a then true else false else false else false else false)
      ≡ (a && (b && (c && (d && true))))
folded a b c d = ground arith

regrouped : (a b c d : Bool) → (a && (b && (c && (d && true)))) ≡ (a && b && c && d)
regrouped a b c d = ground arith

module _ (server : ApiServer) (messages : Messages server.ApiError) (namespace : String) where
  -- What is expected of a namespace: it is there or can be created, and then its pods and
  -- deployments are listed and all ready, and its services are listed.
  abbrev pub is_expected : server.State → Bool
  is_expected s =
      let (found, s') = ensure_namespace server namespace s in
      is_ok found
      && all_of is_pod_ready (server.list_pods namespace s')
      && all_of is_deployment_ready (server.list_deployments namespace s')
      && is_ok (server.list_services namespace s')

  -- The health checks find a namespace healthy if, and only if, it is there or can be created, all
  -- its pods and deployments are listed and ready, and its services are listed; an empty list is fine. The
  -- result is healthy where all of its checks have passed.
  pub check_all_verdict :
      (s : server.State)
      → ((check_all server messages namespace s).0.healthy ≡ is_expected s)
        × ((check_all server messages namespace s).0.healthy
            ≡ all (λ c. c.passed) (check_all server messages namespace s).0.checks)
  unfolding check_all add_health_check new_health
  check_all_verdict s =
      let (found, s') = ensure_namespace server namespace s in
      let verdict =
        folded (namespace_check messages namespace found).passed
          (pods_check messages (server.list_pods namespace s')).passed
          (deployments_check messages (server.list_deployments namespace s')).passed
          (services_check messages (server.list_services namespace s')).passed in
      (
        verdict
            ∙ (rw
                (
                  namespace_passed messages namespace found,
                  pods_passed messages (server.list_pods namespace s'),
                  deployments_passed messages (server.list_deployments namespace s'),
                  services_passed messages (server.list_services namespace s'),
                )
                (regrouped (is_ok found) (all_of is_pod_ready (server.list_pods namespace s'))
                  (all_of is_deployment_ready (server.list_deployments namespace s'))
                  (is_ok (server.list_services namespace s')))),
        verdict,
      )

-- What the API server documents of creation: a namespace that was created can be read.
pub record IsApiServer (server : ApiServer) : Type 0 where
  pub get-create :
      (namespace : String) (s : server.State)
      → (server.create_namespace namespace s).0 ≡ ok tt
      → server.get_namespace namespace (server.create_namespace namespace s).1 ≡ ok tt

module _ (server : ApiServer) (messages : Messages server.ApiError) (namespace : String) where
  -- The check of a namespace that cannot be read creates it: where the server does so, the cluster
  -- is left with it, whatever the other checks say, and a second run of the checks finds
  -- it and changes nothing.
  pub check_creates_namespace :
      IsApiServer server
      → (s : server.State) (e : server.ApiError) → server.get_namespace namespace s ≡ err e
      → (server.create_namespace namespace s).0 ≡ ok tt
      → ((check_all server messages namespace s).1 ≡ (server.create_namespace namespace s).1)
        × (server.get_namespace namespace (check_all server messages namespace s).1 ≡ ok tt)
        × ((check_all server messages namespace (check_all server messages namespace s).1).1
            ≡ (check_all server messages namespace s).1)
  unfolding check_all ensure_namespace create_missing
  check_creates_namespace laws s e missing created =
      let left : (check_all server messages namespace s).1
          ≡ (server.create_namespace namespace s).1 =
        rw missing refl in
      let there : server.get_namespace namespace (check_all server messages namespace s).1 ≡ ok tt =
        ap (server.get_namespace namespace) left ∙ laws.get-create namespace s created in
      (left, there, rw there refl)
