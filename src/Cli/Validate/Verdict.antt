-- ===== src/Cli/Validate/Verdict.antt =====
-- When the commands of src/cli/validate succeed.
use analytics_hub.Prelude.{
  ℕ, ◌≡◌, refl, ◌∙◌, String, Bool, true, false, not, ◌&&◌, ◌||◌, [], ◌∷◌, length, count, ◌==◌,
  Outcome, ok, is_ok, arith,
}
use analytics_hub.Prelude.Effects.{Effect, ◌>>=◌}
use analytics_hub.Validation.{ValidationResults, ValidationReport, add_category}
use analytics_hub.Validation.Listing.{Listing, running}
use analytics_hub.Validation.Nodes.{is_node_ready}
use analytics_hub.Validation.Databases.{validate_databases}
use analytics_hub.Validation.Network.{validate_network}
use analytics_hub.Validation.Prerequisites.{Tools}
use analytics_hub.Validation.Programs.{Programs, first_running}
use analytics_hub.Validation.Health.{cluster_verdict, services_verdict, security_always_healthy}
use analytics_hub.Validation.Usage.{resources_always_healthy}
use analytics_hub.Validation.Reach.{accepts, databases_verdict, network_verdict}
use analytics_hub.Cli.Validate.{
  with_context, category, connect, lists, add_cluster, add_services, add_databases, add_security,
  add_network, add_resources, run_steps,
}
use analytics_hub.Cli.Validate.Answers.{Answered}

pub categorised :
    (r : ValidationResults) (p : ValidationReport)
    → (add_category r p).healthy ≡ (r.healthy && p.healthy)
unfolding add_category
categorised r p = ground arith

healthy_of_four :
    (c v y u : ValidationResults) (p : ValidationReport) (b d : Bool)
    → c.healthy ≡ b
    → v.healthy ≡ d
    → y.healthy ≡ true
    → u.healthy ≡ true
    → (add_category u (add_category y (add_category v (add_category c p)))).healthy
      ≡ (p.healthy && (b && (d && true)))
healthy_of_four c v y u p b d hc hv hy hu =
    rw (categorised u _, categorised y _, categorised v _, categorised c _, hc, hv, hy, hu)
      (ground arith)

healthy_of_six :
    (c v d y n u : ValidationResults) (p : ValidationReport) (b e f g : Bool)
    → c.healthy ≡ b
    → v.healthy ≡ e
    → d.healthy ≡ f
    → y.healthy ≡ true
    → n.healthy ≡ g
    → u.healthy ≡ true
    → (add_category u (
        add_category n
          (add_category y (add_category d (add_category v (add_category c p)))))).healthy
      ≡ (p.healthy && (b && (e && (f && g))))
healthy_of_six c v d y n u p b e f g hc hv hd hy hn hu =
    rw
      (
        categorised u _,
        categorised n _,
        categorised y _,
        categorised d _,
        categorised v _,
        categorised c _,
        hc,
        hv,
        hd,
        hy,
        hn,
        hu,
      )
      (ground arith)

module _ {S E : Type 0} where
  pub then_ok :
      {A B : Type 0} (m : Effect S E A) (k : A → Effect S E B) (s s' : S) (a : A)
      → m s ≡ (ok a, s')
      → (m >>= k) s ≡ k a s'
  then_ok m k s s' a h = rw h refl

  category_ok :
      (what : String) (validate : Effect S E ValidationResults) (p : ValidationReport) (s : S)
      (r : ValidationResults)
      → (validate s).0 ≡ ok r
      → category what validate p s ≡ (ok (add_category r p), (validate s).1)
  unfolding category with_context
  category_ok what validate p s r h = rw h refl

module _ (number : ℕ → String) (t : Tools) (l : Listing) (p : Programs l.Error)
    (client ensured : Outcome (Unit {0}) l.Error) (now : String) (a : Answered l) where
  -- A node is ready, and the namespace exists or was created.
  abbrev pub has_cluster : Bool
  has_cluster = not (count is_node_ready a.nodes == 0) && is_ok ensured

  -- TimescaleDB runs, and some pod of the application, if it has any.
  abbrev pub has_services : Bool
  has_services = not ((not (length a.apps == 0) && running a.apps == 0) || running a.timescale == 0)

  -- PostgreSQL accepts connections in the first pod of TimescaleDB that runs.
  abbrev pub has_database : p.State → Bool
  has_database s = accepts l p (first_running a.timescale) s

  -- A temporary pod resolves a name.
  abbrev pub has_names : p.State → Bool
  has_names s =
      is_ok
        (p.run_pod_command "dns-test" "busybox:latest" ("nslookup" ∷ "kubernetes.default" ∷ []) s).0

  abbrev after_databases : p.State → p.State
  after_databases s = (validate_databases l p s).1

  -- What the steps find.
  abbrev pub is_sound : Bool → p.State → Bool
  is_sound fast s =
      has_cluster && (has_services && (fast || (has_database s && has_names (after_databases s))))

  abbrev pub Reported : Bool → ValidationReport → p.State → Type 0
  Reported fast report s =
      (r : ValidationReport) × (s' : p.State) × (run_steps number t l p client ensured now fast
          report s
        ≡ (ok r, s'))
      × (r.healthy ≡ (report.healthy && is_sound fast s))

  module _ (connected : client ≡ ok tt) where
    connect_ok : (s : p.State) → connect client s ≡ (ok tt, s)
    unfolding connect
    connect_ok s = rw connected refl

    pub steps_fast : (report : ValidationReport) (s : p.State) → Reported true report s
    unfolding run_steps add_cluster add_services add_security add_resources lists
    steps_fast report s =
        let (c, c_ran, c_said) =
          cluster_verdict number l ensured a.nodes a.system a.nodes_listed a.system_listed in
        let (v, v_ran, v_said) =
          services_verdict number l a.apps a.timescale a.redis a.kafka a.services a.apps_listed
            a.timescale_listed a.redis_listed a.kafka_listed a.services_counted in
        let (y, y_ran, y_said, y_failed, y_none, y_six) =
          security_always_healthy number l a.all a.policies a.budgets a.kinds a.all_listed
            a.policies_counted a.budgets_counted a.kinds_listed in
        let (u, u_ran, u_said) =
          resources_always_healthy number l a.metrics a.all a.autoscalers a.metrics_listed
            a.all_listed a.autoscalers_counted in
        (
          add_category u (add_category y (add_category v (add_category c report))),
          s,
          then_ok (connect client) _ s s tt (connect_ok s)
              ∙ then_ok (add_cluster number t l p client ensured now report) _ s s _
                  (category_ok _ _ report s c c_ran)
              ∙ then_ok (add_services number t l p client ensured now _) _ s s _
                  (category_ok _ _ _ s v v_ran)
              ∙ then_ok (add_security number t l p client ensured now _) _ s s _
                  (category_ok _ _ _ s y y_ran)
              ∙ category_ok _ _ _ s u u_ran,
          healthy_of_four c v y u report has_cluster has_services c_said v_said y_said u_said,
        )

    pub steps_full : (report : ValidationReport) (s : p.State) → Reported false report s
    unfolding run_steps add_cluster add_services add_databases add_security add_network
        add_resources lists
    steps_full report s =
        let (c, c_ran, c_said) =
          cluster_verdict number l ensured a.nodes a.system a.nodes_listed a.system_listed in
        let (v, v_ran, v_said) =
          services_verdict number l a.apps a.timescale a.redis a.kafka a.services a.apps_listed
            a.timescale_listed a.redis_listed a.kafka_listed a.services_counted in
        let (d, d_ran, d_said) =
          databases_verdict l p a.timescale a.redis a.kafka a.timescale_listed a.redis_listed
            a.kafka_listed s in
        let (y, y_ran, y_said, y_failed, y_none, y_six) =
          security_always_healthy number l a.all a.policies a.budgets a.kinds a.all_listed
            a.policies_counted a.budgets_counted a.kinds_listed in
        let (n, n_ran, n_said) =
          network_verdict l p number a.apps a.ingresses a.apps_listed a.ingresses_counted
            (after_databases s) in
        let (u, u_ran, u_said) =
          resources_always_healthy number l a.metrics a.all a.autoscalers a.metrics_listed
            a.all_listed a.autoscalers_counted in
        let s' = after_databases s in
        (
          add_category u (
              add_category n
                (add_category y (add_category d (add_category v (add_category c report))))),
          (validate_network number l p s').1,
          then_ok (connect client) _ s s tt (connect_ok s)
              ∙ then_ok (add_cluster number t l p client ensured now report) _ s s _
                  (category_ok _ _ report s c c_ran)
              ∙ then_ok (add_services number t l p client ensured now _) _ s s _
                  (category_ok _ _ _ s v v_ran)
              ∙ then_ok (add_databases number t l p client ensured now _) _ s s' _
                  (category_ok _ _ _ s d d_ran)
              ∙ then_ok (add_security number t l p client ensured now _) _ s' s' _
                  (category_ok _ _ _ s' y y_ran)
              ∙ then_ok (add_network number t l p client ensured now _) _ s' _ _
                  (category_ok _ _ _ s' n n_ran)
              ∙ category_ok _ _ _ _ u u_ran,
          healthy_of_six c v d y n u report has_cluster has_services (has_database s) (has_names s')
              c_said v_said d_said y_said n_said u_said,
        )
