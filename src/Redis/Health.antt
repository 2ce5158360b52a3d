-- ===== src/Redis/Health.antt =====
-- What src/infra/redis/cluster.rs reads from the answers of a pod, and its verdict.
use Prim.Native.Char.{code}
use analytics_hub.Prelude.{
  ℕ, ◌≡◌, refl, ap, ◌∙◌, String, Option, some, Bool, true, false, ◌&&◌, ◌==◌, List, [], ◌∷◌,
  if◌then◌else◌, Bool-cases, inl, inr, ok, arith,
}
use analytics_hub.Prelude.Dict.{str_eq}
use analytics_hub.Prelude.Text.{starts_with}
use analytics_hub.Cluster.{Pod}
use analytics_hub.Cluster.Shell.{Shell, running_pod}
use analytics_hub.Redis.Cluster.{
  list_pods, or_failed, found_redis_pod, get_redis_pod, execute_in, verify_cluster,
}
use analytics_hub.Redis.{
  ClusterHealth, new_redis_health, say, mark_healthy, mark_failed, second_part, number_or,
  state_or_unknown, parse_line, parse_cluster_info, parse_cluster_nodes, judge,
}

-- Two texts that differ at a place that both have.
abbrev diverge : String → String → Bool
diverge String.[] q = false
diverge (String.◌∷◌ c p) String.[] = false
diverge (String.◌∷◌ c p) (String.◌∷◌ d q) =
    let rest = diverge p q in if code c == code d then rest else true

one_prefix :
    (p q s : String) → diverge p q ≡ true → starts_with p s ≡ true → starts_with q s ≡ false
one_prefix String.[] q s d h = absurd (cc)
one_prefix (String.◌∷◌ c p) String.[] s d h = absurd (cc)
one_prefix (String.◌∷◌ c p) (String.◌∷◌ e q) String.[] d h = refl
one_prefix (String.◌∷◌ c p) (String.◌∷◌ e q) (String.◌∷◌ x s) d h = ground (arith, one_prefix p q s)

module _ {A : Type 0} where
  kept_of_three :
      (a b c : Bool) (field : ClusterHealth → A) (x y z h : ClusterHealth)
      → field x ≡ field h
      → field y ≡ field h
      → field z ≡ field h
      → field (if a then x else if b then y else if c then z else h) ≡ field h
  kept_of_three true b c field x y z h p q r = p
  kept_of_three false true c field x y z h p q r = q
  kept_of_three false false true field x y z h p q r = r
  kept_of_three false false false field x y z h p q r = refl

  kept_of_four :
      (a b c d : Bool) (field : ClusterHealth → A) (x y z w h : ClusterHealth)
      → field y ≡ field h
      → field z ≡ field h
      → field w ≡ field h
      → field (if a then x else if b then y else if c then z else if d then w else h)
        ≡ (if a then field x else field h)
  kept_of_four true b c d field x y z w h p q r = refl
  kept_of_four false b c d field x y z w h p q r = kept_of_three b c d field y z w h p q r

module _ (trim : String → String) (parse_usize : String → Option ℕ) where
  -- What the last line with the prefix says, or what was there.
  abbrev pub last_state : String → List String → String
  last_state old [] = old
  last_state old (line ∷ lines) =
      last_state
        (if starts_with "cluster_state:" line
          then state_or_unknown trim parse_usize (second_part line)
          else old)
        lines

  abbrev pub last_slots : ℕ → List String → ℕ
  last_slots old [] = old
  last_slots old (line ∷ lines) =
      last_slots
        (if starts_with "cluster_slots_ok:" line
          then number_or trim parse_usize old (second_part line)
          else old)
        lines

  line_state :
      (line : String) (h : ClusterHealth)
      → (parse_line trim parse_usize line h).cluster_state ≡ (
          if starts_with "cluster_state:" line
          then state_or_unknown trim parse_usize (second_part line)
          else h.cluster_state)
  unfolding parse_line
  line_state line h =
      kept_of_four (starts_with "cluster_state:" line) (starts_with "cluster_size:" line)
        (starts_with "cluster_slots_assigned:" line) (starts_with "cluster_slots_ok:" line)
        (λ h'. h'.cluster_state) _ _ _ _ h refl refl refl

  line_slots :
      (line : String) (h : ClusterHealth)
      → (parse_line trim parse_usize line h).cluster_slots_ok ≡ (
          if starts_with "cluster_slots_ok:" line
          then number_or trim parse_usize h.cluster_slots_ok (second_part line)
          else h.cluster_slots_ok)
  unfolding parse_line
  line_slots line h = elim (Bool-cases (starts_with "cluster_slots_ok:" line)) [
    | inl e ↦
        rw
          (
            one_prefix "cluster_slots_ok:" "cluster_state:" line refl e,
            one_prefix "cluster_slots_ok:" "cluster_size:" line refl e,
            one_prefix "cluster_slots_ok:" "cluster_slots_assigned:" line refl e,
            e,
          )
          refl
    | inr e ↦ rw e (
        kept_of_three (starts_with "cluster_state:" line) (starts_with "cluster_size:" line)
          (starts_with "cluster_slots_assigned:" line) (λ h'. h'.cluster_slots_ok) _ _ _ h refl refl
          refl)
  ]

  parsed_state :
      (lines : List String) (h : ClusterHealth)
      → (parse_cluster_info trim parse_usize lines h).cluster_state
        ≡ last_state h.cluster_state lines
  unfolding parse_cluster_info
  parsed_state [] h = refl
  parsed_state (line ∷ lines) h =
      parsed_state lines (parse_line trim parse_usize line h)
      ∙ ap (λ s. last_state s lines) (line_state line h)

  parsed_slots :
      (lines : List String) (h : ClusterHealth)
      → (parse_cluster_info trim parse_usize lines h).cluster_slots_ok
        ≡ last_slots h.cluster_slots_ok lines
  unfolding parse_cluster_info
  parsed_slots [] h = refl
  parsed_slots (line ∷ lines) h =
      parsed_slots lines (parse_line trim parse_usize line h)
      ∙ ap (λ n. last_slots n lines) (line_slots line h)

judged :
    (h : ClusterHealth)
    → (judge h).healthy ≡ (str_eq h.cluster_state "ok" && h.cluster_slots_ok == 16384)
unfolding judge say mark_healthy mark_failed
judged h = chosen (str_eq h.cluster_state "ok" && h.cluster_slots_ok == 16384)
  where
    chosen :
        (b : Bool)
        → (if b
            then say "Cluster is healthy" (mark_healthy h)
            else mark_failed "Cluster is not in healthy state" h).healthy
          ≡ b
    chosen true = refl
    chosen false = refl

module _ (trim : String → String) (parse_usize : String → Option ℕ) where
  judge_verdict :
      (info nodes : List String)
      → (judge (
          parse_cluster_nodes nodes
            (parse_cluster_info trim parse_usize info new_redis_health))).healthy
        ≡ (str_eq (last_state trim parse_usize "unknown" info) "ok"
            && last_slots trim parse_usize 0 info == 16384)
  unfolding parse_cluster_nodes new_redis_health
  judge_verdict info nodes =
      let read = parse_cluster_info trim parse_usize info new_redis_health in
      judged (parse_cluster_nodes nodes read)
      ∙ rw
          (
            parsed_state trim parse_usize info new_redis_health,
            parsed_slots trim parse_usize info new_redis_health,
          )
          refl

  module _ (sh : Shell) (sleep : ℕ → sh.State → sh.State) (lines : String → List String) where
    -- Where a Redis pod runs and answers both requests, the cluster is reported healthy if, and only
    -- if, of the lines of its information the last that tells the state says ok, and the last that
    -- tells the slots in order says 16384, whatever is said of the nodes.
    pub verify_cluster_verdict :
        (s s' s'' : sh.State) (pods : List Pod) (pod info nodes : String)
        → sh.list_pods s ≡ ok pods
        → running_pod "redis-" pods ≡ some pod
        → sh.exec_in_pod pod "redis-cli cluster info" s ≡ (ok info, s')
        → sh.exec_in_pod pod "redis-cli cluster nodes" s' ≡ (ok nodes, s'')
        → (h : ClusterHealth) × (verify_cluster sh sleep trim parse_usize lines s ≡ (ok h, s''))
          × (h.healthy ≡ (
              str_eq (last_state trim parse_usize "unknown" (lines info)) "ok"
              && last_slots trim parse_usize 0 (lines info) == 16384))
    unfolding verify_cluster get_redis_pod list_pods or_failed found_redis_pod execute_in
    verify_cluster_verdict s s' s'' pods pod info nodes listed found told named = (
      judge (
          parse_cluster_nodes (lines nodes)
            (parse_cluster_info trim parse_usize (lines info) new_redis_health)),
      rw listed (rw found (rw told (rw named refl))),
      judge_verdict (lines info) (lines nodes),
    )
