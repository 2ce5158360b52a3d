-- ===== src/Redis.antt =====
-- src/infra/redis: the cluster's configuration and health (types.rs), and how its answers are read
-- (cluster.rs). `trim` and `parse_usize` are the standard library's `trim` and `parse`.
pub mod Cluster
pub mod Health
pub mod Waiting
use Prim.Native.Char.{code}
use analytics_hub.Prelude.{
  ℕ, suc, String, Option, none, some, Bool, true, false, ◌&&◌, ◌==◌, List, [], ◌∷◌, ◌++◌,
  if◌then◌else◌,
}
use analytics_hub.Prelude.Dict.{str_eq}
use analytics_hub.Prelude.Text.{starts_with, contains}
use analytics_hub.Prelude.Text as Text

pub record ClusterConfig : Type 0 where
  pub replicas_per_master : ℕ
  pub total_nodes : ℕ
  pub service_name : String

abbrev pub default_cluster : ClusterConfig
default_cluster = record {
  replicas_per_master = 1;
  total_nodes = 6;
  service_name = "redis-cluster";
}

pub record ClusterHealth : Type 0 where
  pub cluster_state : String
  pub cluster_size : ℕ
  pub master_count : ℕ
  pub slave_count : ℕ
  pub cluster_slots_assigned : ℕ
  pub cluster_slots_ok : ℕ
  pub healthy : Bool
  pub messages : List String

unfoldable pub new_redis_health : ClusterHealth
new_redis_health = record {
  cluster_state = "unknown";
  cluster_size = 0;
  master_count = 0;
  slave_count = 0;
  cluster_slots_assigned = 0;
  cluster_slots_ok = 0;
  healthy = false;
  messages = [];
}

unfoldable pub say : String → ClusterHealth → ClusterHealth
say message h = record h { messages = h.messages ++ message ∷ [] }

unfoldable pub mark_healthy : ClusterHealth → ClusterHealth
mark_healthy h = record h { healthy = true }

unfoldable pub mark_failed : String → ClusterHealth → ClusterHealth
mark_failed reason h = record h {
  healthy = false;
  messages = h.messages ++ (Text.◌++◌ "ERROR: " reason) ∷ [];
}

unfoldable pub until_colon : String → String
until_colon String.[] = ""
until_colon (String.◌∷◌ c s) =
    let rest = until_colon s in if code c == b':' then "" else String.◌∷◌ c rest

-- `line.split(':').nth(1)`
unfoldable pub second_part : String → Option String
unfolding until_colon
second_part String.[] = none
second_part (String.◌∷◌ c s) =
    let rest = second_part s in if code c == b':' then some (until_colon s) else rest

module _ (trim : String → String) (parse_usize : String → Option ℕ) where
  unfoldable pub parsed_or_zero : Option ℕ → ℕ
  parsed_or_zero none = 0
  parsed_or_zero (some n) = n

  unfoldable pub number_or : ℕ → Option String → ℕ
  number_or old none = old
  number_or old (some part) = parsed_or_zero (parse_usize (trim part))

  unfoldable pub state_or_unknown : Option String → String
  state_or_unknown none = "unknown"
  state_or_unknown (some part) = part

  unfoldable pub parse_line : String → ClusterHealth → ClusterHealth
  parse_line line h =
      if starts_with "cluster_state:" line
      then record h { cluster_state = state_or_unknown (second_part line) }
      else if starts_with "cluster_size:" line
      then record h { cluster_size = number_or h.cluster_size (second_part line) }
      else if starts_with "cluster_slots_assigned:" line
      then record h {
        cluster_slots_assigned = number_or h.cluster_slots_assigned (second_part line);
      }
      else if starts_with "cluster_slots_ok:" line
      then record h { cluster_slots_ok = number_or h.cluster_slots_ok (second_part line) }
      else h

  -- `parse_cluster_info`, on the lines of the answer.
  unfoldable pub parse_cluster_info : List String → ClusterHealth → ClusterHealth
  parse_cluster_info [] h = h
  parse_cluster_info (line ∷ lines) h = parse_cluster_info lines (parse_line line h)

-- How many lines tell of a master, and how many of the others of a slave.
unfoldable pub count_nodes : List String → ℕ × ℕ
count_nodes [] = (0, 0)
count_nodes (line ∷ lines) =
    let (masters, slaves) = count_nodes lines in
    if contains "master" line
    then (suc masters, slaves)
    else if contains "slave" line
    then (masters, suc slaves)
    else (masters, slaves)

unfoldable pub parse_cluster_nodes : List String → ClusterHealth → ClusterHealth
parse_cluster_nodes lines h =
    let (masters, slaves) = count_nodes lines in
    record h { master_count = masters; slave_count = slaves }

-- The end of `verify_cluster`.
unfoldable pub judge : ClusterHealth → ClusterHealth
judge h =
    if str_eq h.cluster_state "ok" && h.cluster_slots_ok == 16384
    then say "Cluster is healthy" (mark_healthy h)
    else mark_failed "Cluster is not in healthy state" h
