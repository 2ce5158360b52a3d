-- ===== src/Adapters.antt =====
-- src/adapters/mod.rs: the adapters' connections and health. Each adapter is its flag `connected`;
-- the five are polled in the order in which they are joined, since none of them waits.
pub mod Gate
pub mod ConfigManager
pub mod MemoryGraph
pub mod Registry
pub mod CostOps
pub mod Observatory
pub mod Connections
use analytics_hub.Prelude.{
  ℕ, String, Option, none, some, Bool, true, false, List, [], ◌∷◌, if◌then◌else◌, Outcome, ok, err,
}
use analytics_hub.Prelude.Int.{ℤ}
use analytics_hub.Prelude.Effects.{Effect, continue, ◌>>=◌, ◌>>◌}

pub record AdapterHealth : Type 0 where
  pub adapter_name : String
  pub is_healthy : Bool
  pub latency_ms : Option ℕ
  pub last_successful_fetch : Option ℤ
  pub error_message : Option String

unfoldable pub healthy : String → ℕ → ℤ → AdapterHealth
healthy adapter_name latency_ms now = record {
  adapter_name = adapter_name;
  is_healthy = true;
  latency_ms = some latency_ms;
  last_successful_fetch = some now;
  error_message = none;
}

unfoldable pub unhealthy : String → String → AdapterHealth
unhealthy adapter_name error = record {
  adapter_name = adapter_name;
  is_healthy = false;
  latency_ms = none;
  last_successful_fetch = none;
  error_message = some error;
}

-- `EcosystemAdapter` as all five implement it.
unfoldable pub connect : Effect Bool String (Unit {0})
connect connected = (ok tt, true)

unfoldable pub disconnect : Effect Bool String (Unit {0})
disconnect connected = (ok tt, false)

unfoldable pub health_check : String → ℕ → ℤ → Bool → Outcome AdapterHealth String
health_check name latency_ms now true = ok (healthy name latency_ms now)
health_check name latency_ms now false = ok (unhealthy name "Not connected")

pub record AdapterManager : Type 0 where
  pub observatory : Bool
  pub costops : Bool
  pub memory_graph : Bool
  pub registry : Bool
  pub config_manager : Bool

-- `AdapterManager::new`, where the configurations can be read.
unfoldable pub new_manager : AdapterManager
new_manager = record {
  observatory = false;
  costops = false;
  memory_graph = false;
  registry = false;
  config_manager = false;
}

pub data Adapter : Type 0 where
  the_observatory the_costops the_memory_graph the_registry the_config_manager : Adapter

unfoldable pub connected : Adapter → AdapterManager → Bool
connected the_observatory m = m.observatory
connected the_costops m = m.costops
connected the_memory_graph m = m.memory_graph
connected the_registry m = m.registry
connected the_config_manager m = m.config_manager

unfoldable pub set_connected : Adapter → Bool → AdapterManager → AdapterManager
set_connected the_observatory b m = record m { observatory = b }
set_connected the_costops b m = record m { costops = b }
set_connected the_memory_graph b m = record m { memory_graph = b }
set_connected the_registry b m = record m { registry = b }
set_connected the_config_manager b m = record m { config_manager = b }

-- A method of one adapter of the manager.
unfoldable pub on :
    Adapter → Effect Bool String (Unit {0}) → Effect AdapterManager String (Unit {0})
on a method m = let (result, b) = method (connected a m) in (result, set_connected a b m)

-- `try_join!` over a method of all five.
unfoldable pub try_join : Effect Bool String (Unit {0}) → Effect AdapterManager String (Unit {0})
try_join method = do
  on the_observatory method
  on the_costops method
  on the_memory_graph method
  on the_registry method
  on the_config_manager method

unfoldable pub connect_all : Effect AdapterManager String (Unit {0})
connect_all = try_join connect

unfoldable pub disconnect_all : Effect AdapterManager String (Unit {0})
disconnect_all = try_join disconnect

unfoldable pub health_or : String → Outcome AdapterHealth String → AdapterHealth
health_or name (ok h) = h
health_or name (err e) = unhealthy name e

-- `latency` is how long the check of an adapter takes.
unfoldable pub health_check_all : (Adapter → ℕ) → ℤ → AdapterManager → List AdapterHealth
health_check_all latency now m =
    let checked = λ (a : Adapter) (name : String).
      health_or name (health_check name (latency a) now (connected a m)) in
    checked the_observatory "observatory"
    ∷ checked the_costops "costops"
    ∷ checked the_memory_graph "memory_graph"
    ∷ checked the_registry "registry"
    ∷ checked the_config_manager "config_manager"
    ∷ []
