-- ===== src/Runtime.antt =====
-- `AppRuntime` of app/runtime.py: which services a process builds from the names of its modules. A
-- service is known by whether it is there.
pub mod Wired
use fast_api_layers.Prelude.{String, Bool, true, false, ◌||◌, List, [], ◌∷◌, ◌==◌, if◌then◌else◌}
use fast_api_layers.Effect.{runtime_error, Action, pure, raise, gets, modify, ◌>>=◌, ◌>>◌}

pub record Services : Type 0 where
  pub audit_service : Bool
  pub audit_queries : Bool
  pub registry_commands : Bool
  pub registry_queries : Bool
  pub model_gateway : Bool
  pub execution_queries : Bool
  pub execution_commands : Bool
  -- were the execution commands given a model gateway
  pub execution_gateway : Bool
  pub monitoring_queries : Bool
  pub alert_queries : Bool
  pub projector : Bool
  pub anomaly_detection_service : Bool
  pub drift_detection_service : Bool
  pub alerting_service : Bool

abbrev pub no_services : Services
no_services = record {
  audit_service = false;
  audit_queries = false;
  registry_commands = false;
  registry_queries = false;
  model_gateway = false;
  execution_queries = false;
  execution_commands = false;
  execution_gateway = false;
  monitoring_queries = false;
  alert_queries = false;
  projector = false;
  anomaly_detection_service = false;
  drift_detection_service = false;
  alerting_service = false;
}

abbrev pub all_runtime_modules : List String
all_runtime_modules =
    "registry" ∷ "orchestration" ∷ "orchestration-command" ∷ "orchestration-query" ∷ "monitoring"
    ∷ "alerting" ∷ "audit" ∷ "workers" ∷ []

-- `modules or ALL_RUNTIME_MODULES`
abbrev pub modules_or_all : List String → List String
modules_or_all [] = all_runtime_modules
modules_or_all (m ∷ ms) = m ∷ ms

unfoldable pub includes : List String → String → Bool
includes [] name = false
includes (m ∷ ms) name = m == name || includes ms name

-- Which modules are chosen?
pub record Chosen : Type 0 where
  pub registry : Bool
  pub orchestration : Bool
  pub orchestration_command : Bool
  pub orchestration_query : Bool
  pub monitoring : Bool
  pub alerting : Bool
  pub audit : Bool
  pub workers : Bool

unfoldable pub chosen_of : List String → Chosen
unfolding includes
chosen_of modules = record {
  registry = includes modules "registry";
  orchestration = includes modules "orchestration";
  orchestration_command = includes modules "orchestration-command";
  orchestration_query = includes modules "orchestration-query";
  monitoring = includes modules "monitoring";
  alerting = includes modules "alerting";
  audit = includes modules "audit";
  workers = includes modules "workers";
}

-- `if condition: …`
abbrev pub when : {S : Type 0} → Bool → Action S (Unit {0}) → Action S (Unit {0})
when true m = m
when false m = pure tt

-- `_require`
abbrev pub require : String → Bool → Action Services (Unit {0})
require name true = pure tt
require name false = raise (runtime_error name)

-- `_needs_audit_write_side`
abbrev pub needs_audit_write_side : Chosen → Bool
needs_audit_write_side c = c.registry || c.orchestration || c.orchestration_command || c.workers

abbrev pub start_registry : Action Services (Unit {0})
start_registry = do
  modify (λ s. record s { registry_queries = true })
  audit_service ← gets (λ s. s.audit_service)
  require "audit_service" audit_service
  modify (λ s. record s { registry_commands = true })

abbrev pub start_executions : Action Services (Unit {0})
start_executions = do
  audit_service ← gets (λ s. s.audit_service)
  require "audit_service" audit_service
  modify (λ s. record s { execution_commands = true; execution_gateway = s.model_gateway })

abbrev pub start_workers : Action Services (Unit {0})
start_workers = do
  modify (λ s. record s {
    projector = true;
    anomaly_detection_service = true;
    drift_detection_service = true;
    alerting_service = true;
  })
  audit_service ← gets (λ s. s.audit_service)
  require "audit_service" audit_service
  model_gateway ← gets (λ s. s.model_gateway)
  require "model_gateway" model_gateway
  modify (λ s. record s { execution_commands = true; execution_gateway = true })

-- `AppRuntime.__init__`
unfoldable pub app_runtime : Chosen → Action Services (Unit {0})
app_runtime c = do
  when (needs_audit_write_side c) (modify (λ s. record s { audit_service = true }))
  when c.audit (modify (λ s. record s { audit_queries = true }))
  when c.registry start_registry
  when (c.orchestration || c.workers) (modify (λ s. record s { model_gateway = true }))
  when (c.orchestration || c.orchestration_query)
      (modify (λ s. record s { execution_queries = true }))
  when (c.orchestration || c.orchestration_command) start_executions
  when c.monitoring (modify (λ s. record s { monitoring_queries = true }))
  when c.alerting (modify (λ s. record s { alert_queries = true }))
  when c.workers start_workers
