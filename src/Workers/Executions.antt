-- ===== src/Workers/Executions.antt =====
-- `ExecutionHandler` of app/workers.py.
use fast_api_layers.Prelude.{Bool, some, not, ◌==◌, if◌then◌else◌}
use fast_api_layers.Effect.{Action, pure, ◌>>◌}
use fast_api_layers.Events.{EventEnvelope}
use fast_api_layers.Platform.{Host}
use fast_api_layers.Platform.Context.{ensure_correlation_id, set_trace_id}
use fast_api_layers.Orchestration.Run.{Machine, Run, in_world}
use fast_api_layers.Orchestration.Workflow.{Engine}
use fast_api_layers.Orchestration.Service.{run_execution_started_event}

module _ ⦃h : Host⦄ ⦃m : Machine⦄ (engine : Engine) where
  -- of a service that has a model gateway or not
  unfoldable pub execution_handler : Bool → EventEnvelope → Action Run (Unit {0})
  execution_handler gateway event =
      if not (event.event_type == "execution.started") then pure tt else (do
        in_world (ensure_correlation_id (some event.correlation_id))
        in_world (set_trace_id (some event.trace_id))
        run_execution_started_event engine gateway event)
