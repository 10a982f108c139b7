-- ===== src/Projection/Service.antt =====
-- `ProjectionService.apply`: the handler is looked up by the event's type.
pub mod Replay
use Prim.Native.Char.{code}
use fast_api_layers.Prelude.{String, Option, none, some, List, [], ◌∷◌, ◌==◌, nat_eq, if◌then◌else◌}
use fast_api_layers.Effect.{ok, err, Action, pure, ◌>>◌}
use fast_api_layers.Events.{EventEnvelope}
use fast_api_layers.Platform.{Host}
use fast_api_layers.Projection.Session.{Table, Session, Orm}
use fast_api_layers.Projection.Handlers.{
  Handler, upsert_item, handle_agent_created, handle_model_registered, handle_deployment_created,
  handle_execution_started, handle_execution_finished, handle_step_completed, upsert_sample,
  handle_cost_recorded, upsert_report, handle_alert, handle_audit_recorded, handle_worker_heartbeat,
  update_item, delete_item,
}

-- the `_handle_…` methods, in the order of the source
pub data HandlerName : Type 0 where
  agent_created agent_updated agent_deleted model_registered model_updated : HandlerName
  model_deleted graph_created graph_updated graph_deleted deployment_created : HandlerName
  deployment_updated deployment_deleted tool_created tool_updated tool_deleted : HandlerName
  environment_created environment_updated environment_deleted execution_started : HandlerName
  execution_finished execution_failed step_completed health_recorded metric_recorded : HandlerName
  cost_recorded anomaly_detected drift_detected alert_created alert_updated : HandlerName
  audit_recorded worker_heartbeat : HandlerName

abbrev pub methods : List (String × HandlerName)
methods =
    ("agent_created", agent_created)
    ∷ ("agent_updated", agent_updated)
    ∷ ("agent_deleted", agent_deleted)
    ∷ ("model_registered", model_registered)
    ∷ ("model_updated", model_updated)
    ∷ ("model_deleted", model_deleted)
    ∷ ("graph_created", graph_created)
    ∷ ("graph_updated", graph_updated)
    ∷ ("graph_deleted", graph_deleted)
    ∷ ("deployment_created", deployment_created)
    ∷ ("deployment_updated", deployment_updated)
    ∷ ("deployment_deleted", deployment_deleted)
    ∷ ("tool_created", tool_created)
    ∷ ("tool_updated", tool_updated)
    ∷ ("tool_deleted", tool_deleted)
    ∷ ("environment_created", environment_created)
    ∷ ("environment_updated", environment_updated)
    ∷ ("environment_deleted", environment_deleted)
    ∷ ("execution_started", execution_started)
    ∷ ("execution_finished", execution_finished)
    ∷ ("execution_failed", execution_failed)
    ∷ ("step_completed", step_completed)
    ∷ ("health_recorded", health_recorded)
    ∷ ("metric_recorded", metric_recorded)
    ∷ ("cost_recorded", cost_recorded)
    ∷ ("anomaly_detected", anomaly_detected)
    ∷ ("drift_detected", drift_detected)
    ∷ ("alert_created", alert_created)
    ∷ ("alert_updated", alert_updated)
    ∷ ("audit_recorded", audit_recorded)
    ∷ ("worker_heartbeat", worker_heartbeat)
    ∷ []

unfoldable pub lookup_method : String → List (String × HandlerName) → Option HandlerName
lookup_method name [] = none
lookup_method name ((n, m) ∷ rest) = if n == name then some m else lookup_method name rest

-- `event_type.replace(".", "_")`
unfoldable pub replace_dots : String → String
replace_dots String.[] = String.[]
replace_dots (String.◌∷◌ c s) =
    if nat_eq (code c) b'.' then String.◌∷◌ "_" (replace_dots s) else String.◌∷◌ c (replace_dots s)

module _ ⦃h : Host⦄ ⦃o : Orm⦄ where
  unfoldable pub run_handler : HandlerName → Handler
  run_handler agent_created = handle_agent_created
  run_handler agent_updated = update_item Table.agents "agent_id"
  run_handler agent_deleted = delete_item Table.agents "agent_id"
  run_handler model_registered = handle_model_registered
  run_handler model_updated = update_item Table.model_endpoints "model_endpoint_id"
  run_handler model_deleted = delete_item Table.model_endpoints "model_endpoint_id"
  run_handler graph_created = upsert_item Table.graph_definitions "graph_definition"
  run_handler graph_updated = update_item Table.graph_definitions "graph_definition_id"
  run_handler graph_deleted = delete_item Table.graph_definitions "graph_definition_id"
  run_handler deployment_created = handle_deployment_created
  run_handler deployment_updated = update_item Table.deployments "deployment_id"
  run_handler deployment_deleted = delete_item Table.deployments "deployment_id"
  run_handler tool_created = upsert_item Table.tool_definitions "tool_definition"
  run_handler tool_updated = update_item Table.tool_definitions "tool_definition_id"
  run_handler tool_deleted = delete_item Table.tool_definitions "tool_definition_id"
  run_handler environment_created = upsert_item Table.environments "environment"
  run_handler environment_updated = update_item Table.environments "environment_id"
  run_handler environment_deleted = delete_item Table.environments "environment_id"
  run_handler execution_started = handle_execution_started
  run_handler execution_finished = handle_execution_finished
  run_handler execution_failed = handle_execution_finished
  run_handler step_completed = handle_step_completed
  run_handler health_recorded = upsert_sample Table.health_check_results "checked_at"
  run_handler metric_recorded = upsert_sample Table.metric_samples "sampled_at"
  run_handler cost_recorded = handle_cost_recorded
  run_handler anomaly_detected = upsert_report Table.anomaly_reports "anomaly_report"
  run_handler drift_detected = upsert_report Table.drift_reports "drift_report"
  run_handler alert_created = handle_alert
  run_handler alert_updated = handle_alert
  run_handler audit_recorded = handle_audit_recorded
  run_handler worker_heartbeat = handle_worker_heartbeat

  unfoldable pub apply : Handler
  unfolding lookup_method replace_dots
  apply event = elim (lookup_method (replace_dots event.event_type) methods) [
    | none ↦ pure tt
    | some name ↦ run_handler name event
  ]

module _ ⦃o : Orm⦄ where
  -- the flush, which refuses all that was changed when it refuses a row
  unfoldable pub flush : Action Session (Unit {0})
  flush s = elim (o.violation s.rows) [ none ↦ (ok tt, s) | some e ↦ (err e, s) ]

  -- `ProjectionHandler` of app/workers.py, and the flush of its session. The session flushes before
  -- the later queries of a handler too; between two queries a handler only adds or changes rows, so a
  -- row that is refused then is taken to be refused here.
  unfoldable pub project : ⦃h : Host⦄ → EventEnvelope → Action Session (Unit {0})
  unfolding apply flush
  project event = apply event >> flush
