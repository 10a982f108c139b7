-- ===== src/Projection/Service/Replay.antt =====
-- The projection of an event that is delivered again.
use fast_api_layers.Prelude.{◌≡◌, refl, Option-cases, inl, inr}
use fast_api_layers.Effect.{ok}
use fast_api_layers.Events.{EventEnvelope}
use fast_api_layers.Platform.{Host}
use fast_api_layers.Projection.Session.{Table, Session, Orm}
use fast_api_layers.Projection.Rows.Replay.{Replayable}
use fast_api_layers.Projection.Service.{
  HandlerName, agent_created, agent_updated, agent_deleted, model_registered, model_updated,
  model_deleted, graph_created, graph_updated, graph_deleted, deployment_created,
  deployment_updated, deployment_deleted, tool_created, tool_updated, tool_deleted,
  environment_created, environment_updated, environment_deleted, execution_started,
  execution_finished, execution_failed, step_completed, health_recorded, metric_recorded,
  cost_recorded, anomaly_detected, drift_detected, alert_created, alert_updated, audit_recorded,
  worker_heartbeat, methods, lookup_method, replace_dots, run_handler, apply,
}
use fast_api_layers.Projection.Handlers.Replay.{
  upsert_item-Replayable, agent_created-Replayable, model_registered-Replayable,
  deployment_created-Replayable, execution_started-Replayable, execution_finished-Replayable,
  step_completed-Replayable, upsert_sample-Replayable, cost_recorded-Replayable,
  upsert_report-Replayable, alert-Replayable, audit_recorded-Replayable,
  worker_heartbeat-Replayable, update_item-Replayable, delete_item-Replayable,
}

module _ ⦃h : Host⦄ ⦃o : Orm⦄ (event : EventEnvelope) where
  run_handler-Replayable : (name : HandlerName) → Replayable (run_handler name event)
  unfolding run_handler
  run_handler-Replayable agent_created = agent_created-Replayable event
  run_handler-Replayable agent_updated = update_item-Replayable event Table.agents "agent_id"
  run_handler-Replayable agent_deleted = delete_item-Replayable event Table.agents "agent_id"
  run_handler-Replayable model_registered = model_registered-Replayable event
  run_handler-Replayable model_updated =
      update_item-Replayable event Table.model_endpoints "model_endpoint_id"
  run_handler-Replayable model_deleted =
      delete_item-Replayable event Table.model_endpoints "model_endpoint_id"
  run_handler-Replayable graph_created =
      upsert_item-Replayable event Table.graph_definitions "graph_definition"
  run_handler-Replayable graph_updated =
      update_item-Replayable event Table.graph_definitions "graph_definition_id"
  run_handler-Replayable graph_deleted =
      delete_item-Replayable event Table.graph_definitions "graph_definition_id"
  run_handler-Replayable deployment_created = deployment_created-Replayable event
  run_handler-Replayable deployment_updated =
      update_item-Replayable event Table.deployments "deployment_id"
  run_handler-Replayable deployment_deleted =
      delete_item-Replayable event Table.deployments "deployment_id"
  run_handler-Replayable tool_created =
      upsert_item-Replayable event Table.tool_definitions "tool_definition"
  run_handler-Replayable tool_updated =
      update_item-Replayable event Table.tool_definitions "tool_definition_id"
  run_handler-Replayable tool_deleted =
      delete_item-Replayable event Table.tool_definitions "tool_definition_id"
  run_handler-Replayable environment_created =
      upsert_item-Replayable event Table.environments "environment"
  run_handler-Replayable environment_updated =
      update_item-Replayable event Table.environments "environment_id"
  run_handler-Replayable environment_deleted =
      delete_item-Replayable event Table.environments "environment_id"
  run_handler-Replayable execution_started = execution_started-Replayable event
  run_handler-Replayable execution_finished = execution_finished-Replayable event
  run_handler-Replayable execution_failed = execution_finished-Replayable event
  run_handler-Replayable step_completed = step_completed-Replayable event
  run_handler-Replayable health_recorded =
      upsert_sample-Replayable event Table.health_check_results "checked_at"
  run_handler-Replayable metric_recorded =
      upsert_sample-Replayable event Table.metric_samples "sampled_at"
  run_handler-Replayable cost_recorded = cost_recorded-Replayable event
  run_handler-Replayable anomaly_detected =
      upsert_report-Replayable event Table.anomaly_reports "anomaly_report"
  run_handler-Replayable drift_detected =
      upsert_report-Replayable event Table.drift_reports "drift_report"
  run_handler-Replayable alert_created = alert-Replayable event
  run_handler-Replayable alert_updated = alert-Replayable event
  run_handler-Replayable audit_recorded = audit_recorded-Replayable event
  run_handler-Replayable worker_heartbeat = worker_heartbeat-Replayable event

  -- An event whose projection succeeded can be projected again, which succeeds and leaves every
  -- row and the clock of the session as they are; this holds for each event type.
  pub apply-Replayable :
      (s s' : Session) → apply event s ≡ (ok tt, s') → apply event s' ≡ (ok tt, s')
  unfolding apply
  apply-Replayable = elim (Option-cases (lookup_method (replace_dots event.event_type) methods)) [
    | inl e ↦ rw (e, apply) (λ s s' h. refl)
    | inr (name, e) ↦ rw (e, apply) (run_handler-Replayable name)
  ]
