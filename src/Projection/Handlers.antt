-- ===== src/Projection/Handlers.antt =====
-- The handlers of `ProjectionService`, one for each event type.
pub mod Replay
use fast_api_layers.Prelude.{String, Bool, true, false, none, some, [], ◌∷◌, if◌then◌else◌}
use fast_api_layers.Value.{
  Value, null, text, datetime, obj, end, dict, get, get_or, set, without, truthy,
}
use fast_api_layers.Effect.{Action, pure, gets, lift, ◌>>=◌, ◌>>◌}
use fast_api_layers.Events.{EventEnvelope}
use fast_api_layers.Platform.{Host, str}
use fast_api_layers.Projection.Json.{json_safe, parse_datetime}
use fast_api_layers.Projection.Session.{Table, Session, Orm, find, identity}
use fast_api_layers.Projection.Rows.{
  item, items_of, copy_of, upsert, upsert_alert, delete, update, resolve_fk_or_none,
  ensure_execution_run_placeholder,
}

abbrev pub Handler : Type 0
Handler = EventEnvelope → Action Session (Unit {0})

module _ ⦃h : Host⦄ ⦃o : Orm⦄ where
  -- `_upsert(session, model_cls, event.payload[key])`
  unfoldable pub upsert_item : Table → String → Handler
  upsert_item table key event = do
    value ← lift (item key event.payload)
    payload ← lift (items_of value)
    upsert table payload

  -- `agent.created`: the agent and its first version
  unfoldable pub handle_agent_created : Handler
  handle_agent_created event = do
    agent_payload ← lift (item "agent" event.payload)
    version_payload ← lift (item "agent_version" event.payload)
    agent ← lift (items_of agent_payload)
    upsert Table.agents agent
    version ← lift (items_of version_payload)
    upsert Table.agent_versions version

  unfoldable pub handle_model_registered : Handler
  handle_model_registered event = do
    upsert_item Table.model_endpoints "model_endpoint" event
    upsert_item Table.model_versions "model_version" event

  -- An environment in the payload comes first.
  unfoldable pub handle_deployment_created : Handler
  handle_deployment_created event = elim (get "environment" event.payload) [
    | none ↦ upsert_item Table.deployments "deployment" event
    | some environment ↦ do
      payload ← lift (items_of environment)
      upsert Table.environments payload
      upsert_item Table.deployments "deployment" event
  ]

  unfoldable pub handle_execution_started : Handler
  handle_execution_started event = do
    run ← lift (item "execution_run" event.payload)
    payload ← lift (copy_of run)
    started_at ← lift (parse_datetime (get_or "started_at" null payload))
    let payload = set "started_at" started_at payload
    finished_at ← lift (parse_datetime (get_or "finished_at" null payload))
    let payload = set "finished_at" finished_at payload
    deployment_id ← resolve_fk_or_none Table.deployments (get_or "deployment_id" null payload)
    let payload = set "deployment_id" deployment_id payload
    graph_definition_id ←
        resolve_fk_or_none Table.graph_definitions (get_or "graph_definition_id" null payload)
    upsert Table.execution_runs (set "graph_definition_id" graph_definition_id payload)

  -- both terminal events
  unfoldable pub handle_execution_finished : Handler
  handle_execution_finished event = do
    execution_run_id ← lift (item "execution_run_id" event.payload)
    status ← lift (item "status" event.payload)
    output_payload ← lift (item "output_payload" event.payload)
    finished ← lift (item "finished_at" event.payload)
    finished_at ← lift (parse_datetime finished)
    update Table.execution_runs execution_run_id (
        obj (
          dict (
            ("status", status)
            ∷ ("output_payload", output_payload)
            ∷ ("finished_at", finished_at)
            ∷ ("error_message", get_or "error_message" null event.payload)
            ∷ [])))

  unfoldable pub handle_step_completed : Handler
  handle_step_completed event = do
    step ← lift (item "execution_step" event.payload)
    payload ← lift (copy_of step)
    started_at ← lift (parse_datetime (get_or "started_at" null payload))
    let payload = set "started_at" started_at payload
    finished_at ← lift (parse_datetime (get_or "finished_at" null payload))
    let payload = set "finished_at" finished_at payload
    execution_run_id ← lift (item "execution_run_id" payload)
    ensure_execution_run_placeholder execution_run_id event.correlation_id
        (str (get_or "trace_id" (text event.trace_id) payload)) (get_or "started_at" null payload)
        end
    upsert Table.execution_steps payload

  -- `health.recorded`, `metric.recorded`: the payload under the event's id, with one date in it
  unfoldable pub upsert_sample : Table → String → Handler
  upsert_sample table date_key event = do
    let payload = set "id" (text event.event_id) event.payload
    date ← lift (item date_key payload)
    parsed ← lift (parse_datetime date)
    upsert table (set date_key parsed payload)

  -- `not (execution_run_id and session.get(ExecutionRun, execution_run_id) is None)`
  unfoldable pub is_run : Value → Action Session Bool
  is_run execution_run_id =
      if truthy execution_run_id
      then (do
        id ← lift (identity execution_run_id)
        found ← gets (λ s. find Table.execution_runs id s.rows)
        pure (elim found [ none ↦ false | some entity ↦ true ]))
      else pure true

  unfoldable pub handle_cost_recorded : Handler
  handle_cost_recorded event = do
    let payload = set "id" (text event.event_id) event.payload
    date ← lift (item "occurred_at" payload)
    occurred_at ← lift (parse_datetime date)
    let payload = set "occurred_at" occurred_at payload
    known ← is_run (get_or "execution_run_id" null payload)
    upsert Table.cost_records (if known then payload else set "execution_run_id" null payload)

  -- `anomaly.detected`, `drift.detected`: the report with its `metadata` renamed
  unfoldable pub upsert_report : Table → String → Handler
  upsert_report table key event = do
    report ← lift (item key event.payload)
    payload ← lift (copy_of report)
    let payload =
        set "metadata_json" (get_or "metadata" (obj end) payload) (without "metadata" payload)
    date ← lift (item "detected_at" payload)
    detected_at ← lift (parse_datetime date)
    upsert table (set "detected_at" detected_at payload)

  -- `alert.created`, `alert.updated`
  unfoldable pub handle_alert : Handler
  handle_alert event = do
    alert ← lift (item "alert" event.payload)
    payload ← lift (copy_of alert)
    upsert_alert payload

  unfoldable pub handle_audit_recorded : Handler
  handle_audit_recorded event = do
    actor ← lift (item "actor" event.payload)
    action ← lift (item "action" event.payload)
    entity_type ← lift (item "entity_type" event.payload)
    entity_id ← lift (item "entity_id" event.payload)
    payload ← lift (item "payload" event.payload)
    upsert Table.audit_events (
        dict (
          ("id", text event.event_id)
          ∷ ("actor", actor)
          ∷ ("action", action)
          ∷ ("entity_type", entity_type)
          ∷ ("entity_id", entity_id)
          ∷ ("correlation_id", text event.correlation_id)
          ∷ ("trace_id", text event.trace_id)
          ∷ ("payload", json_safe payload)
          ∷ ("created_at", datetime event.timestamp)
          ∷ []))

  unfoldable pub handle_worker_heartbeat : Handler
  handle_worker_heartbeat event = do
    let payload =
        set "metadata_json" (get_or "metadata" (obj end) event.payload)
          (without "metadata" event.payload)
    date ← lift (item "last_seen_at" payload)
    last_seen_at ← lift (parse_datetime date)
    upsert Table.worker_heartbeats (set "last_seen_at" last_seen_at payload)

  -- `_update(session, model_cls, event.payload[key], event.payload["changes"])`
  unfoldable pub update_item : Table → String → Handler
  update_item table key event = do
    entity_id ← lift (item key event.payload)
    changes ← lift (item "changes" event.payload)
    update table entity_id changes

unfoldable pub delete_item : Table → String → Handler
delete_item table key event = do entity_id ← lift (item key event.payload); delete table entity_id
