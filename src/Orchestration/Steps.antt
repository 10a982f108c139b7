-- ===== src/Orchestration/Steps.antt =====
-- `_step_emitter` and `_publish_metric` of app/modules/orchestration/service.py.
pub mod Elsewhere
use fast_api_layers.Prelude.{ℕ, String, List, [], ◌∷◌, if◌then◌else◌}
use fast_api_layers.Value.{
  Value, null, int, float, text, datetime, obj, Fields, end, dict, get_or, without, truthy,
}
use fast_api_layers.Effect.{Result, ok, err, Action, pure, lift, ◌>>=◌, ◌>>◌}
use fast_api_layers.Topics.{
  agent_steps_topic, system_metrics_topic, model_inference_topic, cost_events_topic,
}
use fast_api_layers.Prelude.{Option, none, some}
use fast_api_layers.Platform.{Host, World, uuid4, utc_now, str, event_envelope, publish}
use fast_api_layers.Orchestration.Run.{Machine, Run, in_world, observe, mapping}
use fast_api_layers.Orchestration.Workflow.Nodes.{Emitter}

module _ ⦃h : Host⦄ where
  -- an event of the orchestration worker, published on a topic
  unfoldable pub emit_event :
      String → String → String → String → String → String → Fields → Action Run (Unit {0})
  emit_event topic event_type correlation_id trace_id entity_id aggregate payload = do
    event ← in_world (
        event_envelope event_type correlation_id trace_id "worker.orchestration" entity_id payload
          (dict (("aggregate", text aggregate) ∷ [])))
    in_world (publish topic event)

  unfoldable pub publish_metric :
      String → String → String → Value → String → String → Action Run (Unit {0})
  publish_metric metric_name entity_type entity_id value correlation_id trace_id = do
    sampled_at ← in_world utc_now
    emit_event system_metrics_topic "metric.recorded" correlation_id trace_id entity_id "metric" (
        dict (
          ("metric_name", text metric_name)
          ∷ ("metric_type", text "gauge")
          ∷ ("entity_type", text entity_type)
          ∷ ("entity_id", text entity_id)
          ∷ ("value", value)
          ∷ ("tags", obj (dict (("service", text "orchestration") ∷ [])))
          ∷ ("sampled_at", datetime sampled_at)
          ∷ []))

-- `Counter.inc`, which refuses some amounts
unfoldable pub count_cost : ⦃m : Machine⦄ → List String → ℕ → Action Run (Unit {0})
count_cost ⦃m⦄ labels amount = elim (m.inc_error amount) [
  | none ↦ observe "compute_call_cost" labels amount
  | some e ↦ lift (err e)
]

module _ ⦃h : Host⦄ ⦃m : Machine⦄ (execution_run_id : String) (model_context : Fields)
    (correlation_id trace_id : String) where
  abbrev model_metric : String → String → ℕ → Action Run (Unit {0})
  model_metric metric_name model_name value =
      publish_metric metric_name "model" model_name (float value) correlation_id trace_id

  -- the metrics of the model that a step called
  unfoldable pub emit_model_metrics : String → ℕ → Fields → Action Run (Unit {0})
  emit_model_metrics model_name duration_ms telemetry = do
    latency ← lift (m.to_float (get_or "latency_ms" (float duration_ms) telemetry))
    model_metric "model_latency_ms" model_name latency
    tokens_in ← lift (m.to_float (get_or "token_input" (int 0) telemetry))
    model_metric "model_token_input" model_name tokens_in
    tokens_out ← lift (m.to_float (get_or "token_output" (int 0) telemetry))
    model_metric "model_token_output" model_name tokens_out

  unfoldable pub emit_inference : String → String → String → ℕ → Fields → Action Run (Unit {0})
  emit_inference step_name agent_name model_name duration_ms telemetry =
      emit_event model_inference_topic "model.inference.recorded" correlation_id trace_id
        execution_run_id "model_inference"
        (dict (
          ("execution_run_id", text execution_run_id)
          ∷ ("step_name", text step_name)
          ∷ ("agent_name", text agent_name)
          ∷ ("provider", get_or "provider" null telemetry)
          ∷ ("model_name", text model_name)
          ∷ ("latency_ms", get_or "latency_ms" (float duration_ms) telemetry)
          ∷ ("token_input", get_or "token_input" (int 0) telemetry)
          ∷ ("token_output", get_or "token_output" (int 0) telemetry)
          ∷ []))

  unfoldable pub emit_cost : ℕ → Fields → Action Run (Unit {0})
  emit_cost finished_at telemetry = do
    cost_usd ← lift (m.to_float (get_or "cost_usd" (float 0) telemetry))
    count_cost
        (str (get_or "agent_id" (text "unknown") model_context)
          ∷ str (get_or "workflow_id" (text "unknown") model_context)
          ∷ str (get_or "environment_id" (text "unknown") model_context)
          ∷ [])
        cost_usd
    emit_event cost_events_topic "cost.recorded" correlation_id trace_id execution_run_id "cost" (
        dict (
          ("execution_run_id", text execution_run_id)
          ∷ ("agent_id", get_or "agent_id" null model_context)
          ∷ ("workflow_id", get_or "workflow_id" null model_context)
          ∷ ("environment_id", get_or "environment_id" null model_context)
          ∷ ("usd_cost", float cost_usd)
          ∷ ("token_input", get_or "token_input" (int 0) telemetry)
          ∷ ("token_output", get_or "token_output" (int 0) telemetry)
          ∷ ("provider", get_or "provider" null telemetry)
          ∷ ("model_name", get_or "model_name" null telemetry)
          ∷ ("occurred_at", datetime finished_at)
          ∷ []))

  -- the metrics, the inference record and the cost of a step that has telemetry
  unfoldable pub emit_telemetry : String → String → ℕ → ℕ → Fields → Action Run (Unit {0})
  emit_telemetry step_name agent_name finished_at duration_ms telemetry = do
    let model_name = str (get_or "model_name" (text "unknown") telemetry)
    emit_model_metrics model_name duration_ms telemetry
    emit_inference step_name agent_name model_name duration_ms telemetry
    emit_cost finished_at telemetry

  -- the telemetry of a step, if there is any
  unfoldable pub emit_if_any : String → String → ℕ → ℕ → Value → Action Run (Unit {0})
  emit_if_any step_name agent_name finished_at duration_ms telemetry =
      if truthy telemetry
      then (do
        fields ← lift (mapping telemetry)
        emit_telemetry step_name agent_name finished_at duration_ms fields)
      else pure tt

  -- `_emit`: the step is `succeeded` in its event, and its duration is observed in seconds.
  unfoldable pub step_emitter : Emitter
  step_emitter step_name agent_name input_payload output_payload token_usage_total duration_ms = do
    finished_at ← in_world utc_now
    started_at ← lift (m.before finished_at duration_ms)
    entity_id ← in_world uuid4
    step_id ← in_world uuid4
    emit_event agent_steps_topic "step.completed" correlation_id trace_id entity_id "execution_step"
        (dict (
          (
            "execution_step",
            obj (
                dict (
                  ("id", text step_id)
                  ∷ ("execution_run_id", text execution_run_id)
                  ∷ ("agent_name", text agent_name)
                  ∷ ("step_name", text step_name)
                  ∷ ("status", text "succeeded")
                  ∷ ("input_payload", obj input_payload)
                  ∷ ("output_payload", obj (without "_telemetry" output_payload))
                  ∷ ("duration_ms", float duration_ms)
                  ∷ ("token_usage_total", int token_usage_total)
                  ∷ ("started_at", datetime started_at)
                  ∷ ("finished_at", datetime finished_at)
                  ∷ ("trace_id", text trace_id)
                  ∷ [])),
          )
          ∷ []))
    observe "execution_step_duration" (agent_name ∷ step_name ∷ "succeeded" ∷ [])
        (m.over duration_ms (m.of_nat 1000))
    publish_metric "step_duration_ms" "execution_step" execution_run_id (float duration_ms)
        correlation_id trace_id
    publish_metric "step_token_usage" "execution_step" execution_run_id (int token_usage_total)
        correlation_id trace_id
    emit_if_any step_name agent_name finished_at duration_ms
        (get_or "_telemetry" (obj end) output_payload)
