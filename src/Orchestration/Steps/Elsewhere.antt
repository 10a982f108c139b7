-- ===== src/Orchestration/Steps/Elsewhere.antt =====
-- Where the events of a step go.
use fast_api_layers.Prelude.{ℕ, String, ◌≡◌, refl, Option-cases, inl, inr, List, ◌==◌, false}
use fast_api_layers.Value.{Value, Fields, get_or, int, float}
use fast_api_layers.Topics.{
  agent_executions_topic, agent_steps_topic, system_metrics_topic, model_inference_topic,
  cost_events_topic,
}
use fast_api_layers.Platform.{Host, uuid4, utc_now, event_envelope}
use fast_api_layers.Orchestration.Run.{Machine, mapping, in_world, observe}
use fast_api_layers.Orchestration.Run.Quiet.{
  IsQuiet, IsQuiet-lift_then, still, IsQuiet-bind, IsQuiet-if, observe-IsQuiet, uuid4-IsQuiet,
  utc_now-IsQuiet, event_envelope-IsQuiet, publish-IsQuiet,
}
use fast_api_layers.Orchestration.Steps.{
  emit_event, publish_metric, count_cost, emit_model_metrics, emit_inference, emit_cost,
  emit_telemetry, emit_if_any, step_emitter,
}

module _ ⦃h : Host⦄ where
  emit_event-IsQuiet :
      (topic event_type correlation_id trace_id entity_id aggregate : String) (payload : Fields)
      → (topic == agent_executions_topic) ≡ false
      → IsQuiet (emit_event topic event_type correlation_id trace_id entity_id aggregate payload)
  unfolding emit_event
  emit_event-IsQuiet topic event_type correlation_id trace_id entity_id aggregate payload other =
      IsQuiet-bind (in_world (event_envelope _ _ _ _ _ _ _)) _
        (event_envelope-IsQuiet _ _ _ _ _ _ _) λ event. publish-IsQuiet topic event other

  publish_metric-IsQuiet :
      (metric_name entity_type entity_id : String) (value : Value)
      (correlation_id trace_id : String)
      → IsQuiet (publish_metric metric_name entity_type entity_id value correlation_id trace_id)
  unfolding publish_metric
  publish_metric-IsQuiet metric_name entity_type entity_id value correlation_id trace_id =
      IsQuiet-bind (in_world utc_now) _ utc_now-IsQuiet
        λ t. emit_event-IsQuiet system_metrics_topic _ _ _ _ _ _ refl

count_cost-IsQuiet :
    ⦃m : Machine⦄ → (labels : List String) (amount : ℕ) → IsQuiet (count_cost labels amount)
unfolding count_cost
count_cost-IsQuiet ⦃m⦄ labels amount = elim (Option-cases (m.inc_error amount)) [
  | inl e ↦ rw (e, count_cost) (observe-IsQuiet "compute_call_cost" labels amount)
  | inr (x, e) ↦ rw (e, count_cost) still
]

module _ ⦃h : Host⦄ ⦃m : Machine⦄ (run_id : String) (context : Fields) (corr trace : String) where
  emit_model_metrics-IsQuiet :
      (model : String) (duration_ms : ℕ) (telemetry : Fields)
      → IsQuiet (emit_model_metrics run_id context corr trace model duration_ms telemetry)
  unfolding emit_model_metrics
  emit_model_metrics-IsQuiet model duration_ms telemetry =
      IsQuiet-lift_then (m.to_float (get_or "latency_ms" (float duration_ms) telemetry)) _
        λ latency.
          IsQuiet-bind (publish_metric _ _ _ _ _ _) _ (publish_metric-IsQuiet _ _ _ _ _ _) λ _.
            IsQuiet-lift_then (m.to_float (get_or "token_input" (int 0) telemetry)) _ λ tokens_in.
              IsQuiet-bind (publish_metric _ _ _ _ _ _) _ (publish_metric-IsQuiet _ _ _ _ _ _) λ _.
                IsQuiet-lift_then (m.to_float (get_or "token_output" (int 0) telemetry)) _
                  λ tokens_out. publish_metric-IsQuiet _ _ _ _ _ _

  emit_cost-IsQuiet :
      (finished_at : ℕ) (telemetry : Fields)
      → IsQuiet (emit_cost run_id context corr trace finished_at telemetry)
  unfolding emit_cost
  emit_cost-IsQuiet finished_at telemetry =
      IsQuiet-lift_then (m.to_float (get_or "cost_usd" (float 0) telemetry)) _ λ cost.
        IsQuiet-bind (count_cost _ cost) _ (count_cost-IsQuiet _ cost)
          λ _. emit_event-IsQuiet cost_events_topic _ _ _ _ _ _ refl

  emit_inference-IsQuiet :
      (step agent model : String) (duration_ms : ℕ) (telemetry : Fields)
      → IsQuiet (emit_inference run_id context corr trace step agent model duration_ms telemetry)
  unfolding emit_inference
  emit_inference-IsQuiet step agent model duration_ms telemetry =
      emit_event-IsQuiet model_inference_topic _ _ _ _ _ _ refl

  emit_telemetry-IsQuiet :
      (step agent : String) (finished_at duration_ms : ℕ) (telemetry : Fields)
      → IsQuiet
          (emit_telemetry run_id context corr trace step agent finished_at duration_ms telemetry)
  unfolding emit_telemetry
  emit_telemetry-IsQuiet step agent finished_at duration_ms telemetry =
      IsQuiet-bind (emit_model_metrics run_id context corr trace _ duration_ms telemetry) _
        (emit_model_metrics-IsQuiet _ duration_ms telemetry)
        λ _.
          IsQuiet-bind (emit_inference run_id context corr trace step agent _ duration_ms telemetry)
            _ (emit_inference-IsQuiet step agent _ duration_ms telemetry)
            λ _. emit_cost-IsQuiet finished_at telemetry

  emit_if_any-IsQuiet :
      (step agent : String) (finished_at duration_ms : ℕ) (telemetry : Value)
      → IsQuiet (emit_if_any run_id context corr trace step agent finished_at duration_ms telemetry)
  unfolding emit_if_any
  emit_if_any-IsQuiet step agent finished_at duration_ms telemetry =
      IsQuiet-if _ _ _
        (IsQuiet-lift_then (mapping telemetry) _
          λ fields. emit_telemetry-IsQuiet step agent finished_at duration_ms fields)
        still

  pub step_emitter-IsQuiet :
      (step agent : String) (input output : Fields) (tokens duration_ms : ℕ)
      → IsQuiet (step_emitter run_id context corr trace step agent input output tokens duration_ms)
  unfolding step_emitter
  step_emitter-IsQuiet step agent input output tokens duration_ms =
      IsQuiet-bind (in_world utc_now) _ utc_now-IsQuiet λ finished_at.
        IsQuiet-lift_then (m.before finished_at duration_ms) _ λ started_at.
          IsQuiet-bind (in_world uuid4) _ uuid4-IsQuiet λ entity_id.
            IsQuiet-bind (in_world uuid4) _ uuid4-IsQuiet λ step_id.
              IsQuiet-bind (emit_event agent_steps_topic _ _ _ _ _ _) _
                (emit_event-IsQuiet agent_steps_topic _ _ _ _ _ _ refl)
                λ _. IsQuiet-bind (observe _ _ _) _ (observe-IsQuiet _ _ _) λ _.
                  IsQuiet-bind (publish_metric _ _ _ _ _ _) _ (publish_metric-IsQuiet _ _ _ _ _ _)
                    λ _.
                      IsQuiet-bind (publish_metric _ _ _ _ _ _) _
                        (publish_metric-IsQuiet _ _ _ _ _ _)
                        λ _. emit_if_any-IsQuiet step agent finished_at duration_ms _
