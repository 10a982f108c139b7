-- ===== src/Workers/Metrics.antt =====
-- `MetricsAggregationHandler` of app/workers.py.
pub mod Uncorrelated
use fast_api_layers.Prelude.{String, [], ◌∷◌, ◌==◌, if◌then◌else◌}
use fast_api_layers.Value.{text, float, datetime, obj, dict}
use fast_api_layers.Effect.{Action, pure, ◌>>=◌}
use fast_api_layers.Events.{EventEnvelope}
use fast_api_layers.Topics.{system_metrics_topic}
use fast_api_layers.Platform.{Host, World, utc_now, event_envelope, publish}
use fast_api_layers.Platform.Context.{get_correlation_id, get_trace_id}
use fast_api_layers.Monitoring.Floats.{one}

module _ ⦃h : Host⦄ where
  -- `_publish_metric` of the value 1.0
  unfoldable pub publish_counter : String → String → Action World (Unit {0})
  publish_counter metric_name entity_id = do
    correlation_id ← get_correlation_id
    trace_id ← get_trace_id
    sampled_at ← utc_now
    event ←
        event_envelope "metric.recorded" correlation_id trace_id "worker.metrics" entity_id
          (dict (
            ("metric_name", text metric_name)
            ∷ ("metric_type", text "counter")
            ∷ ("entity_type", text "execution")
            ∷ ("entity_id", text entity_id)
            ∷ ("value", float one)
            ∷ ("tags", obj (dict (("source", text "metrics-aggregation-worker") ∷ [])))
            ∷ ("sampled_at", datetime sampled_at)
            ∷ []))
          (dict (("aggregate", text "metric") ∷ []))
    publish system_metrics_topic event

  unfoldable pub metrics_handler : EventEnvelope → Action World (Unit {0})
  unfolding publish_counter
  metrics_handler event =
      if event.event_type == "execution.started"
      then publish_counter "execution_started" event.entity_id
      else if event.event_type == "execution.finished"
      then publish_counter "execution_finished" event.entity_id
      else if event.event_type == "execution.failed"
      then publish_counter "execution_failed" event.entity_id
      else pure tt
