-- ===== src/Workers/Drifts.antt =====
-- `DriftHandler` of app/workers.py.
pub mod Windows
use fast_api_layers.Prelude.{
  ℕ, ◌-◌, String, List, [], ◌∷◌, ◌==◌, not, ltb, if◌then◌else◌, reverse, take, drop, length,
}
use fast_api_layers.Value.{Value, text, float, datetime, obj, Fields, dict}
use fast_api_layers.Effect.{Action, pure, lift, ◌>>=◌, ◌>>◌}
use fast_api_layers.Events.{EventEnvelope}
use fast_api_layers.Topics.{drift_events_topic}
use fast_api_layers.Platform.{Host, World, uuid4, utc_now, str, event_envelope, publish}
use fast_api_layers.Monitoring.Floats.{Floats}
use fast_api_layers.Monitoring.Drift.{DriftFinding, DriftDetector, evaluate_drift}
use fast_api_layers.Workers.Anomalies.{item}

unfoldable pub drift_report : String → String → DriftFinding → String → ℕ → Fields
drift_report metric_name model_name finding id detected_at = dict (
    (
      "drift_report",
      obj (
          dict (
            ("id", text id)
            ∷ ("drift_type", text finding.drift_type)
            ∷ ("severity", text finding.severity)
            ∷ ("entity_type", text "model")
            ∷ ("entity_id", text model_name)
            ∷ ("metric_name", text metric_name)
            ∷ ("score", float finding.score)
            ∷ ("threshold", float finding.threshold)
            ∷ ("metadata", obj (dict (("reason", text finding.reason) ∷ [])))
            ∷ ("detected_at", datetime detected_at)
            ∷ ("status", text "open")
            ∷ [])),
    )
    ∷ [])

-- `values[:20]` against `values[-10:]`, of 20 values at least
unfoldable pub drift_findings : ⦃f : Floats⦄ → List DriftDetector → List ℕ → List DriftFinding
drift_findings detectors values =
    if ltb (length values) 20
    then []
    else evaluate_drift detectors (take 20 values) (drop (length values - 10) values)

module _ ⦃h : Host⦄ where
  unfoldable pub publish_drift :
      EventEnvelope → String → String → DriftFinding → Action World (Unit {0})
  publish_drift event metric_name model_name finding = do
    entity_id ← uuid4
    id ← uuid4
    detected_at ← utc_now
    report ←
        event_envelope "drift.detected" event.correlation_id event.trace_id "worker.drift" entity_id
          (drift_report metric_name model_name finding id detected_at)
          (dict (("aggregate", text "drift") ∷ []))
    publish drift_events_topic report

  unfoldable pub publish_drifts :
      EventEnvelope → String → String → List DriftFinding → Action World (Unit {0})
  publish_drifts event metric_name model_name [] = pure tt
  publish_drifts event metric_name model_name (finding ∷ findings) = do
    publish_drift event metric_name model_name finding
    publish_drifts event metric_name model_name findings

  -- The query for a metric of a model gives the newest value first; the number is its limit.
  module _ ⦃f : Floats⦄ (of_model : String → String → ℕ → List ℕ)
      (detectors : List DriftDetector) where
    unfoldable pub evaluate_metric : EventEnvelope → String → String → Action World (Unit {0})
    evaluate_metric event metric_name model_name =
        publish_drifts event metric_name model_name
          (drift_findings detectors (reverse (of_model metric_name model_name 40)))

    unfoldable pub drift_handler : EventEnvelope → Action World (Unit {0})
    unfolding evaluate_metric
    drift_handler event =
        if not (event.event_type == "model.inference.recorded") then pure tt else (do
          name ← lift (item "model_name" event.payload)
          let model_name = str name
          evaluate_metric event "model_token_input" model_name
          evaluate_metric event "model_token_output" model_name
          evaluate_metric event "model_latency_ms" model_name)
