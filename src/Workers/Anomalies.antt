-- ===== src/Workers/Anomalies.antt =====
-- `AnomalyHandler` of app/workers.py. The queries for the last values are parameters.
pub mod Reported
use fast_api_layers.Prelude.{
  ℕ, String, Option, none, some, List, [], ◌∷◌, ◌++◌, ◌==◌, if◌then◌else◌, reverse,
}
use fast_api_layers.Value.{
  Value, null, text, float, datetime, obj, Fields, dict, get, get_or, truthy,
}
use fast_api_layers.Effect.{key_error, Result, ok, err, Action, pure, lift, or_raise, ◌>>=◌, ◌>>◌}
use fast_api_layers.Events.{EventEnvelope}
use fast_api_layers.Topics.{anomaly_events_topic}
use fast_api_layers.Platform.{Host, World, uuid4, utc_now, str, event_envelope, publish}
use fast_api_layers.Monitoring.Floats.{Floats}
use fast_api_layers.Monitoring.Anomaly.{AnomalyFinding, Detector, evaluate}

-- `payload[key]`
abbrev pub item : String → Fields → Result Value
item key payload = or_raise (key_error key) (get key payload)

-- The history queries, newest value first: by the metric and the entity, and by the workflow; the
-- number is the query's limit.
pub record History : Type 0 where
  pub of_metric : Value → Value → ℕ → List ℕ
  pub of_workflow : Value → ℕ → List ℕ

-- what a report says of the place where it was found
pub record Subject : Type 0 where
  pub entity_type : Value
  pub entity_id : Value
  pub metadata : AnomalyFinding → Fields

unfoldable pub anomaly_report : Subject → AnomalyFinding → String → ℕ → Fields
anomaly_report subject finding id detected_at = dict (
    (
      "anomaly_report",
      obj (
          dict (
            ("id", text id)
            ∷ ("anomaly_type", text finding.anomaly_type)
            ∷ ("severity", text finding.severity)
            ∷ ("entity_type", subject.entity_type)
            ∷ ("entity_id", subject.entity_id)
            ∷ ("score", float finding.score)
            ∷ ("baseline_value", float finding.baseline_value)
            ∷ ("observed_value", float finding.observed_value)
            ∷ ("metadata", obj (subject.metadata finding))
            ∷ ("detected_at", datetime detected_at)
            ∷ ("status", text "open")
            ∷ [])),
    )
    ∷ [])

abbrev pub metric_metadata : Value → AnomalyFinding → Fields
metric_metadata metric_name finding =
    dict (("reason", text finding.reason) ∷ ("metric_name", metric_name) ∷ [])

abbrev pub metric_subject : Fields → Result Subject
metric_subject payload = elim (item "entity_type" payload) [
  | err e ↦ err e
  | ok entity_type ↦ elim (item "entity_id" payload) [
    | err e ↦ err e
    | ok entity_id ↦ elim (item "metric_name" payload) [
      | err e ↦ err e
      | ok metric_name ↦ ok (record {
        entity_type = entity_type;
        entity_id = entity_id;
        metadata = metric_metadata metric_name;
      })
    ]
  ]
]

module _ ⦃h : Host⦄ where
  -- the body of the loop over the findings; the subject is looked up after the identifiers are drawn
  unfoldable pub publish_anomaly :
      EventEnvelope → Result Subject → AnomalyFinding → Action World (Unit {0})
  publish_anomaly event subject finding = do
    entity_id ← uuid4
    id ← uuid4
    subject ← lift subject
    detected_at ← utc_now
    report ←
        event_envelope "anomaly.detected" event.correlation_id event.trace_id "worker.anomaly"
          entity_id (anomaly_report subject finding id detected_at)
          (dict (("aggregate", text "anomaly") ∷ []))
    publish anomaly_events_topic report

  unfoldable pub publish_anomalies :
      EventEnvelope → Result Subject → List AnomalyFinding → Action World (Unit {0})
  publish_anomalies event subject [] = pure tt
  publish_anomalies event subject (finding ∷ findings) = do
    publish_anomaly event subject finding
    publish_anomalies event subject findings

  module _ ⦃f : Floats⦄ (history : History) (detectors : List Detector) where
    unfoldable pub handle_metric_event : EventEnvelope → Action World (Unit {0})
    handle_metric_event event = do
      metric_name ← lift (item "metric_name" event.payload)
      entity_id ← lift (item "entity_id" event.payload)
      value ← lift (item "value" event.payload)
      observed ← lift (f.to_float value)
      publish_anomalies event (metric_subject event.payload) (
          evaluate detectors
            (reverse (history.of_metric metric_name entity_id 20) ++ observed ∷ []))

    -- `payload.get("workflow_id") or payload.get("execution_run_id")`
    abbrev pub workflow_of : Fields → Value
    workflow_of payload =
        if truthy (get_or "workflow_id" null payload)
        then get_or "workflow_id" null payload
        else get_or "execution_run_id" null payload

    abbrev pub workflow_subject : Fields → Subject
    workflow_subject payload = record {
      entity_type = text "workflow";
      entity_id = text (str (workflow_of payload));
      metadata = metric_metadata (text "usd_cost");
    }

    unfoldable pub handle_cost_event : EventEnvelope → Action World (Unit {0})
    handle_cost_event event = do
      value ← lift (item "usd_cost" event.payload)
      observed ← lift (f.to_float value)
      publish_anomalies event (ok (workflow_subject event.payload)) (
          evaluate detectors
            (reverse (history.of_workflow (workflow_of event.payload) 20) ++ observed ∷ []))

    unfoldable pub anomaly_handler : EventEnvelope → Action World (Unit {0})
    anomaly_handler event =
        if event.event_type == "metric.recorded"
        then handle_metric_event event
        else if event.event_type == "cost.recorded"
        then handle_cost_event event
        else pure tt
