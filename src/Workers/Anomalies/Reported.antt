-- ===== src/Workers/Anomalies/Reported.antt =====
-- From a finding to its event, and from the event to the signal of an alert.
use Prim.Native.String.{◌++◌ as append}
use fast_api_layers.Prelude.{
  ℕ, ◌+◌, String, ◌≡◌, refl, sym, ◌∙◌, none, some, List, [], ◌∷◌, ◌++◌, map, reverse, append_assoc,
  append-nil, ◌==◌, true,
}
use fast_api_layers.Value.{Value, text, float, Fields, dict, get}
use fast_api_layers.Effect.{ok}
use fast_api_layers.Events.{EventEnvelope}
use fast_api_layers.Topics.{anomaly_events_topic}
use fast_api_layers.Platform.{Host, World, uuid4, utc_now, str, event_envelope}
use fast_api_layers.Platform.Settled.{built, drawn, delivered, publish-ok}
use fast_api_layers.Monitoring.Floats.{Floats}
use fast_api_layers.Monitoring.Anomaly.{AnomalyFinding, Detector, evaluate}
use fast_api_layers.Alerting.{Signal}
use fast_api_layers.Workers.Anomalies.{
  History, Subject, anomaly_report, metric_metadata, metric_subject, publish_anomaly,
  publish_anomalies, handle_metric_event, anomaly_handler,
}
use fast_api_layers.Workers.Alerts.{signal_of}

module _ ⦃h : Host⦄ (event : EventEnvelope) (entity_type entity_id : String) where
  -- the signal that an alert on a finding starts from
  abbrev pub anomaly_signal : AnomalyFinding → EventEnvelope → Signal
  anomaly_signal finding e = record {
    signal_type = "anomaly";
    source_event = e;
    severity = finding.severity;
    title = append "Anomaly detected: " finding.anomaly_type;
    description =
        append entity_type
          (append "=" (append entity_id (append " score=" (str (float finding.score)))));
    entity_type = entity_type;
    entity_id = entity_id;
  }

  -- An event tells of a finding: it goes on with the trace of `event`, and the alert handler reads
  -- the finding's signal from it.
  pub record Tells (finding : AnomalyFinding) (e : EventEnvelope) : Type 0 where
    pub type_eq : e.event_type ≡ "anomaly.detected"
    pub correlation_eq : e.correlation_id ≡ event.correlation_id
    pub trace_eq : e.trace_id ≡ event.trace_id
    pub signal_eq :
        (w : World)
        → signal_of "anomaly" "anomaly_report" "anomaly_type" "Anomaly detected: " e w
          ≡ (ok (anomaly_signal finding e), w)

  -- one event for each finding, in order
  abbrev pub Reported : List AnomalyFinding → List EventEnvelope → Type 0
  Reported [] [] = Unit
  Reported [] (e ∷ es) = ⊥
  Reported (finding ∷ findings) [] = ⊥
  Reported (finding ∷ findings) (e ∷ es) = Tells finding e × Reported findings es

  module _ (metadata : AnomalyFinding → Fields) where
    abbrev subject_texts : Subject
    subject_texts = record {
      entity_type = text entity_type;
      entity_id = text entity_id;
      metadata = metadata;
    }

    -- the event of a finding at `w`
    abbrev report_event : AnomalyFinding → World → EventEnvelope
    report_event finding w =
        built "anomaly.detected" event.correlation_id event.trace_id "worker.anomaly"
          (h.uuid w.uuids)
          (anomaly_report subject_texts finding (h.uuid (w.uuids + 1)) (h.now w.clock))
          (dict (("aggregate", text "anomaly") ∷ []))
          (record w { uuids = w.uuids + 1 + 1; clock = w.clock + 1 })

    report_event-Tells :
        (finding : AnomalyFinding) (w : World) → Tells finding (report_event finding w)
    unfolding anomaly_report signal_of get
    report_event-Tells finding w = record {
      type_eq = refl;
      correlation_eq = refl;
      trace_eq = refl;
      signal_eq = λ w'. refl;
    }

    module _ (accepts : (n : ℕ) → h.publish_error n ≡ none) where
      publish_anomaly-eq :
          (finding : AnomalyFinding) (w : World)
          → publish_anomaly event (ok subject_texts) finding w ≡ (
            ok tt,
            delivered anomaly_events_topic
                (report_event finding w)
                (drawn (record w { uuids = w.uuids + 1 + 1; clock = w.clock + 1 })),
          )
      unfolding publish_anomaly uuid4 utc_now event_envelope
      publish_anomaly-eq finding w =
          publish-ok anomaly_events_topic (report_event finding w)
            (drawn (record w { uuids = w.uuids + 1 + 1; clock = w.clock + 1 })) (accepts _)

      pub publish_anomalies-Reported :
          (findings : List AnomalyFinding) (w : World)
          → let out = publish_anomalies event (ok subject_texts) findings w in
            (es : List EventEnvelope) × (out.0 ≡ ok tt)
            × Reported findings es
            × (out.1.published ≡ w.published ++ map (λ e. (anomaly_events_topic, e)) es)
      unfolding publish_anomalies
      publish_anomalies-Reported [] w = ([], refl, tt, sym (append-nil w.published))
      publish_anomalies-Reported (finding ∷ findings) w =
          let e = report_event finding w in
          let w' =
            delivered anomaly_events_topic e
              (drawn (record w { uuids = w.uuids + 1 + 1; clock = w.clock + 1 })) in
          let (es, returned, told, log) = publish_anomalies-Reported findings w' in
          rw (publish_anomaly-eq finding w) (
            e ∷ es,
            returned,
            (report_event-Tells finding w, told),
            log ∙ append_assoc w.published ((anomaly_events_topic, e) ∷ []) _,
          )

metric_subject-eq :
    (payload : Fields) {name : Value} {entity_type entity_id : String}
    → get "metric_name" payload ≡ some name
    → get "entity_type" payload ≡ some (text entity_type)
    → get "entity_id" payload ≡ some (text entity_id)
    → metric_subject payload
      ≡ ok (record {
        entity_type = text entity_type;
        entity_id = text entity_id;
        metadata = metric_metadata name;
      })
metric_subject-eq payload q r s = rw (r, metric_subject) (rw s (rw q refl))

-- While the publisher accepts every event, the anomaly handler reports a metric event whose payload
-- has a name, texts for the entity and its type, and a number for a value: it returns and publishes
-- one `anomaly.detected` for each finding of the detectors on the history and the new value, in the
-- order of the findings, with the correlation and the trace of the metric event; and the alert
-- handler reads from each of them the signal of its finding.
pub anomaly_handler-Reported :
    ⦃h : Host⦄ ⦃f : Floats⦄ (history : History) (detectors : List Detector)
    (accepts : (n : ℕ) → h.publish_error n ≡ none) (event : EventEnvelope) (w : World)
    {name value : Value} {entity_type entity_id : String} {observed : ℕ}
    → (event.event_type == "metric.recorded") ≡ true
    → get "metric_name" event.payload ≡ some name
    → get "entity_type" event.payload ≡ some (text entity_type)
    → get "entity_id" event.payload ≡ some (text entity_id)
    → get "value" event.payload ≡ some value
    → f.to_float value ≡ ok observed
    → let out = anomaly_handler history detectors event w in
      (es : List EventEnvelope) × (out.0 ≡ ok tt)
      × Reported event entity_type entity_id
          (evaluate detectors
            (reverse (history.of_metric name (text entity_id) 20) ++ observed ∷ []))
          es
      × (out.1.published ≡ w.published ++ map (λ e. (anomaly_events_topic, e)) es)
unfolding anomaly_handler handle_metric_event
anomaly_handler-Reported history detectors accepts event w {name} {entity_type = t} {entity_id = i}
      p q r s v o =
    rw (p) (
      rw q (
        rw s (
          rw v (
            rw o (
              rw (metric_subject-eq event.payload q r s)
                (publish_anomalies-Reported event t i (metric_metadata name) accepts _ w))))))
