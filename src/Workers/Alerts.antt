-- ===== src/Workers/Alerts.antt =====
-- `AlertHandler` of app/workers.py. The severity, the entity and the type of a report are texts, as
-- the handlers of this program write them; a value of another kind is refused.
use Prim.Native.String.{◌++◌ as append}
use fast_api_layers.Prelude.{String, Option, none, List, [], ◌==◌, if◌then◌else◌}
use fast_api_layers.Value.{Value, text, obj, Fields}
use fast_api_layers.Effect.{type_error, Result, ok, err, Action, pure, lift, ◌>>=◌}
use fast_api_layers.Events.{EventEnvelope}
use fast_api_layers.Platform.{Host, World, str}
use fast_api_layers.Alerting.{AlertSettings, AlertRow, Signal, Post, process_signal}
use fast_api_layers.Workers.Anomalies.{item}

-- what is indexed by a text: a dictionary
abbrev pub fields_of : Value → Result Fields
fields_of (obj d) = ok d
fields_of _ = err type_error

abbrev pub text_of : Value → Result String
text_of (text s) = ok s
text_of _ = err type_error

abbrev pub text_item : String → Fields → Action World String
text_item key report = do value ← lift (item key report); lift (text_of value)

module _ ⦃h : Host⦄ where
  -- the arguments that the handler gives `process_signal`, in the order of their evaluation
  unfoldable pub signal_of : String → String → String → String → EventEnvelope → Action World Signal
  signal_of signal_type report_key type_key heading event = do
    value ← lift (item report_key event.payload)
    report ← lift (fields_of value)
    severity ← text_item "severity" report
    kind ← text_item type_key report
    entity_type ← text_item "entity_type" report
    entity_id ← text_item "entity_id" report
    score ← lift (item "score" report)
    pure (record {
      signal_type = signal_type;
      source_event = event;
      severity = severity;
      title = append heading kind;
      description =
          append entity_type (append "=" (append entity_id (append " score=" (str score))));
      entity_type = entity_type;
      entity_id = entity_id;
    })

  unfoldable pub alert_handler :
      AlertSettings
      → (String → Option AlertRow)
      → EventEnvelope
      → Action World (Option EventEnvelope × List Post)
  unfolding signal_of
  alert_handler settings find event =
      if event.event_type == "anomaly.detected"
      then (do
        signal ← signal_of "anomaly" "anomaly_report" "anomaly_type" "Anomaly detected: " event
        process_signal settings find signal)
      else if event.event_type == "drift.detected"
      then (do
        signal ← signal_of "drift" "drift_report" "drift_type" "Drift detected: " event
        process_signal settings find signal)
      else pure (none, [])
