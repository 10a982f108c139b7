-- ===== src/Registry/Commands.antt =====
-- app/modules/registry/commands.py: the envelope that each command builds, and the three calls
-- that each command ends with.
pub mod Outcome
use fast_api_layers.Prelude.{String, [], ◌∷◌}
use fast_api_layers.Value.{Fields, text, dict}
use fast_api_layers.Effect.{Action, pure, ◌>>=◌, ◌>>◌}
use fast_api_layers.Events.{EventEnvelope}
use fast_api_layers.Topics.{registry_events_topic}
use fast_api_layers.Platform.{Host, World, event_envelope, publish}
use fast_api_layers.Platform.Context.{get_correlation_id, get_trace_id}
use fast_api_layers.Audit.{publish_audit_event}

-- app/domain/schemas.py
pub record CommandAccepted : Type 0 where
  pub entity_id : String
  pub event_id : String
  pub event_type : String
  pub status : String
  pub correlation_id : String

abbrev pub accepted : String → EventEnvelope → CommandAccepted
accepted entity_id event = record {
  entity_id = entity_id;
  event_id = event.event_id;
  event_type = event.event_type;
  status = "accepted";
  correlation_id = event.correlation_id;
}

module _ ⦃h : Host⦄ where
  -- the envelope of a registry event; `aggregate` is its only metadata
  unfoldable pub registry_event : String → String → Fields → String → Action World EventEnvelope
  registry_event event_type entity_id payload aggregate = do
    correlation_id ← get_correlation_id
    trace_id ← get_trace_id
    event_envelope event_type correlation_id trace_id "api.registry" entity_id payload
        (dict (("aggregate", text aggregate) ∷ []))

  -- the end of every command: the domain event, the audit event, the reply
  unfoldable pub announce : EventEnvelope → String → String → String → Action World CommandAccepted
  announce event action entity_type entity_id = do
    publish registry_events_topic event
    publish_audit_event action entity_type entity_id event.payload
    pure (accepted entity_id event)
