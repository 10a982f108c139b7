-- ===== src/Audit.antt =====
-- app/modules/audit/service.py: every significant action is published as an event.
pub mod Queries
pub mod Api
use fast_api_layers.Prelude.{String, [], ◌∷◌}
use fast_api_layers.Value.{Fields, text, obj, dict}
use fast_api_layers.Effect.{Action, pure, ◌>>=◌, ◌>>◌}
use fast_api_layers.Events.{EventEnvelope}
use fast_api_layers.Topics.{audit_events_topic}
use fast_api_layers.Platform.{Host, World, event_envelope, publish}
use fast_api_layers.Platform.Context.{get_correlation_id, get_trace_id, get_principal_id}

module _ ⦃h : Host⦄ where
  unfoldable pub publish_audit_event :
      String → String → String → Fields → Action World EventEnvelope
  publish_audit_event action entity_type entity_id payload = do
    correlation_id ← get_correlation_id
    trace_id ← get_trace_id
    actor ← get_principal_id
    event ←
        event_envelope "audit.recorded" correlation_id trace_id "api" entity_id
          (dict (
            ("actor", text actor)
            ∷ ("action", text action)
            ∷ ("entity_type", text entity_type)
            ∷ ("entity_id", text entity_id)
            ∷ ("payload", obj payload)
            ∷ []))
          (dict (("module", text "audit") ∷ []))
    publish audit_events_topic event
    pure event
