-- ===== src/Registry/Commands/Outcome.antt =====
-- What the shared end of the commands does, by which of its two publications fails.
use fast_api_layers.Prelude.{
  ◌+◌, String, ◌≡◌, ◌≢◌, refl, inl, inr, Option, none, some, List, [], ◌∷◌, ◌++◌, append_assoc,
  Option-cases,
}
use fast_api_layers.Value.{Fields, text, dict, obj}
use fast_api_layers.Effect.{PyError, Result, ok, err, pure, continue}
use fast_api_layers.Events.{EventEnvelope}
use fast_api_layers.Topics.{registry_events_topic, audit_events_topic}
use fast_api_layers.Platform.{Host, World, event_envelope, publish}
use fast_api_layers.Platform.Context.{get_principal_id}
use fast_api_layers.Platform.Settled.{
  correlated, traced, get_correlation_id-eq, get_trace_id-eq, built, drawn, delivered, publish-ok,
  publish-err,
}
use fast_api_layers.Audit.{publish_audit_event}
use fast_api_layers.Registry.Commands.{CommandAccepted, accepted, registry_event, announce}

-- The reply and the event log, by the errors of the two publications.
abbrev pub expected :
    Option PyError
    → Option PyError
    → List (String × EventEnvelope)
    → EventEnvelope
    → EventEnvelope
    → Result CommandAccepted × List (String × EventEnvelope)
expected (some x) _ log e a = (err x, log)
expected none (some x) log e a = (err x, log ++ (registry_events_topic, e) ∷ [])
expected none none log e a =
    (ok (accepted e.entity_id e), log ++ (registry_events_topic, e) ∷ (audit_events_topic, a) ∷ [])

-- How a domain event and its audit event belong together, where the context held an actor, a
-- correlation and a trace.
pub record Audits (event_type action entity_type actor correlation trace : String)
    (e a : EventEnvelope) : Type 0 where
  pub correlation_kept : correlation ≢ "" → e.correlation_id ≡ correlation
  pub trace_kept : trace ≢ "" → e.trace_id ≡ trace
  pub event_type_eq : e.event_type ≡ event_type
  pub audit_type_eq : a.event_type ≡ "audit.recorded"
  pub entity_eq : a.entity_id ≡ e.entity_id
  pub correlation_eq : a.correlation_id ≡ e.correlation_id
  pub trace_eq : a.trace_id ≡ e.trace_id
  pub payload_eq :
      a.payload
      ≡ dict (
          ("actor", text actor)
          ∷ ("action", text action)
          ∷ ("entity_type", text entity_type)
          ∷ ("entity_id", text e.entity_id)
          ∷ ("payload", obj e.payload)
          ∷ [])

module _ ⦃h : Host⦄ where
  abbrev pub settled : World → World
  settled w = traced (correlated w)

  pub registry_event-eq :
      (event_type entity_id : String) (payload : Fields) (aggregate : String) (w : World)
      → registry_event event_type entity_id payload aggregate w ≡ (
        ok (
            built event_type
              (settled w).correlation_id
              (settled w).trace_id
              "api.registry"
              entity_id
              payload
              (dict (("aggregate", text aggregate) ∷ []))
              (settled w)),
        drawn (settled w),
      )
  unfolding registry_event event_envelope
  registry_event-eq event_type entity_id payload aggregate w =
      rw get_correlation_id-eq (rw get_trace_id-eq refl)

  -- the audit event that is built at `w`
  abbrev pub audit_event : String → String → String → Fields → World → EventEnvelope
  audit_event action entity_type entity_id payload w =
      built "audit.recorded" (settled w).correlation_id (settled w).trace_id "api" entity_id
        (dict (
          ("actor", text w.principal_id)
          ∷ ("action", text action)
          ∷ ("entity_type", text entity_type)
          ∷ ("entity_id", text entity_id)
          ∷ ("payload", obj payload)
          ∷ []))
        (dict (("module", text "audit") ∷ [])) (settled w)

  pub publish_audit_event-eq :
      (action entity_type entity_id : String) (payload : Fields) (w : World)
      → publish_audit_event action entity_type entity_id payload w
        ≡ continue
            (publish audit_events_topic
              (audit_event action entity_type entity_id payload w)
              (drawn (settled w)))
            (λ _. pure (audit_event action entity_type entity_id payload w))
  unfolding publish_audit_event event_envelope get_principal_id
  publish_audit_event-eq action entity_type entity_id payload w =
      rw get_correlation_id-eq (rw get_trace_id-eq refl)

  pub announce-outcome :
      (event : EventEnvelope) (action entity_type : String) (w : World)
      → let out = announce event action entity_type event.entity_id w in
        (out.0, out.1.published)
        ≡ expected
            (h.publish_error w.publish_calls)
            (h.publish_error (w.publish_calls + 1))
            w.published
            event
            (audit_event action entity_type event.entity_id event.payload
              (delivered registry_events_topic event w))
  unfolding announce
  announce-outcome event action entity_type w =
      elim (Option-cases (h.publish_error w.publish_calls)) [
        | inr (x, e) ↦ rw (publish-err _ event w e) (rw e refl)
        | inl e ↦ rw (publish-ok _ event w e) (
            rw e (
              rw publish_audit_event-eq
                (elim (Option-cases (h.publish_error (w.publish_calls + 1))) [
                  | inr (x, e') ↦
                      rw
                        (publish-err _ _ (drawn (settled (delivered registry_events_topic event w)))
                          e')
                        (rw e')
                  | inl e' ↦
                      rw
                        (publish-ok _ _ (drawn (settled (delivered registry_events_topic event w)))
                          e')
                        (rw e' (rw append_assoc))
                ])))
      ]

  pub expected-accepted :
      {x y : Option PyError} (log : List (String × EventEnvelope)) (e a : EventEnvelope)
      → x ≡ none
      → y ≡ none
      → expected x y log e a ≡ (
        ok (accepted e.entity_id e),
        log ++ (registry_events_topic, e) ∷ (audit_events_topic, a) ∷ [],
      )
  expected-accepted log e a p q = rw p (rw q refl)
