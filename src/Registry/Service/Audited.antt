-- ===== src/Registry/Service/Audited.antt =====
-- The two events of a registry command.
use fast_api_layers.Prelude.{ℕ, ◌+◌, String, ◌≡◌, refl, ◌≢◌, [], ◌∷◌}
use fast_api_layers.Value.{Fields, text, dict}
use fast_api_layers.Effect.{Result, ◌>>=◌}
use fast_api_layers.Events.{EventEnvelope}
use fast_api_layers.Topics.{registry_events_topic}
use fast_api_layers.Platform.{Host, World, uuid4}
use fast_api_layers.Platform.Settled.{or-keep, or-ne, built, drawn, delivered, or_uuid-eq}
use fast_api_layers.Registry.Commands.{CommandAccepted, registry_event, announce}
use fast_api_layers.Registry.Commands.Outcome.{
  expected, Audits, settled, registry_event-eq, audit_event, announce-outcome,
}
use fast_api_layers.Registry.Agents.{create_agent, update_agent, delete_agent}
use fast_api_layers.Registry.Models.{create_model, update_model, delete_model}
use fast_api_layers.Registry.Graphs.{create_graph, update_graph, delete_graph}
use fast_api_layers.Registry.Deployments.{create_deployment, update_deployment, delete_deployment}
use fast_api_layers.Registry.Tools.{create_tool, update_tool, delete_tool}
use fast_api_layers.Registry.Environments.{
  create_environment, update_environment, delete_environment,
}
use fast_api_layers.Registry.Service.{
  Command, agent_create, agent_update, agent_delete, model_create, model_update, model_delete,
  graph_create, graph_update, graph_delete, deployment_create, deployment_update, deployment_delete,
  tool_create, tool_update, tool_delete, environment_create, environment_update, environment_delete,
  execute, event_type_of, action_of, entity_type_of,
}

module _ ⦃h : Host⦄ where
  -- The two events of the command that names `event_type`, `action` and `entity_type`, run at `w`.
  abbrev Announced : String → String → String → World → Result CommandAccepted × World → Type 0
  Announced event_type action entity_type w out =
      (e : EventEnvelope) × (a : EventEnvelope) × Audits event_type action entity_type
        w.principal_id w.correlation_id w.trace_id e a
      × ((out.0, out.1.published)
          ≡ expected (h.publish_error w.publish_calls) (h.publish_error (w.publish_calls + 1))
              w.published e a)

  abbrev pub registered : String → String → String → Fields → World → EventEnvelope
  registered event_type entity_id aggregate payload w =
      built event_type (settled w).correlation_id (settled w).trace_id "api.registry" entity_id
        payload (dict (("aggregate", text aggregate) ∷ [])) (settled w)

  command-Announced :
      (uuid_ne : (n : ℕ) → h.uuid n ≢ "")
      → (event_type action entity_type entity_id aggregate : String) (payload : Fields) (w : World)
      → Announced event_type action entity_type w (
          (do
            event ← registry_event event_type entity_id payload aggregate
            announce event action entity_type entity_id)
            w)
  command-Announced uuid_ne event_type action entity_type entity_id aggregate payload w =
      let e = registered event_type entity_id aggregate payload w in
      let w' = delivered registry_events_topic e (drawn (settled w)) in
      (
        e,
        audit_event action entity_type entity_id payload w',
        record {
          correlation_kept = or-keep w.correlation_id _;
          trace_kept = or-keep w.trace_id _;
          event_type_eq = refl;
          audit_type_eq = refl;
          entity_eq = refl;
          correlation_eq = or-keep _ _ (or-ne w.correlation_id _ (uuid_ne _));
          trace_eq = or-keep _ _ (or-ne w.trace_id _ (uuid_ne _));
          payload_eq = refl;
        },
        rw registry_event-eq (announce-outcome e action entity_type (drawn (settled w))),
      )

  -- Where uuids are never empty, each command announces its domain event on `registry.events` and
  -- then the audit event that repeats its payload on `audit.events`, under one correlation and
  -- trace identifier; which of the two are in the log, and what the caller gets, is decided by the
  -- errors of the two publications: an event that was published stays published when the audit
  -- event fails.
  pub execute-Announced :
      (uuid_ne : (n : ℕ) → h.uuid n ≢ "") (c : Command) (w : World)
      → (e : EventEnvelope) × (a : EventEnvelope) × Audits
          (event_type_of c)
          (action_of c)
          (entity_type_of c)
          w.principal_id
          w.correlation_id
          w.trace_id
          e
          a
        × (((execute c w).0, (execute c w).1.published)
            ≡ expected
                (h.publish_error w.publish_calls)
                (h.publish_error (w.publish_calls + 1))
                w.published
                e
                a)
  unfolding execute uuid4 create_agent update_agent delete_agent create_model update_model
      delete_model create_graph update_graph delete_graph create_deployment update_deployment
      delete_deployment create_tool update_tool delete_tool create_environment update_environment
      delete_environment
  execute-Announced uuid_ne (agent_create p) w = command-Announced uuid_ne _ _ _ _ _ _ _
  execute-Announced uuid_ne (agent_update i p) w = command-Announced uuid_ne _ _ _ _ _ _ _
  execute-Announced uuid_ne (agent_delete i) w = command-Announced uuid_ne _ _ _ _ _ _ _
  execute-Announced uuid_ne (model_create p) w = command-Announced uuid_ne _ _ _ _ _ _ _
  execute-Announced uuid_ne (model_update i p) w = command-Announced uuid_ne _ _ _ _ _ _ _
  execute-Announced uuid_ne (model_delete i) w = command-Announced uuid_ne _ _ _ _ _ _ _
  execute-Announced uuid_ne (graph_create p) w = command-Announced uuid_ne _ _ _ _ _ _ _
  execute-Announced uuid_ne (graph_update i p) w = command-Announced uuid_ne _ _ _ _ _ _ _
  execute-Announced uuid_ne (graph_delete i) w = command-Announced uuid_ne _ _ _ _ _ _ _
  execute-Announced uuid_ne (deployment_create p) w =
      rw or_uuid-eq (command-Announced uuid_ne _ _ _ _ _ _ _)
  execute-Announced uuid_ne (deployment_update i p) w = command-Announced uuid_ne _ _ _ _ _ _ _
  execute-Announced uuid_ne (deployment_delete i) w = command-Announced uuid_ne _ _ _ _ _ _ _
  execute-Announced uuid_ne (tool_create p) w = command-Announced uuid_ne _ _ _ _ _ _ _
  execute-Announced uuid_ne (tool_update i p) w = command-Announced uuid_ne _ _ _ _ _ _ _
  execute-Announced uuid_ne (tool_delete i) w = command-Announced uuid_ne _ _ _ _ _ _ _
  execute-Announced uuid_ne (environment_create p) w = command-Announced uuid_ne _ _ _ _ _ _ _
  execute-Announced uuid_ne (environment_update i p) w = command-Announced uuid_ne _ _ _ _ _ _ _
  execute-Announced uuid_ne (environment_delete i) w = command-Announced uuid_ne _ _ _ _ _ _ _
