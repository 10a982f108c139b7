-- ===== src/Registry/Service/Readable.antt =====
-- From a command to the row that a reader finds.
use fast_api_layers.Prelude.{
  ℕ, ◌+◌, String, ◌≡◌, refl, ap, ◌∙◌, none, some, [], ◌∷◌, ◌++◌, false, true, ◌⊎◌, inl, inr,
  Option-cases,
}
use fast_api_layers.Value.{Fields, get}
use fast_api_layers.Effect.{PyError, Result, ok, err, ◌>>=◌}
use fast_api_layers.Events.{EventEnvelope}
use fast_api_layers.Topics.{registry_events_topic, audit_events_topic}
use fast_api_layers.Platform.{Host, World, uuid4}
use fast_api_layers.Platform.Settled.{drawn, delivered, or_uuid-eq, chosen}
use fast_api_layers.Projection.Session.{Table, Session, Orm, find, set_attrs}
use fast_api_layers.Projection.Columns.{columns, is_among, are_columns}
use fast_api_layers.Projection.Rows.{normalise_fields, normalise}
use fast_api_layers.Projection.Rows.Written.{
  upsert-written, upserts-written, update-written, delete-written,
}
use fast_api_layers.Projection.Handlers.{
  upsert_item, update_item, delete_item, handle_agent_created, handle_model_registered,
  handle_deployment_created,
}
use fast_api_layers.Projection.Service.{
  project, flush, apply, run_handler, lookup_method, replace_dots,
}
use fast_api_layers.Registry.Commands.{CommandAccepted, accepted, registry_event, announce}
use fast_api_layers.Registry.Commands.Outcome.{
  expected-accepted, settled, registry_event-eq, audit_event, announce-outcome,
}
use fast_api_layers.Registry.Requests.{
  dump_update_agent, dump_update_model, dump_update_graph, dump_update_deployment, dump_update_tool,
  dump_update_environment,
}
use fast_api_layers.Registry.Service.{
  Command, agent_create, agent_update, agent_delete, model_create, model_update, model_delete,
  graph_create, graph_update, graph_delete, deployment_create, deployment_update, deployment_delete,
  tool_create, tool_update, tool_delete, environment_create, environment_update, environment_delete,
  execute,
}
use fast_api_layers.Registry.Service.Audited.{registered}
use fast_api_layers.Registry.Service.Reflected.{
  table_of, Reflects, agent_changes-columns, model_changes-columns, graph_changes-columns,
  deployment_changes-columns, tool_changes-columns, environment_changes-columns,
}
use fast_api_layers.Registry.Agents.{create_agent, update_agent, delete_agent}
use fast_api_layers.Registry.Models.{create_model, update_model, delete_model}
use fast_api_layers.Registry.Graphs.{create_graph, update_graph, delete_graph}
use fast_api_layers.Registry.Deployments.{create_deployment, update_deployment, delete_deployment}
use fast_api_layers.Registry.Tools.{create_tool, update_tool, delete_tool}
use fast_api_layers.Registry.Environments.{
  create_environment, update_environment, delete_environment,
}

module _ ⦃h : Host⦄ ⦃o : Orm⦄ where
  -- The projection of an event ends with the rows of `s'`, unless the database refuses them.
  abbrev pub Projected : EventEnvelope → Session → Session → Type 0
  Projected e s s' =
      ((o.violation s'.rows ≡ none) × (project e s ≡ (ok tt, s')))
      ⊎ ((x : PyError) × (o.violation s'.rows ≡ some x) × ((project e s).0 ≡ err x))

  -- The command was accepted, and the projection of its event does what it is to do.
  abbrev pub Readable : Command → World → Session → Result CommandAccepted × World → Type 0
  Readable c w s out =
      (e : EventEnvelope) × (a : EventEnvelope) × (s' : Session) × (out.0
        ≡ ok (accepted e.entity_id e))
      × (out.1.published ≡ w.published ++ (registry_events_topic, e) ∷ (audit_events_topic, a) ∷ [])
      × (apply e s ≡ (ok tt, s'))
      × Projected e s s'
      × Reflects c (find (table_of c) e.entity_id s.rows) (find (table_of c) e.entity_id s'.rows)

  apply-Projected :
      (e : EventEnvelope) (s s' : Session) → apply e s ≡ (ok tt, s') → Projected e s s'
  unfolding project flush
  apply-Projected e s s' applied = elim (Option-cases (o.violation s'.rows)) [
    | inl accepted_rows ↦ inl (accepted_rows, rw applied (rw (accepted_rows, flush) refl))
    | inr (x, refused_rows) ↦ inr (x, refused_rows, rw applied (rw (refused_rows, flush) refl))
  ]

  module _ (accepts : (n : ℕ) → h.publish_error n ≡ none) where
    -- the end that the commands share
    command-Readable :
        (c : Command) (event_type action entity_type entity_id aggregate : String)
        (payload : Fields) (w : World) (s s' : Session)
        → apply (registered event_type entity_id aggregate payload w) s ≡ (ok tt, s')
        → Reflects c (find (table_of c) entity_id s.rows) (find (table_of c) entity_id s'.rows)
        → Readable c w s (
            (do
              event ← registry_event event_type entity_id payload aggregate
              announce event action entity_type entity_id)
              w)
    command-Readable c event_type action entity_type entity_id aggregate payload w s s' projected
          reflects =
        let e = registered event_type entity_id aggregate payload w in
        let a =
          audit_event action entity_type entity_id payload
            (delivered registry_events_topic e (drawn (settled w))) in
        let outcome =
          announce-outcome e action entity_type (drawn (settled w))
          ∙ expected-accepted w.published e a (accepts _) (accepts _) in
        (
          e,
          a,
          s',
          rw registry_event-eq (ap (λ o. o.0) outcome),
          rw registry_event-eq (ap (λ o. o.1) outcome),
          projected,
          apply-Projected e s s' projected,
          reflects,
        )

    -- While the publisher accepts every event, and where a model's constructor takes the columns of
    -- its table, each of the eighteen commands is accepted and publishes a domain event and an audit
    -- event. On any session, the projector's own steps raise nothing on the domain event and leave of
    -- the entity what the command asked for: a row with its name (for a deployment, its agent
    -- version), the row with the changes that the command gives, to columns of its table, where there
    -- was one, or no row. The projection ends with these rows where the flush accepts them, and
    -- otherwise raises what the flush raises.
    pub execute-Readable :
        (knows : (t : Table) (name : String)
          → is_among name (columns t) ≡ true
          → o.refuses t name ≡ false)
        (c : Command) (w : World) (s : Session)
        → Readable c w s (execute c w)
    unfolding execute create_agent update_agent delete_agent create_model update_model delete_model
        create_graph update_graph delete_graph create_deployment update_deployment delete_deployment
        create_tool update_tool delete_tool create_environment update_environment delete_environment
        uuid4 apply run_handler lookup_method replace_dots get upsert_item update_item delete_item
        handle_agent_created handle_model_registered handle_deployment_created normalise_fields
        normalise set_attrs are_columns columns is_among
    execute-Readable knows (agent_delete i) w s =
        let (s', projected, absent) = delete-written Table.agents i s in
        command-Readable (agent_delete i) _ _ _ _ _ _ w s s' projected absent
    execute-Readable knows (agent_update i p) w s =
        let (s', projected, found) = update-written Table.agents i (dump_update_agent p) s in
        command-Readable (agent_update i p) _ _ _ _ _ _ w s s' projected
          (agent_changes-columns p, found)
    execute-Readable knows (model_delete i) w s =
        let (s', projected, absent) = delete-written Table.model_endpoints i s in
        command-Readable (model_delete i) _ _ _ _ _ _ w s s' projected absent
    execute-Readable knows (model_update i p) w s =
        let (s', projected, found) =
          update-written Table.model_endpoints i (dump_update_model p) s in
        command-Readable (model_update i p) _ _ _ _ _ _ w s s' projected
          (model_changes-columns p, found)
    execute-Readable knows (graph_delete i) w s =
        let (s', projected, absent) = delete-written Table.graph_definitions i s in
        command-Readable (graph_delete i) _ _ _ _ _ _ w s s' projected absent
    execute-Readable knows (graph_update i p) w s =
        let (s', projected, found) =
          update-written Table.graph_definitions i (dump_update_graph p) s in
        command-Readable (graph_update i p) _ _ _ _ _ _ w s s' projected
          (graph_changes-columns p, found)
    execute-Readable knows (deployment_delete i) w s =
        let (s', projected, absent) = delete-written Table.deployments i s in
        command-Readable (deployment_delete i) _ _ _ _ _ _ w s s' projected absent
    execute-Readable knows (deployment_update i p) w s =
        let (s', projected, found) =
          update-written Table.deployments i (dump_update_deployment p) s in
        command-Readable (deployment_update i p) _ _ _ _ _ _ w s s' projected
          (deployment_changes-columns p, found)
    execute-Readable knows (tool_delete i) w s =
        let (s', projected, absent) = delete-written Table.tool_definitions i s in
        command-Readable (tool_delete i) _ _ _ _ _ _ w s s' projected absent
    execute-Readable knows (tool_update i p) w s =
        let (s', projected, found) =
          update-written Table.tool_definitions i (dump_update_tool p) s in
        command-Readable (tool_update i p) _ _ _ _ _ _ w s s' projected
          (tool_changes-columns p, found)
    execute-Readable knows (environment_delete i) w s =
        let (s', projected, absent) = delete-written Table.environments i s in
        command-Readable (environment_delete i) _ _ _ _ _ _ w s s' projected absent
    execute-Readable knows (environment_update i p) w s =
        let (s', projected, found) =
          update-written Table.environments i (dump_update_environment p) s in
        command-Readable (environment_update i p) _ _ _ _ _ _ w s s' projected
          (environment_changes-columns p, found)
    execute-Readable knows (graph_create p) w s =
        let (s', projected, found) =
          upsert-written knows Table.graph_definitions (h.uuid w.uuids) _ s refl refl in
        command-Readable (graph_create p) _ _ _ _ _ _ _ s s' projected (_, found, refl)
    execute-Readable knows (tool_create p) w s =
        let (s', projected, found) =
          upsert-written knows Table.tool_definitions (h.uuid w.uuids) _ s refl refl in
        command-Readable (tool_create p) _ _ _ _ _ _ _ s s' projected (_, found, refl)
    execute-Readable knows (environment_create p) w s =
        let (s', projected, found) =
          upsert-written knows Table.environments (h.uuid w.uuids) _ s refl refl in
        command-Readable (environment_create p) _ _ _ _ _ _ _ s s' projected (_, found, refl)
    execute-Readable knows (agent_create p) w s =
        let (s', projected, found, _, _) =
          upserts-written knows Table.agents Table.agent_versions (h.uuid w.uuids)
            (h.uuid (w.uuids + 1)) _ _ s refl refl refl refl refl in
        command-Readable (agent_create p) _ _ _ _ _ _ _ s s' projected (_, found, refl)
    execute-Readable knows (model_create p) w s =
        let (s', projected, found, _, _) =
          upserts-written knows Table.model_endpoints Table.model_versions (h.uuid w.uuids)
            (h.uuid (w.uuids + 1)) _ _ s refl refl refl refl refl in
        command-Readable (model_create p) _ _ _ _ _ _ _ s s' projected (_, found, refl)
    execute-Readable knows (deployment_create p) w s = rw or_uuid-eq (
        let (s', projected, _, _, found) =
          upserts-written knows Table.environments Table.deployments
            (chosen p.environment_id (record w { uuids = w.uuids + 1 })) (h.uuid w.uuids) _ _ s refl
            refl refl refl refl in
        command-Readable (deployment_create p) _ _ _ _ _ _ _ s s' projected (_, found, refl))
