-- ===== src/Registry/Agents.antt =====
-- app/modules/registry/commands.py: the commands on agents.
use fast_api_layers.Prelude.{String, true, [], ◌∷◌}
use fast_api_layers.Value.{bool, text, obj, dict, optional}
use fast_api_layers.Effect.{Action, ◌>>=◌}
use fast_api_layers.Platform.{Host, World, uuid4}
use fast_api_layers.Registry.Requests.{CreateAgentRequest, UpdateAgentRequest, dump_update_agent}
use fast_api_layers.Registry.Commands.{CommandAccepted, registry_event, announce}

module _ ⦃h : Host⦄ where
  unfoldable pub create_agent : CreateAgentRequest → Action World CommandAccepted
  create_agent p = do
    agent_id ← uuid4
    agent_version_id ← uuid4
    event ←
        registry_event "agent.created" agent_id
          (dict (
            (
              "agent",
              obj (
                  dict (
                    ("id", text agent_id)
                    ∷ ("name", text p.name)
                    ∷ ("description", optional p.description)
                    ∷ ("owner", optional p.owner)
                    ∷ ("status", text "active")
                    ∷ ("tags", obj p.tags)
                    ∷ [])),
            )
            ∷ (
              "agent_version",
              obj (
                  dict (
                    ("id", text agent_version_id)
                    ∷ ("agent_id", text agent_id)
                    ∷ ("graph_definition_id", optional p.graph_definition_id)
                    ∷ ("version", text p.version)
                    ∷ ("runtime_config", obj p.runtime_config)
                    ∷ ("is_active", bool true)
                    ∷ [])),
            )
            ∷ []))
          "agent"
    announce event "agent.create" "agent" agent_id

  unfoldable pub update_agent : String → UpdateAgentRequest → Action World CommandAccepted
  unfolding dump_update_agent
  update_agent agent_id p = do
    event ←
        registry_event "agent.updated" agent_id
          (dict (("agent_id", text agent_id) ∷ ("changes", obj (dump_update_agent p)) ∷ [])) "agent"
    announce event "agent.update" "agent" agent_id

  unfoldable pub delete_agent : String → Action World CommandAccepted
  delete_agent agent_id = do
    event ←
        registry_event "agent.deleted" agent_id (dict (("agent_id", text agent_id) ∷ [])) "agent"
    announce event "agent.delete" "agent" agent_id
