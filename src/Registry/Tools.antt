-- ===== src/Registry/Tools.antt =====
-- app/modules/registry/commands.py: the commands on tools.
use fast_api_layers.Prelude.{String, [], ◌∷◌}
use fast_api_layers.Value.{text, obj, dict, optional}
use fast_api_layers.Effect.{Action, ◌>>=◌}
use fast_api_layers.Platform.{Host, World, uuid4}
use fast_api_layers.Registry.Requests.{CreateToolRequest, UpdateToolRequest, dump_update_tool}
use fast_api_layers.Registry.Commands.{CommandAccepted, registry_event, announce}

module _ ⦃h : Host⦄ where
  unfoldable pub create_tool : CreateToolRequest → Action World CommandAccepted
  create_tool p = do
    tool_id ← uuid4
    event ←
        registry_event "tool.created" tool_id
          (dict (
            (
              "tool_definition",
              obj (
                  dict (
                    ("id", text tool_id)
                    ∷ ("name", text p.name)
                    ∷ ("description", optional p.description)
                    ∷ ("schema_json", obj p.schema_definition)
                    ∷ ("implementation_path", text p.implementation_path)
                    ∷ [])),
            )
            ∷ []))
          "tool"
    announce event "tool.create" "tool_definition" tool_id

  unfoldable pub update_tool : String → UpdateToolRequest → Action World CommandAccepted
  unfolding dump_update_tool
  update_tool tool_id p = do
    event ←
        registry_event "tool.updated" tool_id
          (dict (("tool_definition_id", text tool_id) ∷ ("changes", obj (dump_update_tool p)) ∷ []))
          "tool"
    announce event "tool.update" "tool_definition" tool_id

  unfoldable pub delete_tool : String → Action World CommandAccepted
  delete_tool tool_id = do
    event ←
        registry_event "tool.deleted" tool_id (dict (("tool_definition_id", text tool_id) ∷ []))
          "tool"
    announce event "tool.delete" "tool_definition" tool_id
