-- ===== src/Registry/Graphs.antt =====
-- app/modules/registry/commands.py: the commands on graphs.
use fast_api_layers.Prelude.{String, [], ◌∷◌}
use fast_api_layers.Value.{text, obj, dict, optional}
use fast_api_layers.Effect.{Action, ◌>>=◌}
use fast_api_layers.Platform.{Host, World, uuid4}
use fast_api_layers.Registry.Requests.{CreateGraphRequest, UpdateGraphRequest, dump_update_graph}
use fast_api_layers.Registry.Commands.{CommandAccepted, registry_event, announce}

module _ ⦃h : Host⦄ where
  unfoldable pub create_graph : CreateGraphRequest → Action World CommandAccepted
  create_graph p = do
    graph_id ← uuid4
    event ←
        registry_event "graph.created" graph_id
          (dict (
            (
              "graph_definition",
              obj (
                  dict (
                    ("id", text graph_id)
                    ∷ ("name", text p.name)
                    ∷ ("description", optional p.description)
                    ∷ ("version", text p.version)
                    ∷ ("entrypoint", text p.entrypoint)
                    ∷ ("definition", obj p.definition)
                    ∷ [])),
            )
            ∷ []))
          "graph"
    announce event "graph.create" "graph_definition" graph_id

  unfoldable pub update_graph : String → UpdateGraphRequest → Action World CommandAccepted
  unfolding dump_update_graph
  update_graph graph_id p = do
    event ←
        registry_event "graph.updated" graph_id
          (dict
            (("graph_definition_id", text graph_id) ∷ ("changes", obj (dump_update_graph p)) ∷ []))
          "graph"
    announce event "graph.update" "graph_definition" graph_id

  unfoldable pub delete_graph : String → Action World CommandAccepted
  delete_graph graph_id = do
    event ←
        registry_event "graph.deleted" graph_id (dict (("graph_definition_id", text graph_id) ∷ []))
          "graph"
    announce event "graph.delete" "graph_definition" graph_id
