-- ===== src/Registry/Queries.antt =====
-- app/modules/registry/queries.py: the lists of the registry and its entities by id.
use fast_api_layers.Prelude.{ℕ, String, Option}
use fast_api_layers.Value.{Value}
use fast_api_layers.Effect.{Result}
use fast_api_layers.Projection.Session.{
  agents, model_endpoints, graph_definitions, deployments, tool_definitions, environments,
}
use fast_api_layers.ReadSide.{
  any_of, in_ids, Database, Page, select, where_given, containing, page_of, get_or_not_found,
}

module _ ⦃db : Database⦄ where
  unfoldable pub list_agents : ℕ → ℕ → Option String → Page
  list_agents page page_size q =
      page_of
        (where_given q (λ q. any_of (containing "name" q) (containing "owner" q))
          (select agents "created_at"))
        page page_size

  unfoldable pub get_agent : String → Result Value
  get_agent agent_id = get_or_not_found agents agent_id "Agent not found" "agent_id"

  unfoldable pub list_models : ℕ → ℕ → Option String → Page
  list_models page page_size q =
      page_of
        (where_given q (λ q. any_of (containing "name" q) (containing "provider" q))
          (select model_endpoints "created_at"))
        page page_size

  unfoldable pub get_model : String → Result Value
  get_model model_id =
      get_or_not_found model_endpoints model_id "Model endpoint not found" "model_id"

  unfoldable pub list_graphs : ℕ → ℕ → Option String → Page
  list_graphs page page_size q =
      page_of (where_given q (λ q. containing "name" q) (select graph_definitions "created_at"))
        page page_size

  unfoldable pub get_graph : String → Result Value
  get_graph graph_id =
      get_or_not_found graph_definitions graph_id "Graph definition not found" "graph_id"

  unfoldable pub list_deployments : ℕ → ℕ → Option String → Page
  list_deployments page page_size q =
      page_of
        (where_given q
          (λ q.
            any_of (containing "status" q)
              (in_ids "environment_id" environments (containing "name" q)))
          (select deployments "created_at"))
        page page_size

  unfoldable pub get_deployment : String → Result Value
  get_deployment deployment_id =
      get_or_not_found deployments deployment_id "Deployment not found" "deployment_id"

  unfoldable pub list_tools : ℕ → ℕ → Option String → Page
  list_tools page page_size q =
      page_of (where_given q (λ q. containing "name" q) (select tool_definitions "created_at")) page
        page_size

  unfoldable pub get_tool : String → Result Value
  get_tool tool_id = get_or_not_found tool_definitions tool_id "Tool definition not found" "tool_id"

  unfoldable pub list_environments : ℕ → ℕ → Option String → Page
  list_environments page page_size q =
      page_of (where_given q (λ q. containing "name" q) (select environments "created_at")) page
        page_size

  unfoldable pub get_environment : String → Result Value
  get_environment environment_id =
      get_or_not_found environments environment_id "Environment not found" "environment_id"
