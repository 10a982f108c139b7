-- ===== src/Registry/Api/Reads.antt =====
-- app/modules/registry/api.py: the routes that read.
use fast_api_layers.Prelude.{ℕ, String, Option}
use fast_api_layers.Value.{Value}
use fast_api_layers.Effect.{Action, lift, ◌>>◌}
use fast_api_layers.Platform.{Host, World}
use fast_api_layers.Http.{Web, HttpRequest, viewer, require_role}
use fast_api_layers.Http.Paging.{listing}
use fast_api_layers.ReadSide.{Database, Page}
use fast_api_layers.Registry.Queries.{
  list_agents, get_agent, list_models, get_model, list_graphs, get_graph, list_deployments,
  get_deployment, list_tools, get_tool, list_environments, get_environment,
}

module _ ⦃h : Host⦄ ⦃web : Web⦄ ⦃db : Database⦄ where
  unfoldable pub read_agents : HttpRequest → Option ℕ → Option ℕ → Option String → Action World Page
  read_agents request page page_size q =
      listing request page page_size (λ page page_size. list_agents page page_size q)

  unfoldable pub read_agent : HttpRequest → String → Action World Value
  read_agent request agent_id = require_role viewer request >> lift (get_agent agent_id)

  unfoldable pub read_models : HttpRequest → Option ℕ → Option ℕ → Option String → Action World Page
  read_models request page page_size q =
      listing request page page_size (λ page page_size. list_models page page_size q)

  unfoldable pub read_model : HttpRequest → String → Action World Value
  read_model request model_id = require_role viewer request >> lift (get_model model_id)

  unfoldable pub read_graphs : HttpRequest → Option ℕ → Option ℕ → Option String → Action World Page
  read_graphs request page page_size q =
      listing request page page_size (λ page page_size. list_graphs page page_size q)

  unfoldable pub read_graph : HttpRequest → String → Action World Value
  read_graph request graph_id = require_role viewer request >> lift (get_graph graph_id)

  unfoldable pub read_deployments :
      HttpRequest → Option ℕ → Option ℕ → Option String → Action World Page
  read_deployments request page page_size q =
      listing request page page_size (λ page page_size. list_deployments page page_size q)

  unfoldable pub read_deployment : HttpRequest → String → Action World Value
  read_deployment request deployment_id =
      require_role viewer request >> lift (get_deployment deployment_id)

  unfoldable pub read_tools : HttpRequest → Option ℕ → Option ℕ → Option String → Action World Page
  read_tools request page page_size q =
      listing request page page_size (λ page page_size. list_tools page page_size q)

  unfoldable pub read_tool : HttpRequest → String → Action World Value
  read_tool request tool_id = require_role viewer request >> lift (get_tool tool_id)

  unfoldable pub read_environments :
      HttpRequest → Option ℕ → Option ℕ → Option String → Action World Page
  read_environments request page page_size q =
      listing request page page_size (λ page page_size. list_environments page page_size q)

  unfoldable pub read_environment : HttpRequest → String → Action World Value
  read_environment request environment_id =
      require_role viewer request >> lift (get_environment environment_id)
