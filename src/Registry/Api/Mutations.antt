-- ===== src/Registry/Api/Mutations.antt =====
-- app/modules/registry/api.py: the routes that pass a command on.
use fast_api_layers.Prelude.{String}
use fast_api_layers.Effect.{Action, ◌>>◌}
use fast_api_layers.Platform.{Host, World}
use fast_api_layers.Http.{Web, HttpRequest, admin, operator, require_role}
use fast_api_layers.Registry.Requests.{
  CreateAgentRequest, UpdateAgentRequest, CreateModelRequest, UpdateModelRequest,
  CreateGraphRequest, UpdateGraphRequest, CreateDeploymentRequest, UpdateDeploymentRequest,
  CreateToolRequest, UpdateToolRequest, CreateEnvironmentRequest, UpdateEnvironmentRequest,
}
use fast_api_layers.Registry.Commands.{CommandAccepted}
use fast_api_layers.Registry.Agents.{create_agent, update_agent, delete_agent}
use fast_api_layers.Registry.Models.{create_model, update_model, delete_model}
use fast_api_layers.Registry.Graphs.{create_graph, update_graph, delete_graph}
use fast_api_layers.Registry.Deployments.{create_deployment, update_deployment, delete_deployment}
use fast_api_layers.Registry.Tools.{create_tool, update_tool, delete_tool}
use fast_api_layers.Registry.Environments.{
  create_environment, update_environment, delete_environment,
}

module _ ⦃h : Host⦄ ⦃web : Web⦄ where
  unfoldable pub post_agent : HttpRequest → CreateAgentRequest → Action World CommandAccepted
  post_agent request payload = require_role operator request >> create_agent payload

  unfoldable pub put_agent :
      HttpRequest → String → UpdateAgentRequest → Action World CommandAccepted
  put_agent request agent_id payload =
      require_role operator request >> update_agent agent_id payload

  unfoldable pub remove_agent : HttpRequest → String → Action World CommandAccepted
  remove_agent request agent_id = require_role admin request >> delete_agent agent_id

  unfoldable pub post_model : HttpRequest → CreateModelRequest → Action World CommandAccepted
  post_model request payload = require_role operator request >> create_model payload

  unfoldable pub put_model :
      HttpRequest → String → UpdateModelRequest → Action World CommandAccepted
  put_model request model_id payload =
      require_role operator request >> update_model model_id payload

  unfoldable pub remove_model : HttpRequest → String → Action World CommandAccepted
  remove_model request model_id = require_role admin request >> delete_model model_id

  unfoldable pub post_graph : HttpRequest → CreateGraphRequest → Action World CommandAccepted
  post_graph request payload = require_role operator request >> create_graph payload

  unfoldable pub put_graph :
      HttpRequest → String → UpdateGraphRequest → Action World CommandAccepted
  put_graph request graph_id payload =
      require_role operator request >> update_graph graph_id payload

  unfoldable pub remove_graph : HttpRequest → String → Action World CommandAccepted
  remove_graph request graph_id = require_role admin request >> delete_graph graph_id

  unfoldable pub post_deployment :
      HttpRequest → CreateDeploymentRequest → Action World CommandAccepted
  post_deployment request payload = require_role operator request >> create_deployment payload

  unfoldable pub put_deployment :
      HttpRequest → String → UpdateDeploymentRequest → Action World CommandAccepted
  put_deployment request deployment_id payload =
      require_role operator request >> update_deployment deployment_id payload

  unfoldable pub remove_deployment : HttpRequest → String → Action World CommandAccepted
  remove_deployment request deployment_id =
      require_role admin request >> delete_deployment deployment_id

  unfoldable pub post_tool : HttpRequest → CreateToolRequest → Action World CommandAccepted
  post_tool request payload = require_role operator request >> create_tool payload

  unfoldable pub put_tool : HttpRequest → String → UpdateToolRequest → Action World CommandAccepted
  put_tool request tool_id payload = require_role operator request >> update_tool tool_id payload

  unfoldable pub remove_tool : HttpRequest → String → Action World CommandAccepted
  remove_tool request tool_id = require_role admin request >> delete_tool tool_id

  unfoldable pub post_environment :
      HttpRequest → CreateEnvironmentRequest → Action World CommandAccepted
  post_environment request payload = require_role operator request >> create_environment payload

  unfoldable pub put_environment :
      HttpRequest → String → UpdateEnvironmentRequest → Action World CommandAccepted
  put_environment request environment_id payload =
      require_role operator request >> update_environment environment_id payload

  unfoldable pub remove_environment : HttpRequest → String → Action World CommandAccepted
  remove_environment request environment_id =
      require_role admin request >> delete_environment environment_id
