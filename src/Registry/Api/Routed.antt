-- ===== src/Registry/Api/Routed.antt =====
-- The routes of the registry's commands as one function over the commands.
use fast_api_layers.Prelude.{Bool, true, false, if◌then◌else◌}
use fast_api_layers.Effect.{Action}
use fast_api_layers.Platform.{Host, World}
use fast_api_layers.Http.{Web, HttpRequest, Role, admin, operator}
use fast_api_layers.Registry.Commands.{CommandAccepted}
use fast_api_layers.Registry.Service.{
  Command, agent_create, agent_update, agent_delete, model_create, model_update, model_delete,
  graph_create, graph_update, graph_delete, deployment_create, deployment_update, deployment_delete,
  tool_create, tool_update, tool_delete, environment_create, environment_update, environment_delete,
}
use fast_api_layers.Registry.Api.Mutations.{
  post_agent, put_agent, remove_agent, post_model, put_model, remove_model, post_graph, put_graph,
  remove_graph, post_deployment, put_deployment, remove_deployment, post_tool, put_tool,
  remove_tool, post_environment, put_environment, remove_environment,
}

module _ ⦃h : Host⦄ ⦃web : Web⦄ where
  unfoldable pub route : HttpRequest → Command → Action World CommandAccepted
  route r (agent_create p) = post_agent r p
  route r (agent_update i p) = put_agent r i p
  route r (agent_delete i) = remove_agent r i
  route r (model_create p) = post_model r p
  route r (model_update i p) = put_model r i p
  route r (model_delete i) = remove_model r i
  route r (graph_create p) = post_graph r p
  route r (graph_update i p) = put_graph r i p
  route r (graph_delete i) = remove_graph r i
  route r (deployment_create p) = post_deployment r p
  route r (deployment_update i p) = put_deployment r i p
  route r (deployment_delete i) = remove_deployment r i
  route r (tool_create p) = post_tool r p
  route r (tool_update i p) = put_tool r i p
  route r (tool_delete i) = remove_tool r i
  route r (environment_create p) = post_environment r p
  route r (environment_update i p) = put_environment r i p
  route r (environment_delete i) = remove_environment r i

-- Does a command delete?
abbrev pub deletes : Command → Bool
deletes (agent_delete _) = true
deletes (model_delete _) = true
deletes (graph_delete _) = true
deletes (deployment_delete _) = true
deletes (tool_delete _) = true
deletes (environment_delete _) = true
deletes _ = false

-- the role that the command's route is to ask for: deleting is for administrators
abbrev pub role_for : Command → Role
role_for c = if deletes c then admin else operator
