-- ===== src/Registry/Service.antt =====
-- `RegistryCommandService` as one function over its eighteen commands, with what each of them is
-- called in the event stream and in the audit trail.
pub mod Audited
pub mod Reflected
pub mod Readable
use fast_api_layers.Prelude.{String}
use fast_api_layers.Effect.{Action}
use fast_api_layers.Platform.{Host, World}
use fast_api_layers.Registry.Requests.{
  CreateAgentRequest, UpdateAgentRequest, CreateModelRequest, UpdateModelRequest,
  CreateGraphRequest, UpdateGraphRequest, CreateDeploymentRequest, UpdateDeploymentRequest,
  CreateToolRequest, UpdateToolRequest, CreateEnvironmentRequest, UpdateEnvironmentRequest,
}
use fast_api_layers.Registry.Commands.{CommandAccepted}
use fast_api_layers.Registry.Agents.{create_agent, update_agent, delete_agent}
use fast_api_layers.Registry.Models.{create_model, update_model, delete_model}
use fast_api_layers.Registry.Graphs.{create_graph, update_graph, delete_graph}
use fast_api_layers.Registry.Deployments.{create_deployment, update_deployment, delete_deployment}
use fast_api_layers.Registry.Tools.{create_tool, update_tool, delete_tool}
use fast_api_layers.Registry.Environments.{
  create_environment, update_environment, delete_environment,
}

pub data Command : Type 0 where
  agent_create : CreateAgentRequest → Command
  agent_update : String → UpdateAgentRequest → Command
  agent_delete : String → Command
  model_create : CreateModelRequest → Command
  model_update : String → UpdateModelRequest → Command
  model_delete : String → Command
  graph_create : CreateGraphRequest → Command
  graph_update : String → UpdateGraphRequest → Command
  graph_delete : String → Command
  deployment_create : CreateDeploymentRequest → Command
  deployment_update : String → UpdateDeploymentRequest → Command
  deployment_delete : String → Command
  tool_create : CreateToolRequest → Command
  tool_update : String → UpdateToolRequest → Command
  tool_delete : String → Command
  environment_create : CreateEnvironmentRequest → Command
  environment_update : String → UpdateEnvironmentRequest → Command
  environment_delete : String → Command

module _ ⦃h : Host⦄ where
  unfoldable pub execute : Command → Action World CommandAccepted
  execute (agent_create p) = create_agent p
  execute (agent_update agent_id p) = update_agent agent_id p
  execute (agent_delete agent_id) = delete_agent agent_id
  execute (model_create p) = create_model p
  execute (model_update model_id p) = update_model model_id p
  execute (model_delete model_id) = delete_model model_id
  execute (graph_create p) = create_graph p
  execute (graph_update graph_id p) = update_graph graph_id p
  execute (graph_delete graph_id) = delete_graph graph_id
  execute (deployment_create p) = create_deployment p
  execute (deployment_update deployment_id p) = update_deployment deployment_id p
  execute (deployment_delete deployment_id) = delete_deployment deployment_id
  execute (tool_create p) = create_tool p
  execute (tool_update tool_id p) = update_tool tool_id p
  execute (tool_delete tool_id) = delete_tool tool_id
  execute (environment_create p) = create_environment p
  execute (environment_update environment_id p) = update_environment environment_id p
  execute (environment_delete environment_id) = delete_environment environment_id

-- The domain event that a command announces.
abbrev pub event_type_of : Command → String
event_type_of (agent_create _) = "agent.created"
event_type_of (agent_update _ _) = "agent.updated"
event_type_of (agent_delete _) = "agent.deleted"
event_type_of (model_create _) = "model.registered"
event_type_of (model_update _ _) = "model.updated"
event_type_of (model_delete _) = "model.deleted"
event_type_of (graph_create _) = "graph.created"
event_type_of (graph_update _ _) = "graph.updated"
event_type_of (graph_delete _) = "graph.deleted"
event_type_of (deployment_create _) = "deployment.created"
event_type_of (deployment_update _ _) = "deployment.updated"
event_type_of (deployment_delete _) = "deployment.deleted"
event_type_of (tool_create _) = "tool.created"
event_type_of (tool_update _ _) = "tool.updated"
event_type_of (tool_delete _) = "tool.deleted"
event_type_of (environment_create _) = "environment.created"
event_type_of (environment_update _ _) = "environment.updated"
event_type_of (environment_delete _) = "environment.deleted"

-- The action that the audit trail names.
abbrev pub action_of : Command → String
action_of (agent_create _) = "agent.create"
action_of (agent_update _ _) = "agent.update"
action_of (agent_delete _) = "agent.delete"
action_of (model_create _) = "model.register"
action_of (model_update _ _) = "model.update"
action_of (model_delete _) = "model.delete"
action_of (graph_create _) = "graph.create"
action_of (graph_update _ _) = "graph.update"
action_of (graph_delete _) = "graph.delete"
action_of (deployment_create _) = "deployment.create"
action_of (deployment_update _ _) = "deployment.update"
action_of (deployment_delete _) = "deployment.delete"
action_of (tool_create _) = "tool.create"
action_of (tool_update _ _) = "tool.update"
action_of (tool_delete _) = "tool.delete"
action_of (environment_create _) = "environment.create"
action_of (environment_update _ _) = "environment.update"
action_of (environment_delete _) = "environment.delete"

-- The entity type that the audit trail names.
abbrev pub entity_type_of : Command → String
entity_type_of (agent_create _) = "agent"
entity_type_of (agent_update _ _) = "agent"
entity_type_of (agent_delete _) = "agent"
entity_type_of (model_create _) = "model_endpoint"
entity_type_of (model_update _ _) = "model_endpoint"
entity_type_of (model_delete _) = "model_endpoint"
entity_type_of (graph_create _) = "graph_definition"
entity_type_of (graph_update _ _) = "graph_definition"
entity_type_of (graph_delete _) = "graph_definition"
entity_type_of (deployment_create _) = "deployment"
entity_type_of (deployment_update _ _) = "deployment"
entity_type_of (deployment_delete _) = "deployment"
entity_type_of (tool_create _) = "tool_definition"
entity_type_of (tool_update _ _) = "tool_definition"
entity_type_of (tool_delete _) = "tool_definition"
entity_type_of (environment_create _) = "environment"
entity_type_of (environment_update _ _) = "environment"
entity_type_of (environment_delete _) = "environment"
