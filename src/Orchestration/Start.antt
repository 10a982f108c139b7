-- ===== src/Orchestration/Start.antt =====
-- `ExecutionCommandService.create_execution`. The query of the deployment is a parameter, and the
-- jobs that the command hands to `task_spawner` are returned beside its reply.
pub mod Consumed
use fast_api_layers.Prelude.{
  String, Bool, true, false, ◌||◌, Option, none, some, List, [], ◌∷◌, if◌then◌else◌,
}
use fast_api_layers.Value.{Value, null, text, datetime, obj, Fields, end, dict, truthy, optional}
use fast_api_layers.Effect.{domain_error, Result, ok, err, Action, pure, lift, ◌>>=◌, ◌>>◌}
use fast_api_layers.Events.{EventEnvelope}
use fast_api_layers.Topics.{agent_executions_topic}
use fast_api_layers.Platform.{Host, World, uuid4, utc_now, event_envelope, publish}
use fast_api_layers.Platform.Context.{get_correlation_id, get_trace_id}
use fast_api_layers.Audit.{publish_audit_event}
use fast_api_layers.Registry.Commands.{CommandAccepted, accepted}
use fast_api_layers.Orchestration.Service.{Job}

-- app/modules/orchestration/schemas.py
pub record CreateExecutionRequest : Type 0 where
  pub deployment_id : Option String
  pub graph_definition_id : Option String
  pub input_payload : Fields
  pub metadata : Fields

-- what the command reads of a deployment and of the rows that it refers to (app/db/models.py)
pub record AgentVersionRow : Type 0 where
  pub agent_id : String
  pub graph_definition_id : Option String

pub record ModelEndpointRow : Type 0 where
  pub base_url : String
  pub provider : String

pub record ModelVersionRow : Type 0 where
  pub model_name : String
  pub pricing : Fields
  pub model_endpoint : Option ModelEndpointRow

pub record DeploymentRow : Type 0 where
  pub agent_version : Option AgentVersionRow
  pub model_version : Option ModelVersionRow
  pub environment_id : Option String

-- `a or b` of optional texts
abbrev pub either : Option String → Option String → Option String
either a b = if truthy (optional a) then a else b

-- the graph of the request, or of the deployment's agent version
unfoldable pub graph_of : Option String → Option AgentVersionRow → Option String
graph_of requested none = requested
graph_of requested (some version) =
    if truthy (optional version.graph_definition_id)
    then either requested version.graph_definition_id
    else requested

abbrev pub agent_of : Option AgentVersionRow → Value
agent_of none = null
agent_of (some version) = text version.agent_id

unfoldable pub context_of : DeploymentRow → ModelVersionRow → Option String → Fields
context_of deployment version graph = elim version.model_endpoint [
  | none ↦ end
  | some endpoint ↦ dict (
      ("endpoint_url", text endpoint.base_url)
      ∷ ("provider", text endpoint.provider)
      ∷ ("model_name", text version.model_name)
      ∷ ("pricing", obj version.pricing)
      ∷ ("agent_id", agent_of deployment.agent_version)
      ∷ ("environment_id", optional deployment.environment_id)
      ∷ ("workflow_id", optional graph)
      ∷ [])
]

-- the graph and the model context that a deployment supplies
unfoldable pub runtime_of : Option String → DeploymentRow → Option String × Fields
runtime_of requested deployment =
    let graph = graph_of requested deployment.agent_version in
    elim deployment.model_version [
      | none ↦ (graph, end)
      | some version ↦ (graph, context_of deployment version graph)
    ]

-- the two refusals, and else what the run is to use
unfoldable pub target_of :
    (String → Option DeploymentRow) → CreateExecutionRequest → Result (Option String × Fields)
target_of load p = elim p.deployment_id [
  | none ↦
      if truthy (optional p.graph_definition_id)
      then ok (p.graph_definition_id, end)
      else err (
          domain_error "deployment_id or graph_definition_id must be provided"
            "missing_execution_target" end)
  | some deployment_id ↦
      if truthy (text deployment_id)
      then elim (load deployment_id) [
        | none ↦ err (
            domain_error "Deployment not found" "not_found"
              (dict (("deployment_id", text deployment_id) ∷ [])))
        | some deployment ↦ ok (runtime_of p.graph_definition_id deployment)
      ]
      else if truthy (optional p.graph_definition_id)
      then ok (p.graph_definition_id, end)
      else err (
          domain_error "deployment_id or graph_definition_id must be provided"
            "missing_execution_target" end)
]

module _ ⦃h : Host⦄ where
  -- the arguments that the run of the execution is given
  abbrev pub job_for :
      CreateExecutionRequest → Option String × Fields → String → String → String → Job
  job_for p target execution_run_id correlation_id trace_id = record {
    execution_run_id = execution_run_id;
    deployment_id = optional p.deployment_id;
    graph_definition_id = optional target.0;
    input_payload = p.input_payload;
    model_context = target.1;
    correlation_id = correlation_id;
    trace_id = trace_id;
  }

  -- the payload of `execution.started`, of a job that starts at a time
  unfoldable pub started_payload : CreateExecutionRequest → Job → Value → Fields
  started_payload p job started_at = dict (
      (
        "execution_run",
        obj (
            dict (
              ("id", text job.execution_run_id)
              ∷ ("deployment_id", job.deployment_id)
              ∷ ("graph_definition_id", job.graph_definition_id)
              ∷ ("status", text "running")
              ∷ ("input_payload", obj job.input_payload)
              ∷ ("output_payload", null)
              ∷ ("started_at", started_at)
              ∷ ("finished_at", null)
              ∷ ("correlation_id", text job.correlation_id)
              ∷ ("trace_id", text job.trace_id)
              ∷ ("error_message", null)
              ∷ [])),
      )
      ∷ ("metadata", obj p.metadata)
      ∷ (
        "runtime_context",
        obj (
            dict (
              ("deployment_id", job.deployment_id)
              ∷ ("graph_definition_id", job.graph_definition_id)
              ∷ ("input_payload", obj job.input_payload)
              ∷ ("model_context", obj job.model_context)
              ∷ [])),
      )
      ∷ [])

  -- the publication of a job's start, and its spawning where the publisher is in memory
  unfoldable pub start_job :
      CreateExecutionRequest → Job → Action World (CommandAccepted × List Job)
  start_job p job = do
    started_at ← utc_now
    event ←
        event_envelope "execution.started" job.correlation_id job.trace_id "api.orchestration"
          job.execution_run_id (started_payload p job (datetime started_at))
          (dict (("aggregate", text "execution") ∷ []))
    publish agent_executions_topic event
    publish_audit_event "execution.start" "execution_run" job.execution_run_id event.payload
    pure (accepted job.execution_run_id event, if h.in_memory then job ∷ [] else [])

  unfoldable pub create_execution :
      (String → Option DeploymentRow)
      → CreateExecutionRequest
      → Action World (CommandAccepted × List Job)
  create_execution load p = do
    target ← lift (target_of load p)
    execution_run_id ← uuid4
    correlation_id ← get_correlation_id
    trace_id ← get_trace_id
    start_job p (job_for p target execution_run_id correlation_id trace_id)
