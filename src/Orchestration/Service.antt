-- ===== src/Orchestration/Service.antt =====
-- `ExecutionCommandService` of app/modules/orchestration/service.py: the run of a workflow and the
-- start of an execution.
pub mod Terminal
use fast_api_layers.Prelude.{
  ℕ, ◌+◌, String, Bool, true, false, not, ◌&&◌, ◌==◌, Option, none, some, List, [], ◌∷◌, ◌++◌,
  if◌then◌else◌,
}
use fast_api_layers.Value.{Value, null, text, datetime, obj, Fields, end, dict, get_or, optional}
use fast_api_layers.Effect.{
  PyError, runtime_error, domain_error, Result, ok, err, Action, pure, raise, gets, modify, lift,
  catch, ◌>>=◌, ◌>>◌,
}
use fast_api_layers.Events.{EventEnvelope}
use fast_api_layers.Topics.{agent_executions_topic}
use fast_api_layers.Platform.{Host, World, uuid4, utc_now, str, event_envelope, publish}
use fast_api_layers.Platform.Context.{get_correlation_id, get_trace_id}
use fast_api_layers.Audit.{publish_audit_event}
use fast_api_layers.Registry.Commands.{CommandAccepted, accepted}
use fast_api_layers.Orchestration.Run.{Machine, Run, in_world, mapping, dict_of}
use fast_api_layers.Orchestration.Workflow.{Engine, topology}
use fast_api_layers.Orchestration.Workflow.Nodes.{node_handlers}
use fast_api_layers.Orchestration.Steps.{step_emitter}

-- the arguments of `_run_workflow`
pub record Job : Type 0 where
  pub execution_run_id : String
  pub deployment_id : Value
  pub graph_definition_id : Value
  pub input_payload : Fields
  pub model_context : Fields
  pub correlation_id : String
  pub trace_id : String

-- `runtime_context.get(...)` of an `execution.started` event
unfoldable pub job_of : EventEnvelope → Result Job
job_of event = elim (mapping (get_or "runtime_context" (obj end) event.payload)) [
  | err e ↦ err e
  | ok context ↦ elim (dict_of (get_or "input_payload" (obj end) context)) [
    | err e ↦ err e
    | ok input_payload ↦ elim (dict_of (get_or "model_context" (obj end) context)) [
      | err e ↦ err e
      | ok model_context ↦ ok (record {
        execution_run_id = event.entity_id;
        deployment_id = get_or "deployment_id" null context;
        graph_definition_id = get_or "graph_definition_id" null context;
        input_payload = input_payload;
        model_context = model_context;
        correlation_id = event.correlation_id;
        trace_id = event.trace_id;
      })
    ]
  ]
]

-- `try: m finally: k`, for a `k` that does not raise
abbrev pub finally : Action Run (Unit {0}) → (Run → Run) → Action Run (Unit {0})
finally m k s = let (r, s') = m s in (r, k s')

unfoldable pub initial_state : ⦃h : Host⦄ → Job → Fields
initial_state job = dict (
    ("execution_run_id", text job.execution_run_id)
    ∷ ("deployment_id", job.deployment_id)
    ∷ ("graph_definition_id", job.graph_definition_id)
    ∷ ("input_payload", obj job.input_payload)
    ∷ (
      "objective",
      text (str (get_or "objective" (text "No objective provided") job.input_payload)),
    )
    ∷ ("model_context", obj job.model_context)
    ∷ [])

module _ ⦃h : Host⦄ where
  -- a terminal event, `execution.finished` or `execution.failed`, and its audit event
  unfoldable pub terminate : Job → String → String → String → Value → Value → Action Run (Unit {0})
  terminate job event_type action status output_payload error_message = do
    finished_at ← in_world utc_now
    event ← in_world (
        event_envelope event_type job.correlation_id job.trace_id "worker.orchestration"
          job.execution_run_id
          (dict (
            ("execution_run_id", text job.execution_run_id)
            ∷ ("status", text status)
            ∷ ("output_payload", output_payload)
            ∷ ("finished_at", datetime finished_at)
            ∷ ("error_message", error_message)
            ∷ []))
          (dict (("aggregate", text "execution") ∷ [])))
    in_world (publish agent_executions_topic event)
    in_world (publish_audit_event action "execution_run" job.execution_run_id event.payload)
    pure tt

  unfoldable pub finish : Job → Fields → Action Run (Unit {0})
  unfolding terminate
  finish job result =
      terminate job "execution.finished" "execution.finish" "succeeded"
        (get_or "final_output" (obj end) result) null

  unfoldable pub fail : Job → PyError → Action Run (Unit {0})
  unfolding terminate
  fail job e =
      terminate job "execution.failed" "execution.fail" "failed" null (text (h.str_error e))

  module _ ⦃m : Machine⦄ (engine : Engine) where
    -- the workflow with the job's emitter, from the initial state
    unfoldable pub invoke_workflow : Job → Action Run Fields
    invoke_workflow job =
        engine topology
          (node_handlers
            (step_emitter job.execution_run_id job.model_context job.correlation_id job.trace_id))
          (initial_state job)

    -- `_run_workflow` of a service that has a model gateway or not
    unfoldable pub run_workflow : Bool → Job → Action Run (Unit {0})
    run_workflow gateway job =
        if gateway
        then (do
          modify (λ s. record s { incs = s.incs + 1 })
          finally (catch (invoke_workflow job >>= finish job) (fail job))
              (λ s. record s { decs = s.decs + 1 }))
        else raise (runtime_error "Execution workflow runtime is not enabled for this process")

    unfoldable pub run_execution_started_event : Bool → EventEnvelope → Action Run (Unit {0})
    run_execution_started_event gateway event = do
      job ← lift (job_of event)
      run_workflow gateway job
