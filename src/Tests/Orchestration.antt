-- ===== src/Tests/Orchestration.antt =====
-- Runs of a workflow, under an engine that walks the topology directly.
use fast_api_layers.Prelude.{
  Bool-cases, inl, inr, List, some, none, String, ◌≡◌, refl, Bool-cases, inl, inr, none, some, [],
  ◌∷◌, nat_eq, if◌then◌else◌, true, false, ◌+◌,
}
use fast_api_layers.Value.{Fields, end, truthy, get_or, bool, text, null, dict}
use fast_api_layers.Effect.{Result, ok, err, Action, pure, external}
use fast_api_layers.Events.{EventEnvelope}
use fast_api_layers.Topics.{agent_executions_topic, audit_events_topic}
use fast_api_layers.Platform.{Host}
use fast_api_layers.Orchestration.Run.{Run, Machine}
use fast_api_layers.Orchestration.Workflow.{
  Handlers, Engine, Runs, raises, ends, goes_on, Follows, topology, merge, next_node, lookup,
  route_after_tool_runner,
}
use fast_api_layers.Registry.Commands.{CommandAccepted, accepted}
use fast_api_layers.Messaging.Publisher.{default_partition_key}
use fast_api_layers.Orchestration.Start.{CreateExecutionRequest, target_of, create_execution}
use fast_api_layers.Orchestration.Start.Consumed.{create_execution-Consumed}
use fast_api_layers.Orchestration.Service.{Job, job_of, invoke_workflow, run_workflow}
use fast_api_layers.Orchestration.Service.Terminal.{
  begun, Concludes, Terminal, run_workflow-Concludes,
}
use fast_api_layers.Orchestration.Service.Terminal.Twice.{run_workflow-ends_twice}
use fast_api_layers.Orchestration.Service.Terminal.Gauge.{run_workflow-IsBalanced}
use fast_api_layers.Tests.Fixtures.{quiet_host, fresh_world}

module _ (handlers : Handlers) where
  abbrev visit_then :
      (Fields → Action Run Fields) → Result Fields × Run → Fields → Result Fields × Run
  visit_then next (ok updates, r) state = next (merge topology.channels updates state) r
  visit_then next (err e, r) state = (err e, r)

  abbrev visit : String → (Fields → Action Run Fields) → Fields → Action Run Fields
  visit node next state r = visit_then next (handlers node state r) state

  abbrev from_reviewer : Fields → Action Run Fields
  from_reviewer = visit "reviewer" pure

  abbrev from_validator : Fields → Action Run Fields
  from_validator = visit "validator" from_reviewer

  abbrev from_branch : Fields → Action Run Fields
  from_branch state =
      if truthy (get_or "validation_required" (bool false) state)
      then from_validator state
      else from_reviewer state

  abbrev from_planner : Fields → Action Run Fields
  from_planner = visit "planner" (visit "tool_runner" from_branch)

abbrev walking : Engine
walking t handlers = from_planner handlers

module _ (handlers : Handlers) where
  -- A visit runs as documented when what follows it does.
  visit-Runs :
      (node : String) (next : Fields → Action Run Fields)
      → ((before updates : Fields) (r r' : Run)
          → handlers node before r ≡ (ok updates, r')
          → Runs topology handlers node before r (next (merge topology.channels updates before) r'))
      → (state : Fields) (r : Run)
      → Runs topology handlers node state r (visit handlers node next state r)
  visit-Runs node next follow state r = go (handlers node state r) refl
    where
      go :
          (out : Result Fields × Run)
          → handlers node state r ≡ out
          → Runs topology handlers node state r (visit_then handlers next out state)
      go (ok updates, r') e = follow state updates r r' e
      go (err x, r') e = raises e

  reviewer-Runs :
      (state : Fields) (r : Run)
      → Runs topology handlers "reviewer" state r (from_reviewer handlers state r)
  unfolding next_node lookup
  reviewer-Runs = visit-Runs "reviewer" pure λ before updates r r' e. ends e refl

  validator-Runs :
      (state : Fields) (r : Run)
      → Runs topology handlers "validator" state r (from_validator handlers state r)
  unfolding next_node lookup
  validator-Runs =
      visit-Runs "validator" (from_reviewer handlers)
        λ before updates r r' e. goes_on e refl (reviewer-Runs _ r')

  branch-Runs :
      (before updates : Fields) (r r' : Run)
      → handlers "tool_runner" before r ≡ (ok updates, r')
      → Runs topology handlers "tool_runner" before r
          (from_branch handlers (merge topology.channels updates before) r')
  unfolding next_node lookup route_after_tool_runner
  branch-Runs before updates r r' e =
      let state = merge topology.channels updates before in
      elim (Bool-cases (truthy (get_or "validation_required" (bool false) state))) [
        | inl asked ↦ rw asked (goes_on e (rw asked) (validator-Runs _ r'))
        | inr skipped ↦ rw skipped (goes_on e (rw skipped) (reviewer-Runs _ r'))
      ]

  tool_runner-Runs :
      (state : Fields) (r : Run)
      → Runs topology handlers "tool_runner" state r
          (visit handlers "tool_runner" (from_branch handlers) state r)
  tool_runner-Runs = visit-Runs "tool_runner" (from_branch handlers) branch-Runs

walking-Follows : Follows walking
unfolding next_node lookup
walking-Follows handlers =
    visit-Runs handlers "planner" (visit handlers "tool_runner" (from_branch handlers))
      λ before updates r r' e. goes_on e refl (tool_runner-Runs handlers _ r')

-- counts instead of doubles, and an endpoint that is down
instance abbrev plain_machine : Machine
plain_machine = record {
  of_nat = λ n. n;
  plus = λ a b. a + b;
  minus = λ a b. a;
  times = λ a b. b;
  over = λ a b. a;
  to_float = λ v. ok 5;
  perf_counter = λ n. n;
  before = λ t d. ok t;
  words = λ s. 4;
  rstrip_slash = λ s. s;
  post = λ n url prompt model. err (external "timeout");
  inc_error = λ amount. none;
}

abbrev risky_job : Job
risky_job = record {
  execution_run_id = "run-1";
  deployment_id = null;
  graph_definition_id = text "graph-1";
  input_payload = dict (("objective", text "audit") ∷ ("require_validation", bool true) ∷ []);
  model_context = dict (("endpoint_url", text "http://model") ∷ []);
  correlation_id = "c1";
  trace_id = "t1";
}

abbrev idle_run : Run
idle_run = record {
  world = fresh_world;
  ticks = 0;
  posts = 0;
  incs = 0;
  decs = 0;
  observations = [];
}

run_workflow-Concludes_example :
    Concludes walking risky_job idle_run
      (invoke_workflow walking risky_job (begun risky_job idle_run)).0
      (run_workflow walking true risky_job idle_run)
run_workflow-Concludes_example =
    run_workflow-Concludes walking risky_job walking-Follows (λ n. refl) idle_run

run_workflow-IsBalanced_example :
    ((run_workflow walking true risky_job idle_run).1.incs ≡ 1)
    × ((run_workflow walking true risky_job idle_run).1.decs ≡ 1)
run_workflow-IsBalanced_example = run_workflow-IsBalanced walking risky_job walking-Follows idle_run

-- the broker refuses the second publication
abbrev flaky_host : Host
flaky_host = record quiet_host {
  publish_error = λ n. if nat_eq n 1 then some (external "broker") else none;
}

-- a workflow that returns at once
abbrev instant : Engine
instant t handlers state = pure end

run_workflow-ends_twice_example :
    (finished : EventEnvelope) × (failed : EventEnvelope) × (a : EventEnvelope)
    × (b : EventEnvelope) × Terminal ⦃h = flaky_host⦄ risky_job "execution.finished" finished a
    × Terminal ⦃h = flaky_host⦄ risky_job "execution.failed" failed b
    × ((run_workflow ⦃h = flaky_host⦄ instant true risky_job idle_run).1.world.published
        ≡ (agent_executions_topic, finished)
          ∷ (agent_executions_topic, failed)
          ∷ (audit_events_topic, b)
          ∷ [])
unfolding invoke_workflow
run_workflow-ends_twice_example =
    run_workflow-ends_twice ⦃h = flaky_host⦄ instant risky_job idle_run (begun risky_job idle_run)
      end (external "broker") refl refl refl refl refl

abbrev graph_request : CreateExecutionRequest
graph_request = record {
  deployment_id = none;
  graph_definition_id = some "graph-1";
  input_payload = end;
  metadata = end;
}

create_execution-Consumed_example :
    (job : Job) × (e : EventEnvelope) × (a : EventEnvelope) × (job_of e ≡ ok job)
    × (default_partition_key e ≡ job.execution_run_id)
    × (a.entity_id ≡ job.execution_run_id)
    × ◌≡◌ {A = Result (CommandAccepted × List Job) × List (String × EventEnvelope)}
        (
          (create_execution (λ i. none) graph_request fresh_world).0,
          (create_execution (λ i. none) graph_request fresh_world).1.published,
        )
        (
          ok (accepted job.execution_run_id e, job ∷ []),
          (agent_executions_topic, e) ∷ (audit_events_topic, a) ∷ [],
        )
unfolding target_of truthy
create_execution-Consumed_example =
    create_execution-Consumed (λ i. none) graph_request (some "graph-1", end) fresh_world refl refl
      refl
