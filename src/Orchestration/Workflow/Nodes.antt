-- ===== src/Orchestration/Workflow/Nodes.antt =====
-- The node handlers of `ExecutionWorkflow`.
use Prim.Native.String.{◌++◌ as append}
use fast_api_layers.Prelude.{
  ℕ, ◌+◌, String, ◌||◌, [], ◌∷◌, false, Option, none, some, List, if◌then◌else◌,
}
use fast_api_layers.Value.{
  Value, null, bool, int, float, text, arr, nil, cons, obj, Fields, end, dict, get_or, truthy,
}
use fast_api_layers.Effect.{key_error, Action, pure, lift, err, ◌>>=◌, ◌>>◌}
use fast_api_layers.Platform.{Host, str}
use fast_api_layers.Orchestration.Run.{Machine, Run, perf_counter, elapsed_ms, mapping}
use fast_api_layers.Orchestration.Gateway.{ModelInvocationResult, dump_result, take_chars, invoke}
use fast_api_layers.Orchestration.Workflow.{Handlers, lookup}

-- `StepEmitter`: the step, the agent, its input and output, its tokens and its duration
abbrev pub Emitter : Type 0
Emitter = String → String → Fields → Fields → ℕ → ℕ → Action Run (Unit {0})

-- the telemetry of a node that calls no model; 0.0 is the pattern 0
unfoldable pub local_telemetry : String → String → ℕ → Value
local_telemetry content model_name latency_ms = obj (
    dict (
      ("content", text content)
      ∷ ("latency_ms", float latency_ms)
      ∷ ("token_input", int 0)
      ∷ ("token_output", int 0)
      ∷ ("cost_usd", float 0)
      ∷ ("model_name", text model_name)
      ∷ ("provider", text "internal")
      ∷ []))

module _ ⦃h : Host⦄ ⦃m : Machine⦄ (emit : Emitter) where
  abbrev invoke_model : String → Fields → Action Run ModelInvocationResult
  invoke_model prompt context =
      invoke prompt (get_or "endpoint_url" null context) (get_or "provider" null context)
        (get_or "model_name" null context) (get_or "pricing" null context)

  -- `state.get("objective") or state.get("input_payload", {}).get("objective", "unknown")`
  unfoldable pub objective_of : Fields → Action Run Value
  objective_of state =
      let objective = get_or "objective" null state in
      if truthy objective then pure objective else (do
        input_payload ← lift (mapping (get_or "input_payload" (obj end) state))
        pure (get_or "objective" (text "unknown") input_payload))

  unfoldable pub planner : Fields → Action Run Fields
  planner state = do
    started ← perf_counter
    objective ← objective_of state
    let prompt =
        append "You are the planning agent. Break the objective into concise executable steps.\n" (
          append "Objective: " (
            append (str objective)
              (append "\nContext: " (str (get_or "input_payload" (obj end) state)))))
    model_context ← lift (mapping (get_or "model_context" (obj end) state))
    result ← invoke_model prompt model_context
    let output =
        dict (("plan", text result.content) ∷ ("_telemetry", obj (dump_result result)) ∷ [])
    duration_ms ← elapsed_ms started
    emit "planner" "planner-agent" (dict (("objective", objective) ∷ [])) output
        (result.token_input + result.token_output) duration_ms
    pure output

  unfoldable pub tool_runner : Fields → Action Run Fields
  tool_runner state = do
    started ← perf_counter
    let plan = get_or "plan" (text "") state
    let context = get_or "input_payload" (obj end) state
    input_payload ← lift (mapping context)
    let validation_required =
        truthy (get_or "validation_required" null state)
        || truthy (get_or "require_validation" null input_payload)
    latency_ms ← elapsed_ms started
    let summary = text (
        append "Prepared actionable execution summary for: "
          (str (get_or "objective" (text "objective") input_payload)))
    let tool_output = dict (
        (
          "selected_tools",
          arr (
              cons (text "context-summary")
                (cons (text "risk-scan") (cons (text "cost-estimator") nil))),
        )
        ∷ ("summary", summary)
        ∷ ("plan_excerpt", text (take_chars 280 (str plan)))
        ∷ ("_telemetry", local_telemetry "tool-runner-local" "builtin-tooling" latency_ms)
        ∷ [])
    duration_ms ← elapsed_ms started
    emit "tool_runner" "tool-runner-agent"
        (dict (
          ("plan", plan)
          ∷ ("context", context)
          ∷ ("validation_required", bool validation_required)
          ∷ []))
        tool_output 0 duration_ms
    pure (dict (("tool_output", summary) ∷ ("validation_required", bool validation_required) ∷ []))

  unfoldable pub validator : Fields → Action Run Fields
  validator state = do
    started ← perf_counter
    let tool_output = get_or "tool_output" (text "") state
    let summary = text (
        append "Validation completed for prepared execution summary: "
          (take_chars 120 (str tool_output)))
    latency_ms ← elapsed_ms started
    duration_ms ← elapsed_ms started
    emit "validator" "validator-agent"
        (dict (
          ("tool_output", tool_output)
          ∷ ("validation_required", get_or "validation_required" (bool false) state)
          ∷ []))
        (dict (
          ("validation_summary", summary)
          ∷ ("_telemetry", local_telemetry "validator-local" "builtin-validator" latency_ms)
          ∷ []))
        0 duration_ms
    pure (dict (("validation_summary", summary) ∷ []))

  unfoldable pub review_prompt : Fields → String
  review_prompt state = append "You are the review agent. Validate the plan and tool output, " (
      append "then produce the final result.\nPlan: " (
        append (str (get_or "plan" (text "") state)) (
          append "\nTool output: " (
            append (str (get_or "tool_output" (text "") state)) (
              append "\nValidation: " (
                append (str (get_or "validation_summary" (text "") state))
                  (append "\nInput payload: " (str (get_or "input_payload" (obj end) state)))))))))

  -- the three results that the reviewer is given
  abbrev reviewed : Fields → List (String × Value)
  reviewed state =
      ("plan", get_or "plan" (text "") state)
      ∷ ("tool_output", get_or "tool_output" (text "") state)
      ∷ ("validation_summary", get_or "validation_summary" (text "") state)
      ∷ []

  unfoldable pub reviewer : Fields → Action Run Fields
  unfolding review_prompt
  reviewer state = do
    started ← perf_counter
    model_context ← lift (mapping (get_or "model_context" (obj end) state))
    result ← invoke_model (review_prompt state) model_context
    let output = dict (
        ("review", text result.content)
        ∷ ("final_output", obj (dict (("summary", text result.content) ∷ reviewed state)))
        ∷ ("_telemetry", obj (dump_result result))
        ∷ [])
    duration_ms ← elapsed_ms started
    emit "reviewer" "reviewer-agent" (dict (reviewed state)) output
        (result.token_input + result.token_output) duration_ms
    pure output

  -- `graph.add_node` of each
  abbrev pub node_table : List (String × (Fields → Action Run Fields))
  node_table =
      ("planner", planner)
      ∷ ("tool_runner", tool_runner)
      ∷ ("validator", validator)
      ∷ ("reviewer", reviewer)
      ∷ []

abbrev pub dispatch : String → Option (Fields → Action Run Fields) → Fields → Action Run Fields
dispatch node none state = lift (err (key_error node))
dispatch node (some handler) state = handler state

unfoldable pub node_handlers : ⦃h : Host⦄ → ⦃m : Machine⦄ → Emitter → Handlers
node_handlers emit node = dispatch node (lookup node (node_table emit))
