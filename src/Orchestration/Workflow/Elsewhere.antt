-- ===== src/Orchestration/Workflow/Elsewhere.antt =====
-- Where the events of a workflow's run go, whichever nodes it visits.
use Prim.Native.String.{◌++◌ as append}
use fast_api_layers.Prelude.{
  ℕ, String, refl, ap, Option, All, ◌==◌, Bool-cases, inl, inr, List, [], ◌∷◌, none, some,
  if◌then◌else◌,
}
use fast_api_layers.Value.{Value, Fields, get_or, float, obj, end, truthy}
use fast_api_layers.Effect.{Result, Action}
use fast_api_layers.Platform.{Host, str}
use fast_api_layers.Orchestration.Run.{Machine, Run, mapping, perf_counter, elapsed_ms}
use fast_api_layers.Orchestration.Run.Quiet.{
  Aside, Aside-trans, IsQuiet, IsQuiet-lift_then, still, IsQuiet-bind, IsQuiet-catch, IsQuiet-if,
  Aside-same, perf_counter-IsQuiet, elapsed_ms-IsQuiet,
}
use fast_api_layers.Orchestration.Gateway.{next_post, call_endpoint, content_of, invoke}
use fast_api_layers.Orchestration.Workflow.{
  Topology, Handlers, Runs, raises, strays, ends, goes_on, lookup,
}
use fast_api_layers.Orchestration.Workflow.Nodes.{
  Emitter, objective_of, planner, tool_runner, validator, reviewer, node_table, dispatch,
  node_handlers,
}

abbrev QuietHandler : (Fields → Action Run Fields) → Type 0
QuietHandler handler = (state : Fields) → IsQuiet (handler state)

abbrev Each : {A : Type 0} → (A → Type 0) → Option A → Type 0
Each P none = Unit
Each P (some a) = P a

lookup-Each :
    {A : Type 0} (P : A → Type 0) (k : String) (table : List (String × A))
    → All (λ p. P p.1) table
    → Each P (lookup k table)
unfolding lookup
lookup-Each P k [] all = tt
lookup-Each P k ((j, a) ∷ rest) (p, ps) = elim (Bool-cases (j == k)) [
  | inl e ↦ rw (e, lookup) p
  | inr e ↦ rw (e, lookup) (lookup-Each P k rest ps)
]

dispatch-IsQuiet :
    (node : String) (found : Option (Fields → Action Run Fields))
    → Each QuietHandler found
    → QuietHandler (dispatch node found)
dispatch-IsQuiet node none q state s = still s
dispatch-IsQuiet node (some handler) q state s = q state s

module _ ⦃h : Host⦄ ⦃m : Machine⦄ where
  next_post-IsQuiet : IsQuiet next_post
  unfolding next_post
  next_post-IsQuiet s = Aside-same s _ refl refl refl

  call_endpoint-IsQuiet :
      (url : Value) (prompt : String) (model : Value) → IsQuiet (call_endpoint url prompt model)
  unfolding call_endpoint
  call_endpoint-IsQuiet url prompt model = IsQuiet-bind next_post _ next_post-IsQuiet λ posted.
      IsQuiet-lift_then (m.post posted (append (m.rstrip_slash (str url)) "/invoke") prompt model) _
        λ reply. IsQuiet-lift_then (mapping reply) _ λ body. still

  content_of-IsQuiet : (prompt : String) (url model : Value) → IsQuiet (content_of prompt url model)
  unfolding content_of
  content_of-IsQuiet prompt url model =
      IsQuiet-if _ _ _ (IsQuiet-catch _ _ (call_endpoint-IsQuiet url prompt model) λ e. still) still

  invoke-IsQuiet :
      (prompt : String) (url provider model pricing : Value)
      → IsQuiet (invoke prompt url provider model pricing)
  unfolding invoke
  invoke-IsQuiet prompt url provider model pricing =
      IsQuiet-bind perf_counter _ perf_counter-IsQuiet λ started.
        IsQuiet-bind (content_of prompt url model) _ (content_of-IsQuiet prompt url model)
          λ content. IsQuiet-bind (elapsed_ms started) _ (elapsed_ms-IsQuiet started) λ latency.
            IsQuiet-lift_then (mapping (if truthy pricing then pricing else obj end)) _ λ rates.
              IsQuiet-lift_then
                (m.to_float (get_or "input_per_1k" (float 4562254508917369340) rates)) _
                λ input_rate.
                  IsQuiet-lift_then
                    (m.to_float (get_or "output_per_1k" (float 4566758108544739836) rates)) _
                    λ output_rate. still

  module _ (emit : Emitter)
      (quiet : (step agent : String) (input output : Fields) (tokens duration : ℕ)
        → IsQuiet (emit step agent input output tokens duration)) where
    planner-IsQuiet : (state : Fields) → IsQuiet (planner emit state)
    unfolding planner objective_of
    planner-IsQuiet state = IsQuiet-bind perf_counter _ perf_counter-IsQuiet λ started.
        IsQuiet-bind _ _
          (IsQuiet-if _ _ _ still
            (IsQuiet-lift_then (mapping (get_or "input_payload" (obj end) state)) _ λ p. still))
          λ objective.
            IsQuiet-lift_then (mapping (get_or "model_context" (obj end) state)) _ λ context.
              IsQuiet-bind (invoke _ _ _ _ _) _ (invoke-IsQuiet _ _ _ _ _) λ result.
                IsQuiet-bind (elapsed_ms started) _ (elapsed_ms-IsQuiet started)
                  λ duration. IsQuiet-bind (emit _ _ _ _ _ _) _ (quiet _ _ _ _ _ _) λ _. still

    tool_runner-IsQuiet : (state : Fields) → IsQuiet (tool_runner emit state)
    unfolding tool_runner
    tool_runner-IsQuiet state = IsQuiet-bind perf_counter _ perf_counter-IsQuiet λ started.
        IsQuiet-lift_then (mapping (get_or "input_payload" (obj end) state)) _ λ input.
          IsQuiet-bind (elapsed_ms started) _ (elapsed_ms-IsQuiet started) λ latency.
            IsQuiet-bind (elapsed_ms started) _ (elapsed_ms-IsQuiet started)
              λ duration. IsQuiet-bind (emit _ _ _ _ _ _) _ (quiet _ _ _ _ _ _) λ _. still

    validator-IsQuiet : (state : Fields) → IsQuiet (validator emit state)
    unfolding validator
    validator-IsQuiet state = IsQuiet-bind perf_counter _ perf_counter-IsQuiet λ started.
        IsQuiet-bind (elapsed_ms started) _ (elapsed_ms-IsQuiet started) λ latency.
          IsQuiet-bind (elapsed_ms started) _ (elapsed_ms-IsQuiet started)
            λ duration. IsQuiet-bind (emit _ _ _ _ _ _) _ (quiet _ _ _ _ _ _) λ _. still

    reviewer-IsQuiet : (state : Fields) → IsQuiet (reviewer emit state)
    unfolding reviewer
    reviewer-IsQuiet state = IsQuiet-bind perf_counter _ perf_counter-IsQuiet λ started.
        IsQuiet-lift_then (mapping (get_or "model_context" (obj end) state)) _ λ context.
          IsQuiet-bind (invoke _ _ _ _ _) _ (invoke-IsQuiet _ _ _ _ _) λ result.
            IsQuiet-bind (elapsed_ms started) _ (elapsed_ms-IsQuiet started)
              λ duration. IsQuiet-bind (emit _ _ _ _ _ _) _ (quiet _ _ _ _ _ _) λ _. still

    pub node_handlers-IsQuiet :
        (node : String) (state : Fields) → IsQuiet (node_handlers emit node state)
    unfolding node_handlers
    node_handlers-IsQuiet node state =
        dispatch-IsQuiet node (lookup node (node_table emit))
          (lookup-Each QuietHandler node (node_table emit)
            (planner-IsQuiet, (tool_runner-IsQuiet, (validator-IsQuiet, (reviewer-IsQuiet, tt)))))
          state

-- The run that Runs describes is aside when every handler's is.
pub Runs-Aside :
    (t : Topology) (handlers : Handlers)
    → ((node : String) (state : Fields) → IsQuiet (handlers node state))
    → (node : String) (state : Fields) (r : Run) (out : Result Fields × Run)
    → Runs t handlers node state r out
    → Aside r out.1
Runs-Aside t handlers quiet node state r out (raises e) =
    rw (ap (λ o. o.1) e) at (quiet node state r)
Runs-Aside t handlers quiet node state r out (strays e wrong) =
    rw (ap (λ o. o.1) e) at (quiet node state r)
Runs-Aside t handlers quiet node state r out (ends e last) =
    rw (ap (λ o. o.1) e) at (quiet node state r)
Runs-Aside t handlers quiet node state r out (goes_on e next rest) =
    Aside-trans (rw (ap (λ o. o.1) e) at (quiet node state r))
      (Runs-Aside t handlers quiet _ _ _ out rest)
