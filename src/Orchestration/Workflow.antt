-- ===== src/Orchestration/Workflow.antt =====
-- `ExecutionWorkflow` of app/modules/orchestration/graph.py: its topology and its node handlers.
-- The execution state is a dictionary; LangGraph, which runs the topology, is a parameter.
pub mod Nodes
pub mod Elsewhere
use fast_api_layers.Prelude.{
  ℕ, zero, suc, String, Bool, false, ◌||◌, ◌==◌, ◌≡◌, Option, none, some, List, [], ◌∷◌,
  if◌then◌else◌,
}
use fast_api_layers.Value.{Value, bool, Fields, end, field, get_or, set, truthy}
use fast_api_layers.Effect.{
  PyError, key_error, runtime_error, Result, ok, err, Action, pure, raise, lift, or_raise, ◌>>=◌,
  ◌>>◌,
}
use fast_api_layers.Orchestration.Run.{Run}

-- What `_build` hands to LangGraph.
pub record Topology : Type 0 where
  pub nodes : List String
  pub start : String
  -- the edges, the last of them to END
  pub edges : List (String × Option String)
  -- the node with conditional edges, its router, and the targets of the router's answers
  pub branch_at : String
  pub router : Fields → String
  pub targets : List (String × String)
  -- the keys of `ExecutionState`
  pub channels : List String

-- `_route_after_tool_runner`
unfoldable pub route_after_tool_runner : Fields → String
route_after_tool_runner state =
    if truthy (get_or "validation_required" (bool false) state) then "validator" else "reviewer"

abbrev pub topology : Topology
topology = record {
  nodes = "planner" ∷ "tool_runner" ∷ "validator" ∷ "reviewer" ∷ [];
  start = "planner";
  edges =
      ("planner", some "tool_runner") ∷ ("validator", some "reviewer") ∷ ("reviewer", none) ∷ [];
  branch_at = "tool_runner";
  router = route_after_tool_runner;
  targets = ("validator", "validator") ∷ ("reviewer", "reviewer") ∷ [];
  channels =
      "execution_run_id" ∷ "deployment_id" ∷ "graph_definition_id" ∷ "input_payload" ∷ "objective"
      ∷ "model_context" ∷ "validation_required" ∷ "plan" ∷ "tool_output" ∷ "validation_summary"
      ∷ "review" ∷ "final_output" ∷ [];
}

-- the node handlers, by the node's name
abbrev pub Handlers : Type 0
Handlers = String → Fields → Action Run Fields

-- LangGraph's `compile` and `ainvoke`
abbrev pub Engine : Type 0
Engine = Topology → Handlers → Fields → Action Run Fields

unfoldable pub lookup {ℓ} : {A : Type ℓ} → String → List (String × A) → Option A
lookup k [] = none
lookup k ((j, a) ∷ rest) = if j == k then some a else lookup k rest

unfoldable pub member : String → List String → Bool
member k [] = false
member k (j ∷ rest) = j == k || member k rest

-- An update writes the keys that are channels.
unfoldable pub merge : List String → Fields → Fields → Fields
merge channels end state = state
merge channels (field k v updates) state =
    merge channels updates (if member k channels then set k v state else state)

-- a node's name where one is wanted that may be END
abbrev pub on_node : Option String → Option (Option String)
on_node none = none
on_node (some node) = some (some node)

-- the next node after `node` at `state`, and `none` for END
unfoldable pub next_node : Topology → String → Fields → Result (Option String)
unfolding lookup
next_node t node state =
    if node == t.branch_at
    then or_raise (key_error (t.router state)) (on_node (lookup (t.router state) t.targets))
    else or_raise (key_error node) (lookup node t.edges)

-- The documented run of a compiled graph from a node on: a handler's update is merged into the
-- state, and the edges are followed to END or to the first exception.
pub data Runs (t : Topology) (handlers : Handlers)
    : String → Fields → Run → Result Fields × Run → Type 0 where
  raises :
      {node : String} {state : Fields} {r r' : Run} {e : PyError}
      → handlers node state r ≡ (err e, r')
      → Runs t handlers node state r (err e, r')
  strays :
      {node : String} {state updates : Fields} {r r' : Run} {e : PyError}
      → handlers node state r ≡ (ok updates, r')
      → next_node t node (merge t.channels updates state) ≡ err e
      → Runs t handlers node state r (err e, r')
  ends :
      {node : String} {state updates : Fields} {r r' : Run}
      → handlers node state r ≡ (ok updates, r')
      → next_node t node (merge t.channels updates state) ≡ ok none
      → Runs t handlers node state r (ok (merge t.channels updates state), r')
  goes_on :
      {node next : String} {state updates : Fields} {r r' : Run} {out : Result Fields × Run}
      → handlers node state r ≡ (ok updates, r')
      → next_node t node (merge t.channels updates state) ≡ ok (some next)
      → Runs t handlers next (merge t.channels updates state) r' out
      → Runs t handlers node state r out

-- What the program relies on in LangGraph: its run of `topology`, from the start, is the
-- documented one.
abbrev pub Follows : Engine → Type 0
Follows engine =
    (handlers : Handlers) (state : Fields) (r : Run)
    → Runs topology handlers topology.start state r (engine topology handlers state r)
