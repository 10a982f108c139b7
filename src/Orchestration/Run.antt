-- ===== src/Orchestration/Run.antt =====
-- What one execution stands on: floating-point arithmetic and the clock of the interpreter, the
-- model endpoints, and the metrics of the process beside its other state.
pub mod Quiet
use fast_api_layers.Prelude.{ℕ, ◌+◌, String, Option, List, [], ◌∷◌, ◌++◌}
use fast_api_layers.Value.{Value, obj, Fields}
use fast_api_layers.Effect.{PyError, attribute_error, type_error, Result, ok, err, Action, modify}
use fast_api_layers.Platform.{World}

-- A double is its 64-bit pattern.
pub record Machine : Type 0 where
  pub of_nat : ℕ → ℕ
  pub plus : ℕ → ℕ → ℕ
  pub minus : ℕ → ℕ → ℕ
  pub times : ℕ → ℕ → ℕ
  pub over : ℕ → ℕ → ℕ
  -- `float(v)`
  pub to_float : Value → Result ℕ
  -- `time.perf_counter()`, by the number of the call
  pub perf_counter : ℕ → ℕ
  -- `t - timedelta(milliseconds=d)`
  pub before : ℕ → ℕ → Result ℕ
  -- `len(s.split())`
  pub words : String → ℕ
  -- `s.rstrip("/")`
  pub rstrip_slash : String → String
  -- the JSON body that the numbered POST returns, by its URL, the prompt and the model's name
  pub post : ℕ → String → String → Value → Result Value
  -- `Counter.inc` of an amount
  pub inc_error : ℕ → Option PyError

pub record Run : Type 0 where
  pub world : World
  -- calls of `perf_counter` and of the endpoints
  pub ticks : ℕ
  pub posts : ℕ
  -- `ACTIVE_EXECUTIONS.inc()` and `.dec()`, each counted
  pub incs : ℕ
  pub decs : ℕ
  -- the observations of the other metrics: their name, labels and amount
  pub observations : List (String × List String × ℕ)

-- a call of the process's own services
abbrev pub in_world : {A : Type 0} → Action World A → Action Run A
in_world m s = let (r, w) = m s.world in (r, record s { world = w })

unfoldable pub perf_counter : ⦃m : Machine⦄ → Action Run ℕ
perf_counter ⦃m⦄ s = (ok (m.perf_counter s.ticks), record s { ticks = s.ticks + 1 })

-- `(time.perf_counter() - started) * 1000`
unfoldable pub elapsed_ms : ⦃m : Machine⦄ → ℕ → Action Run ℕ
elapsed_ms ⦃m⦄ started s = (
  ok (m.times (m.minus (m.perf_counter s.ticks) started) (m.of_nat 1000)),
  record s { ticks = s.ticks + 1 },
)

unfoldable pub observe : String → List String → ℕ → Action Run (Unit {0})
observe name labels amount =
    modify (λ s. record s { observations = s.observations ++ (name, labels, amount) ∷ [] })

-- `v.get`, which only a dictionary has
abbrev pub mapping : Value → Result Fields
mapping (obj d) = ok d
mapping _ = err attribute_error

-- `dict(v)`; a list of pairs does not occur and is refused here too.
abbrev pub dict_of : Value → Result Fields
dict_of (obj d) = ok d
dict_of _ = err type_error
