-- ===== src/Platform/Context.antt =====
-- app/core/context.py: the context variables of one request.
use fast_api_layers.Prelude.{String, Option, none, some, ◌==◌, if◌then◌else◌}
use fast_api_layers.Effect.{Action, pure, modify, gets, ◌>>=◌, ◌>>◌}
use fast_api_layers.Platform.{Host, World, uuid4}

module _ ⦃h : Host⦄ where
  -- `value or str(uuid4())`
  unfoldable pub or_uuid : Option String → Action World String
  unfolding uuid4
  or_uuid none = uuid4
  or_uuid (some value) = if value == "" then uuid4 else pure value

  unfoldable pub ensure_correlation_id : Option String → Action World String
  unfolding or_uuid
  ensure_correlation_id value = do
    correlation_id ← or_uuid value
    modify (λ w. record w { correlation_id = correlation_id })
    pure correlation_id

  unfoldable pub set_trace_id : Option String → Action World String
  unfolding or_uuid
  set_trace_id value = do
    trace_id ← or_uuid value
    modify (λ w. record w { trace_id = trace_id })
    pure trace_id

  unfoldable pub get_correlation_id : Action World String
  unfolding ensure_correlation_id
  get_correlation_id = do
    current ← gets (λ w. w.correlation_id)
    if current == "" then ensure_correlation_id none else pure current

  unfoldable pub get_trace_id : Action World String
  unfolding set_trace_id
  get_trace_id = do
    current ← gets (λ w. w.trace_id)
    if current == "" then set_trace_id none else pure current

unfoldable pub set_principal_id : String → Action World (Unit {0})
set_principal_id value = modify (λ w. record w { principal_id = value })

unfoldable pub get_principal_id : Action World String
get_principal_id = gets (λ w. w.principal_id)
