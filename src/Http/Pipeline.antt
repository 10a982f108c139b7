-- ===== src/Http/Pipeline.antt =====
-- From a handler to the response: the exception handlers of app/core/errors.py inside the two
-- middlewares of app/core/middleware.py.
use fast_api_layers.Prelude.{ℕ, String, Option, none, some, [], ◌∷◌}
use fast_api_layers.Value.{Value, null, text, obj, Fields, end, dict, set}
use fast_api_layers.Effect.{
  PyError, key_error, type_error, attribute_error, value_error, assertion_error, runtime_error,
  external, domain_error, http_error, request_validation_error, Action, pure, catch, raise, ◌>>=◌,
}
use fast_api_layers.Platform.{Host, World}
use fast_api_layers.Platform.Context.{or_uuid, ensure_correlation_id, set_trace_id}
use fast_api_layers.Http.{Web, HttpRequest}

pub record Response : Type 0 where
  pub status_code : ℕ
  pub content : Value
  pub headers : Fields

abbrev pub json_response : ℕ → Value → Response
json_response status_code content = record {
  status_code = status_code;
  content = content;
  headers = end;
}

-- `ErrorResponse(...).model_dump()`
abbrev pub error_response : String → String → Value → Value
error_response detail code extra =
    obj (dict (("detail", text detail) ∷ ("code", text code) ∷ ("extra", extra) ∷ []))

module _ ⦃h : Host⦄ ⦃web : Web⦄ where
  -- the response of a handler's exception, where it has a handler: two of them are installed by
  -- `install_error_handlers`, the other two are FastAPI's own
  unfoldable pub handle_error : PyError → Option Response
  handle_error (domain_error detail code extra) =
      some (json_response 400 (error_response detail code (obj extra)))
  handle_error value_error =
      some (json_response 400 (error_response (h.str_error value_error) "value_error" null))
  handle_error (http_error status detail) =
      some (json_response status (obj (dict (("detail", text detail) ∷ []))))
  handle_error request_validation_error = some (json_response 422 web.validation_body)
  handle_error (key_error key) = none
  handle_error type_error = none
  handle_error attribute_error = none
  handle_error assertion_error = none
  handle_error (runtime_error message) = none
  handle_error (external message) = none

  -- An exception without a handler goes on through the middlewares.
  abbrev pub handled_as : PyError → Option Response → Action World Response
  handled_as e none = raise e
  handled_as e (some response) = pure response

  unfoldable pub respond : {A : Type 0} → (A → Value) → Action World A → Action World Response
  unfolding handle_error
  respond dump handler =
      catch (handler >>= λ a. pure (json_response 200 (dump a)))
        (λ e. handled_as e (handle_error e))

  -- `CorrelationMiddleware.dispatch`
  unfoldable pub correlate : HttpRequest → Action World Response → Action World Response
  correlate request call_next = do
    correlation_id ← ensure_correlation_id request.x_correlation_id
    given_trace_id ← or_uuid request.x_trace_id
    trace_id ← set_trace_id (some given_trace_id)
    response ← call_next
    let headers = set "X-Correlation-Id" (text correlation_id) response.headers
    pure (record response { headers = set "X-Trace-Id" (text trace_id) headers })

  -- `RateLimitStubMiddleware.dispatch`, the outer middleware
  unfoldable pub rate_limit : Action World Response → Action World Response
  rate_limit call_next = do
    response ← call_next
    pure (record response { headers = set "X-RateLimit-Policy" (text "stub") response.headers })

  -- one request, through the application that `create_service_app` builds
  unfoldable pub serve :
      {A : Type 0} → (A → Value) → HttpRequest → Action World A → Action World Response
  serve dump request handler = rate_limit (correlate request (respond dump handler))
