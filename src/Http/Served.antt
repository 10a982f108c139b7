-- ===== src/Http/Served.antt =====
-- What `serve` does around a handler: the context that the handler runs in, and the headers that
-- its response gets.
use fast_api_layers.Prelude.{ℕ, ◌+◌, String, ◌≡◌, refl, Option, some, if◌then◌else◌}
use fast_api_layers.Value.{Value, text, get, set}
use fast_api_layers.Effect.{PyError, Result, ok, err, Action, pure, continue}
use fast_api_layers.Platform.{Host, World}
use fast_api_layers.Platform.Context.{ensure_correlation_id, set_trace_id}
use fast_api_layers.Platform.Settled.{is_given, or_uuid-eq, chosen}
use fast_api_layers.Http.{Web, HttpRequest}
use fast_api_layers.Http.Pipeline.{
  Response, json_response, handle_error, respond, correlate, rate_limit, serve,
}

continue_assoc :
    {S A B C : Type 0} (x : Result A × S) (f : A → Action S B) (g : B → Action S C)
    → continue (continue x f) g ≡ continue x (λ a s. continue (f a s) g)
continue_assoc (ok a, s) f g = refl
continue_assoc (err e, s) f g = refl

module _ ⦃h : Host⦄ where
  -- the process after `or_uuid`
  abbrev pub drew : Option String → World → World
  drew value w = record w { uuids = if is_given value then w.uuids else w.uuids + 1 }

  abbrev pub with_correlation : HttpRequest → World → World
  with_correlation request w = record (drew request.x_correlation_id w) {
    correlation_id = chosen request.x_correlation_id w;
  }

  abbrev pub given_trace : HttpRequest → World → String
  given_trace request w = chosen request.x_trace_id (with_correlation request w)

  abbrev pub trace_drawn : HttpRequest → World → World
  trace_drawn request w = drew request.x_trace_id (with_correlation request w)

  abbrev pub prepared : HttpRequest → World → World
  prepared request w =
      let w' = trace_drawn request w in
      record (drew (some (given_trace request w)) w') {
        trace_id = chosen (some (given_trace request w)) w';
      }

  -- a response with the headers of the two middlewares
  abbrev pub labelled : World → Response → Response
  labelled w response = record response {
    headers = set "X-RateLimit-Policy" (text "stub") (
        set "X-Trace-Id" (text w.trace_id)
          (set "X-Correlation-Id" (text w.correlation_id) response.headers));
  }

  pub labelled-correlation :
      (w : World) (status : ℕ) (content : Value)
      → get "X-Correlation-Id" (labelled w (json_response status content)).headers
        ≡ some (text w.correlation_id)
  unfolding get set
  labelled-correlation w status content = refl

  pub labelled-trace :
      (w : World) (status : ℕ) (content : Value)
      → get "X-Trace-Id" (labelled w (json_response status content)).headers
        ≡ some (text w.trace_id)
  unfolding get set
  labelled-trace w status content = refl

  module _ ⦃web : Web⦄ where
    pub serve-eq :
        {A : Type 0} (dump : A → Value) (request : HttpRequest) (handler : Action World A)
        (w : World)
        → serve dump request handler w
          ≡ continue
              (respond dump handler (prepared request w))
              (λ response. pure (labelled (prepared request w) response))
    unfolding serve rate_limit correlate ensure_correlation_id set_trace_id
    serve-eq dump request handler w = rw (or_uuid-eq request.x_correlation_id w) (
        rw (or_uuid-eq request.x_trace_id (with_correlation request w)) (
          rw (or_uuid-eq (some (given_trace request w)) (trace_drawn request w))
            (continue_assoc (respond dump handler (prepared request w)) _ _)))

    -- a handler that raises, and one that returns
    pub serve-err :
        {A : Type 0} (dump : A → Value) (request : HttpRequest) (handler : Action World A)
        (w : World) {e : PyError} {response : Response} {w' : World}
        → handler (prepared request w) ≡ (err e, w')
        → handle_error e ≡ some response
        → serve dump request handler w ≡ (ok (labelled (prepared request w) response), w')
    unfolding respond
    serve-err dump request handler w p q = rw (serve-eq dump request handler w) (rw p (rw q refl))

    pub serve-ok :
        {A : Type 0} (dump : A → Value) (request : HttpRequest) (handler : Action World A)
        (w : World) {a : A} {w' : World}
        → handler (prepared request w) ≡ (ok a, w')
        → serve dump request handler w
          ≡ (ok (labelled (prepared request w) (json_response 200 (dump a))), w')
    unfolding respond
    serve-ok dump request handler w p = rw (serve-eq dump request handler w) (rw p refl)
