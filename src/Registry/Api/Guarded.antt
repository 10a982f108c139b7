-- ===== src/Registry/Api/Guarded.antt =====
-- The routes of the registry's commands, from the request to the event log.
use fast_api_layers.Prelude.{◌≡◌, refl, sym, ap, ◌∙◌, some, inl, inr, ◌⊎◌, false}
use fast_api_layers.Value.{Value}
use fast_api_layers.Effect.{PyError, Result, ok, err, http_error, ◌>>◌, Result-cases}
use fast_api_layers.Platform.{Host, World}
use fast_api_layers.Http.{Web, HttpRequest, identify, require_role}
use fast_api_layers.Http.Guard.{
  entered, require_role-unknown, require_role-refused, permits, Unpublished, permits-ok, not-false,
  IsRefusal, identify-IsRefusal,
}
use fast_api_layers.Http.Pipeline.{Response, serve, handle_error}
use fast_api_layers.Http.Served.{prepared, labelled, serve-err}
use fast_api_layers.Registry.Commands.{CommandAccepted}
use fast_api_layers.Registry.Service.{
  Command, agent_create, agent_update, agent_delete, model_create, model_update, model_delete,
  graph_create, graph_update, graph_delete, deployment_create, deployment_update, deployment_delete,
  tool_create, tool_update, tool_delete, environment_create, environment_update, environment_delete,
  execute,
}
use fast_api_layers.Registry.Api.Mutations.{
  post_agent, put_agent, remove_agent, post_model, put_model, remove_model, post_graph, put_graph,
  remove_graph, post_deployment, put_deployment, remove_deployment, post_tool, put_tool,
  remove_tool, post_environment, put_environment, remove_environment,
}
use fast_api_layers.Registry.Api.Routed.{route, role_for}

module _ ⦃h : Host⦄ ⦃web : Web⦄ where
  pub route-guarded :
      (request : HttpRequest) (c : Command) (w : World)
      → route request c w ≡ (require_role (role_for c) request >> execute c) w
  unfolding route execute post_agent put_agent remove_agent post_model put_model remove_model
      post_graph put_graph remove_graph post_deployment put_deployment remove_deployment post_tool
      put_tool remove_tool post_environment put_environment remove_environment
  route-guarded r (agent_create p) w = refl
  route-guarded r (agent_update i p) w = refl
  route-guarded r (agent_delete i) w = refl
  route-guarded r (model_create p) w = refl
  route-guarded r (model_update i p) w = refl
  route-guarded r (model_delete i) w = refl
  route-guarded r (graph_create p) w = refl
  route-guarded r (graph_update i p) w = refl
  route-guarded r (graph_delete i) w = refl
  route-guarded r (deployment_create p) w = refl
  route-guarded r (deployment_update i p) w = refl
  route-guarded r (deployment_delete i) w = refl
  route-guarded r (tool_create p) w = refl
  route-guarded r (tool_update i p) w = refl
  route-guarded r (tool_delete i) w = refl
  route-guarded r (environment_create p) w = refl
  route-guarded r (environment_update i p) w = refl
  route-guarded r (environment_delete i) w = refl

  -- what a client without permission is answered with
  abbrev pub Forbidden : Result Response → Type 0
  Forbidden out =
      (response : Response) × (out ≡ ok response)
      × ((response.status_code ≡ 400) ⊎ (response.status_code ≡ 401) ⊎ (response.status_code ≡ 403))

  IsDenial : PyError → Type 0
  IsDenial e =
      (response : Response) × (handle_error e ≡ some response)
      × ((response.status_code ≡ 400) ⊎ (response.status_code ≡ 401) ⊎ (response.status_code ≡ 403))

  refusal-IsDenial : {e : PyError} → IsRefusal e → IsDenial e
  unfolding IsDenial handle_error
  refusal-IsDenial (inl (detail, p)) = (_, ap handle_error p, inr (inl refl))
  refusal-IsDenial (inr p) = (_, ap handle_error p, inl refl)

  route-denied :
      (request : HttpRequest) (c : Command) (w : World)
      → permits request (role_for c) ≡ false
      → (e : PyError) × (w' : World) × (route request c w ≡ (err e, w'))
        × IsDenial e
        × Unpublished w w'
  unfolding IsDenial handle_error
  route-denied request c w p = elim (Result-cases (identify request)) [
    | inl (e, q) ↦ (
      e,
      w,
      route-guarded request c w ∙ require_role-unknown (execute c) (role_for c) request w q,
      refusal-IsDenial (identify-IsRefusal request q),
      (refl, refl),
    )
    | inr (context, q) ↦ (
      http_error 403 "Insufficient role",
      entered context w,
      route-guarded request c w
          ∙ require_role-refused (execute c) (role_for c) request w q
              (not-false _ (sym (permits-ok request (role_for c) q) ∙ p)),
      (_, refl, inr (inr refl)),
      (refl, refl),
    )
  ]

  -- A request for a registry command that proves no identity, or one whose role is too low for the
  -- command's route, is answered with status 400, 401 or 403, and nothing is given to the
  -- publisher.
  pub serve-Forbidden :
      (dump : CommandAccepted → Value) (request : HttpRequest) (c : Command) (w : World)
      → permits request (role_for c) ≡ false
      → let out = serve dump request (route request c) w in Forbidden out.0 × Unpublished w out.1
  unfolding IsDenial
  serve-Forbidden dump request c w p =
      let (e, w', q, (response, handled, status), (kept, counted)) =
        route-denied request c (prepared request w) p in
      let out = serve-err dump request (route request c) w q handled in
      (
        (labelled (prepared request w) response, ap (λ o. o.0) out, status),
        (ap (λ o. o.1.published) out ∙ kept, ap (λ o. o.1.publish_calls) out ∙ counted),
      )
