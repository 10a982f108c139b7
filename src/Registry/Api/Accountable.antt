-- ===== src/Registry/Api/Accountable.antt =====
-- The way of a permitted registry command from the request to the event log and back.
use fast_api_layers.Prelude.{
  ℕ, String, ◌≡◌, ◌≢◌, refl, sym, ap, ◌∙◌, Option, none, some, List, [], ◌∷◌, ◌++◌, true, arith,
  eq_iff,
}
use fast_api_layers.Value.{Value, text, get}
use fast_api_layers.Effect.{ok}
use fast_api_layers.Events.{EventEnvelope}
use fast_api_layers.Topics.{registry_events_topic, audit_events_topic}
use fast_api_layers.Platform.{Host, World}
use fast_api_layers.Platform.Settled.{chosen}
use fast_api_layers.Http.{Web, HttpRequest, AuthContext, identify}
use fast_api_layers.Http.Guard.{entered, require_role-passed, permits, permits-ok, not-true}
use fast_api_layers.Http.Pipeline.{Response, json_response, serve}
use fast_api_layers.Http.Served.{
  given_trace, trace_drawn, prepared, labelled, labelled-correlation, labelled-trace, serve-ok,
}
use fast_api_layers.Registry.Commands.{CommandAccepted, accepted}
use fast_api_layers.Registry.Commands.Outcome.{expected-accepted, Audits}
use fast_api_layers.Registry.Service.{Command, execute, event_type_of, action_of, entity_type_of}
use fast_api_layers.Registry.Service.Audited.{execute-Announced}
use fast_api_layers.Registry.Api.Routed.{route, role_for}
use fast_api_layers.Registry.Api.Guarded.{route-guarded}

module _ ⦃h : Host⦄ where
  -- a chosen identifier is never empty
  chosen-ne :
      (uuid_ne : (n : ℕ) → h.uuid n ≢ "") (value : Option String) (w : World) → chosen value w ≢ ""
  chosen-ne uuid_ne none w = uuid_ne w.uuids
  chosen-ne uuid_ne (some s) w =
      let ne : h.uuid w.uuids ≢ "" = uuid_ne w.uuids in ground (arith, eq_iff s "")

  chosen-given : (s : String) (w : World) → s ≢ "" → chosen (some s) w ≡ s
  chosen-given s w ne = ground (arith, eq_iff s "")

  module _ ⦃web : Web⦄ where
    -- What is left of the command `c` of an identity, in the response and in the event log.
    pub record Accounts (c : Command) (context : AuthContext) (request : HttpRequest)
        (dump : CommandAccepted → Value) (log log' : List (String × EventEnvelope))
        (response : Response) (e a : EventEnvelope) : Type 0 where
      pub status_eq : response.status_code ≡ 200
      pub content_eq : response.content ≡ dump (accepted e.entity_id e)
      pub correlation_header :
          get "X-Correlation-Id" response.headers ≡ some (text e.correlation_id)
      pub trace_header : get "X-Trace-Id" response.headers ≡ some (text e.trace_id)
      pub correlation_given :
          (s : String) → request.x_correlation_id ≡ some s → s ≢ "" → e.correlation_id ≡ s
      pub audits :
          Audits
            (event_type_of c)
            (action_of c)
            (entity_type_of c)
            context.subject
            e.correlation_id
            e.trace_id
            e
            a
      pub log_eq : log' ≡ log ++ (registry_events_topic, e) ∷ (audit_events_topic, a) ∷ []

    -- A request for a registry command by an identity whose role its route permits, where uuids are
    -- never empty and the publisher accepts every event, is answered with status 200 and the
    -- acceptance of the domain event; that event and an audit event of it, which names the
    -- identity's subject as the actor, are what is added to the event log; both carry the
    -- correlation and trace identifiers of the response's headers, and a correlation identifier of
    -- the request that is not empty is the one that they carry.
    pub serve-Accounts :
        (uuid_ne : (n : ℕ) → h.uuid n ≢ "") (accepts : (n : ℕ) → h.publish_error n ≡ none)
        (dump : CommandAccepted → Value) (request : HttpRequest) (c : Command)
        (context : AuthContext) (w : World)
        → identify request ≡ ok context
        → permits request (role_for c) ≡ true
        → let out = serve dump request (route request c) w in
          (response : Response) × (e : EventEnvelope) × (a : EventEnvelope) × (out.0 ≡ ok response)
          × Accounts c context request dump w.published out.1.published response e a
    serve-Accounts uuid_ne accepts dump request c context w p q =
        let w1 = entered context (prepared request w) in
        let (e, a, audits, outcome) = execute-Announced uuid_ne c w1 in
        let settled = outcome ∙ expected-accepted w.published e a (accepts _) (accepts _) in
        let passed =
          route-guarded request c (prepared request w)
          ∙ require_role-passed (execute c) (role_for c) request (prepared request w) p
              (not-true _ (sym (permits-ok request (role_for c) p) ∙ q)) in
        let served =
          serve-ok dump request (route request c) w
            (passed ∙ ap (λ r. (r, (execute c w1).1)) (ap (λ o. o.0) settled)) in
        let content = dump (accepted e.entity_id e) in
        let kept = audits.correlation_kept (chosen-ne uuid_ne request.x_correlation_id w) in
        let traced =
          audits.trace_kept
            (chosen-ne uuid_ne (some (given_trace request w)) (trace_drawn request w)) in
        (
          labelled (prepared request w) (json_response 200 content),
          e,
          a,
          ap (λ o. o.0) served,
          record {
            status_eq = refl;
            content_eq = refl;
            correlation_header =
                labelled-correlation (prepared request w) 200 content
                ∙ ap (λ s. some (text s)) (sym kept);
            trace_header =
                labelled-trace (prepared request w) 200 content
                ∙ ap (λ s. some (text s)) (sym traced);
            correlation_given =
                λ s given ne. kept ∙ ap (λ v. chosen v w) given ∙ chosen-given s w ne;
            audits = record {
              correlation_kept = λ _. refl;
              trace_kept = λ _. refl;
              event_type_eq = audits.event_type_eq;
              audit_type_eq = audits.audit_type_eq;
              entity_eq = audits.entity_eq;
              correlation_eq = audits.correlation_eq;
              trace_eq = audits.trace_eq;
              payload_eq = audits.payload_eq;
            };
            log_eq = ap (λ o. o.1.published) served ∙ ap (λ o. o.1) settled;
          },
        )
