-- ===== src/Tests/Http.antt =====
-- Requests by two clients, on a catalogue of three agents.
use fast_api_layers.Prelude.{◌≡◌, refl, none, some, [], ◌∷◌, List, arith, take, drop, Option}
use fast_api_layers.Value.{Value, null, text, dict, get, truthy}
use fast_api_layers.Effect.{ok, ◌>>◌}
use fast_api_layers.Events.{EventEnvelope}
use fast_api_layers.Projection.Session.{Entity, agents}
use fast_api_layers.Http.{
  Web, HttpRequest, api_key_context, identify, decoded_context, role_claim, role_of, is_listed,
  viewer, require_role,
}
use fast_api_layers.Http.Guard.{Unpublished}
use fast_api_layers.Http.Pipeline.{Response, serve}
use fast_api_layers.ReadSide.{Database, Select, select}
use fast_api_layers.ReadSide.Pages.{Answers, first_pages, first_pages_complete}
use fast_api_layers.ReadSide.Listings.{of_agents, read_listing}
use fast_api_layers.ReadSide.Requested.{requested}
use fast_api_layers.ReadSide.Paged.{Paged, read_listing-Paged}
use fast_api_layers.Registry.Commands.{CommandAccepted}
use fast_api_layers.Registry.Service.{agent_delete, execute}
use fast_api_layers.Http.Rejected.{unknown_role_response, serve-unknown_role}
use fast_api_layers.Http.Served.{labelled, prepared}
use fast_api_layers.Registry.Api.Routed.{route}
use fast_api_layers.Registry.Api.Guarded.{Forbidden, serve-Forbidden}
use fast_api_layers.Registry.Api.Accountable.{Accounts, serve-Accounts}
use fast_api_layers.Tests.Fixtures.{quiet_host, fresh_world}
use fast_api_layers.Tests.Registry.{fresh-ne}

abbrev named : Value → Entity
named name = λ attribute. some name

abbrev three_agents : Select → List Entity
three_agents q = named (text "a") ∷ named (text "b") ∷ named (text "c") ∷ []

abbrev name_or_null : Option Value → Value
name_or_null none = null
name_or_null (some v) = v

instance abbrev catalogue : Database
catalogue = record {
  count = λ q. 3;
  fetch = λ q limit offset. take limit (drop offset (three_agents q));
  get_by_id = λ table id. none;
  model_validate = λ table entity. name_or_null (entity "name");
}

catalogue-Answers : Answers catalogue three_agents
catalogue-Answers = record { count_eq = λ q. refl; fetch_eq = λ q limit offset. refl }

first_pages_complete_example :
    first_pages (select agents "created_at") 2 2 ≡ text "a" ∷ text "b" ∷ text "c" ∷ []
first_pages_complete_example =
    first_pages_complete three_agents catalogue-Answers (select agents "created_at") 2 2
      (omega arith)

-- every token is one of a viewer
instance abbrev guarded_web : Web
guarded_web = record {
  api_keys = "key" ∷ [];
  decode_jwt = λ token. some (dict (("sub", text "bob") ∷ ("role", text "viewer") ∷ []));
  validation_body = null;
}

abbrev keyed_request : HttpRequest
keyed_request = record {
  api_key = some "key";
  credentials = none;
  x_correlation_id = some "c9";
  x_trace_id = none;
}

abbrev viewer_request : HttpRequest
viewer_request = record keyed_request { api_key = none; credentials = some "token" }

read_listing-Paged_example :
    Paged catalogue three_agents
      (requested (of_agents (some "a")))
      2
      20
      (read_listing viewer_request (of_agents (some "a")) (some 2) none fresh_world).0
    × Unpublished fresh_world
        (read_listing viewer_request (of_agents (some "a")) (some 2) none fresh_world).1
unfolding identify decoded_context role_claim get role_of
read_listing-Paged_example =
    read_listing-Paged three_agents catalogue-Answers viewer_request (of_agents (some "a")) (some 2)
      none fresh_world refl

abbrev dump_entity : CommandAccepted → Value
dump_entity reply = text reply.entity_id

serve-Forbidden_example :
    Forbidden
      (serve dump_entity viewer_request (route viewer_request (agent_delete "a1")) fresh_world).0
    × Unpublished fresh_world
        (serve dump_entity viewer_request (route viewer_request (agent_delete "a1")) fresh_world).1
unfolding identify decoded_context role_claim get role_of
serve-Forbidden_example =
    serve-Forbidden dump_entity viewer_request (agent_delete "a1") fresh_world refl

serve-Accounts_example :
    (response : Response) × (e : EventEnvelope) × (a : EventEnvelope) × ((serve dump_entity
        keyed_request
        (route keyed_request (agent_delete "a1"))
        fresh_world).0
      ≡ ok response)
    × Accounts
        (agent_delete "a1")
        api_key_context
        keyed_request
        dump_entity
        []
        (serve dump_entity keyed_request
          (route keyed_request (agent_delete "a1"))
          fresh_world).1.published
        response
        e
        a
unfolding identify truthy is_listed
serve-Accounts_example =
    serve-Accounts fresh-ne (λ n. refl) dump_entity keyed_request (agent_delete "a1")
      api_key_context fresh_world refl refl

-- every token is one of a role that there is not
abbrev foreign_web : Web
foreign_web = record guarded_web { decode_jwt = λ token. some (dict (("role", text "root") ∷ [])) }

serve-unknown_role_example :
    (serve ⦃web = foreign_web⦄ dump_entity viewer_request
      (require_role ⦃web = foreign_web⦄ viewer viewer_request >> execute (agent_delete "a1"))
      fresh_world)
    ≡ (
      ok (
          labelled
            (prepared viewer_request fresh_world)
            (unknown_role_response ⦃web = foreign_web⦄)),
      prepared viewer_request fresh_world,
    )
unfolding get role_of
serve-unknown_role_example =
    serve-unknown_role ⦃web = foreign_web⦄ dump_entity viewer (execute (agent_delete "a1"))
      viewer_request fresh_world refl refl refl refl refl
