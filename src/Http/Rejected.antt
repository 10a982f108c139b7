-- ===== src/Http/Rejected.antt =====
-- A token whose role is none of the enumeration's.
use fast_api_layers.Prelude.{String, ◌≡◌, refl, none, some}
use fast_api_layers.Value.{Value, null, text, Fields, get}
use fast_api_layers.Effect.{ok, err, value_error, Action, ◌>>◌}
use fast_api_layers.Platform.{Host, World}
use fast_api_layers.Http.{
  Web, HttpRequest, Role, role_of, present, role_claim, decoded_context, identify, require_role,
}
use fast_api_layers.Http.Guard.{require_role-unknown}
use fast_api_layers.Http.Pipeline.{Response, json_response, error_response, handle_error, serve}
use fast_api_layers.Http.Served.{prepared, labelled, serve-err}

module _ ⦃h : Host⦄ ⦃web : Web⦄ where
  abbrev pub unknown_role_response : Response
  unknown_role_response =
      json_response 400 (error_response (h.str_error value_error) "value_error" null)

  identify-unknown_role :
      (request : HttpRequest) {token s : String} {payload : Fields}
      → present request.api_key ≡ none
      → request.credentials ≡ some token
      → web.decode_jwt token ≡ some payload
      → get "role" payload ≡ some (text s)
      → role_of s ≡ none
      → identify request ≡ err value_error
  unfolding identify decoded_context role_claim
  identify-unknown_role request p q r t u =
      rw (p, identify) (rw q (rw (r, decoded_context) (rw t (rw (u, role_claim) refl))))

  -- A bearer token that decodes, with a text for a role that is none of the three, is answered with
  -- status 400 and the code `value_error` on every route that asks for a role, and the route's
  -- handler is not run.
  pub serve-unknown_role :
      {A : Type 0} (dump : A → Value) (required : Role) (handler : Action World A)
      (request : HttpRequest) (w : World) {token s : String} {payload : Fields}
      → present request.api_key ≡ none
      → request.credentials ≡ some token
      → web.decode_jwt token ≡ some payload
      → get "role" payload ≡ some (text s)
      → role_of s ≡ none
      → (serve dump request (require_role required request >> handler) w)
        ≡ (ok (labelled (prepared request w) unknown_role_response), prepared request w)
  unfolding handle_error
  serve-unknown_role dump required handler request w p q r t u =
      serve-err dump request (require_role required request >> handler) w
        (require_role-unknown handler required request (prepared request w)
          (identify-unknown_role request p q r t u))
        refl
