-- ===== src/Http.antt =====
-- The HTTP layer that all routers share: app/core/security.py, app/core/errors.py and
-- app/core/middleware.py. FastAPI, Starlette and PyJWT are the record `Web` and the order of the
-- calls; metrics and logs are left out.
pub mod Guard
pub mod Pipeline
pub mod Served
pub mod Rejected
pub mod Paging
use fast_api_layers.Prelude.{
  ℕ, String, Bool, true, false, ◌||◌, Option, none, some, List, [], ◌∷◌, ◌==◌, ltb, leb, not,
  if◌then◌else◌,
}
use fast_api_layers.Value.{Value, text, Fields, end, get, truthy}
use fast_api_layers.Effect.{
  Result, ok, err, value_error, http_error, request_validation_error, Action, pure, raise, lift,
  ◌>>=◌, ◌>>◌,
}
use fast_api_layers.Platform.{Host, World, str}
use fast_api_layers.Platform.Context.{set_principal_id}

pub data Role : Type 0 where
  admin operator viewer : Role

-- the text of a member of the enumeration
abbrev pub role_value : Role → String
role_value admin = "admin"
role_value operator = "operator"
role_value viewer = "viewer"

-- `Role(value)`
unfoldable pub role_of : String → Option Role
role_of value =
    if value == role_value admin
    then some admin
    else if value == role_value operator
    then some operator
    else if value == role_value viewer
    then some viewer
    else none

-- `ROLE_ORDER`
abbrev pub role_order : Role → ℕ
role_order viewer = 0
role_order operator = 1
role_order admin = 2

pub record AuthContext : Type 0 where
  pub subject : String
  pub role : Role
  pub auth_type : String
  pub claims : Fields

pub record Web : Type 0 where
  -- of the settings
  pub api_keys : List String
  -- `jwt.decode` with the secret of the settings; nothing where it raises a `PyJWTError`
  pub decode_jwt : String → Option Fields
  -- the body that FastAPI answers an invalid query with
  pub validation_body : Value

-- what the code reads of a request; `credentials` is the token of a bearer `Authorization`
pub record HttpRequest : Type 0 where
  pub api_key : Option String
  pub credentials : Option String
  pub x_correlation_id : Option String
  pub x_trace_id : Option String

unfoldable pub is_listed : String → List String → Bool
is_listed s [] = false
is_listed s (t ∷ ts) = t == s || is_listed s ts

-- the value of an optional header under `if header:`
abbrev pub present : Option String → Option String
present none = none
present (some key) = if truthy (text key) then some key else none

-- `Role(payload.get("role", Role.VIEWER))`
unfoldable pub role_claim : Option Value → Result Role
role_claim none = ok viewer
role_claim (some (text s)) = elim (role_of s) [ none ↦ err value_error | some role ↦ ok role ]
role_claim (some v) = err value_error

abbrev pub api_key_context : AuthContext
api_key_context = record {
  subject = "api-key-user";
  role = admin;
  auth_type = "api_key";
  claims = end;
}

module _ ⦃h : Host⦄ ⦃web : Web⦄ where
  -- `str(payload.get("sub", "jwt-user"))`
  unfoldable pub subject_claim : Option Value → String
  subject_claim none = "jwt-user"
  subject_claim (some v) = str v

  -- `_decode_jwt` under the `except jwt.PyJWTError` of its caller
  unfoldable pub decoded_context : String → Result AuthContext
  decoded_context token = elim (web.decode_jwt token) [
    | none ↦ err (http_error 401 "Invalid bearer token")
    | some payload ↦ elim (role_claim (get "role" payload)) [
      | err e ↦ err e
      | ok role ↦ ok (record {
        subject = subject_claim (get "sub" payload);
        role = role;
        auth_type = "jwt";
        claims = payload;
      })
    ]
  ]

  -- which identity a request proves: the key is looked at before the token
  unfoldable pub identify : HttpRequest → Result AuthContext
  identify request = elim (present request.api_key) [
    | some key ↦
        if is_listed key web.api_keys
        then ok api_key_context
        else err (http_error 401 "Invalid API key")
    | none ↦ elim request.credentials [
      | some token ↦ decoded_context token
      | none ↦ err (http_error 401 "Authentication required")
    ]
  ]

  -- the identity becomes the principal of the request's context
  unfoldable pub get_auth_context : HttpRequest → Action World AuthContext
  get_auth_context request = do
    context ← lift (identify request)
    set_principal_id context.subject
    pure context

  unfoldable pub require_role : Role → HttpRequest → Action World AuthContext
  require_role required_role request = do
    context ← get_auth_context request
    if ltb (role_order context.role) (role_order required_role)
        then raise (http_error 403 "Insufficient role")
        else pure context
