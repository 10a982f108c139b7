-- ===== src/Http/Guard.antt =====
-- What `require_role` lets through.
use mathlib.Core.Path.{subst}
use fast_api_layers.Prelude.{
  String, ◌≡◌, refl, sym, Bool-cases, Option-cases, inl, inr, Bool, true, false, not, ltb, ◌⊎◌,
  Option, none, some,
}
use fast_api_layers.Value.{
  Value, null, bool, int, minus_int, float, text, datetime, arr, tup, obj, get,
}
use fast_api_layers.Effect.{
  PyError, http_error, value_error, Result, ok, err, Action, ◌>>◌, Result-cases,
}
use fast_api_layers.Platform.{Host, World}
use fast_api_layers.Platform.Context.{set_principal_id}
use fast_api_layers.Http.{
  Web, HttpRequest, Role, role_order, role_of, role_claim, AuthContext, present, is_listed,
  decoded_context, identify, get_auth_context, require_role,
}

-- the process once the principal is known
abbrev pub entered : AuthContext → World → World
entered context w = record w { principal_id = context.subject }

-- nothing was given to the publisher
abbrev pub Unpublished : World → World → Type 0
Unpublished w w' = (w'.published ≡ w.published) × (w'.publish_calls ≡ w.publish_calls)

module _ ⦃h : Host⦄ ⦃web : Web⦄ {A : Type 0} (m : Action World A) where
  pub require_role-unknown :
      (required : Role) (request : HttpRequest) (w : World) {e : PyError}
      → identify request ≡ err e
      → (require_role required request >> m) w ≡ (err e, w)
  unfolding require_role get_auth_context set_principal_id
  require_role-unknown required request w p = rw p refl

  pub require_role-refused :
      (required : Role) (request : HttpRequest) (w : World) {context : AuthContext}
      → identify request ≡ ok context
      → ltb (role_order context.role) (role_order required) ≡ true
      → (require_role required request >> m) w
        ≡ (err (http_error 403 "Insufficient role"), entered context w)
  unfolding require_role get_auth_context set_principal_id
  require_role-refused required request w p q = rw p (rw q refl)

  pub require_role-passed :
      (required : Role) (request : HttpRequest) (w : World) {context : AuthContext}
      → identify request ≡ ok context
      → ltb (role_order context.role) (role_order required) ≡ false
      → (require_role required request >> m) w ≡ m (entered context w)
  unfolding require_role get_auth_context set_principal_id
  require_role-passed required request w p q = rw p (rw q refl)

-- the errors of a request that proves no identity
abbrev pub IsRefusal : PyError → Type 0
IsRefusal e = ((detail : String) × (e ≡ http_error 401 detail)) ⊎ (e ≡ value_error)

Refuses : {A : Type 0} → Result A → Type 0
Refuses (ok a) = Unit
Refuses (err e) = IsRefusal e

role_claim-Refuses : (claim : Option Value) → Refuses (role_claim claim)
unfolding role_claim Refuses
role_claim-Refuses none = tt
role_claim-Refuses (some (text s)) = elim (Option-cases (role_of s)) [
  | inl p ↦ rw (p, Refuses) (inr refl)
  | inr (role, p) ↦ rw (p, Refuses) tt
]
role_claim-Refuses (some null) = inr refl
role_claim-Refuses (some (bool b)) = inr refl
role_claim-Refuses (some (int n)) = inr refl
role_claim-Refuses (some (minus_int n)) = inr refl
role_claim-Refuses (some (float bits)) = inr refl
role_claim-Refuses (some (datetime t)) = inr refl
role_claim-Refuses (some (arr vs)) = inr refl
role_claim-Refuses (some (tup vs)) = inr refl
role_claim-Refuses (some (obj d)) = inr refl

pub not-true : (b : Bool) → not b ≡ true → b ≡ false
not-true true p = sym p
not-true false p = refl

pub not-false : (b : Bool) → not b ≡ false → b ≡ true
not-false true p = refl
not-false false p = sym p

module _ ⦃h : Host⦄ ⦃web : Web⦄ where
  decoded_context-Refuses : (token : String) → Refuses (decoded_context token)
  unfolding decoded_context Refuses
  decoded_context-Refuses token = elim (Option-cases (web.decode_jwt token)) [
    | inl p ↦ rw (p, Refuses) (inl (_, refl))
    | inr (payload, p) ↦
        rw (p, Refuses)
          (elim (Result-cases (role_claim (get "role" payload))) [
            | inl (e, q) ↦
                rw (q, Refuses) (subst Refuses q (role_claim-Refuses (get "role" payload)))
            | inr (role, q) ↦ rw (q, Refuses) tt
          ])
  ]

  identify-Refuses : (request : HttpRequest) → Refuses (identify request)
  unfolding identify Refuses
  identify-Refuses request = elim (Option-cases (present request.api_key)) [
    | inr (key, p) ↦
        rw (p, Refuses)
          (elim (Bool-cases (is_listed key web.api_keys)) [
            | inl q ↦ rw (q, Refuses) tt
            | inr q ↦ rw (q, Refuses) (inl (_, refl))
          ])
    | inl p ↦
        rw (p, Refuses)
          (elim (Option-cases request.credentials) [
            | inl q ↦ rw (q, Refuses) (inl (_, refl))
            | inr (token, q) ↦ rw (q, Refuses) (decoded_context-Refuses token)
          ])
  ]

  pub identify-IsRefusal :
      (request : HttpRequest) {e : PyError} → identify request ≡ err e → IsRefusal e
  unfolding Refuses
  identify-IsRefusal request p = subst Refuses p (identify-Refuses request)

  -- whether a request proves an identity whose role is high enough
  abbrev pub permits : HttpRequest → Role → Bool
  permits request required = elim (identify request) [
    | err e ↦ false
    | ok context ↦ not (ltb (role_order context.role) (role_order required))
  ]

  pub permits-ok :
      (request : HttpRequest) (required : Role) {context : AuthContext}
      → identify request ≡ ok context
      → permits request required ≡ not (ltb (role_order context.role) (role_order required))
  permits-ok request required p = rw (p, permits) refl

  pub permits-known :
      (request : HttpRequest) (required : Role)
      → permits request required ≡ true
      → (context : AuthContext) × (identify request ≡ ok context)
  permits-known request required p = elim (Result-cases (identify request)) [
    | inl (e, q) ↦ absurd (cc (p, q))
    | inr (context, q) ↦ (context, q)
  ]
