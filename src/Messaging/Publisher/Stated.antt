-- ===== src/Messaging/Publisher/Stated.antt =====
-- The key of a message, said without the loop of `default_partition_key`.
use mathlib.Core.Option
use fast_api_layers.Prelude.{
  String, ◌≡◌, refl, ap, ◌∙◌, Option, none, some, Bool-cases, inl, inr, List, [], ◌∷◌, ◌==◌,
  if◌then◌else◌,
}
use fast_api_layers.Value.{Value, text, Fields, get, truthy}
use fast_api_layers.Events.{EventEnvelope}
use fast_api_layers.Platform.{Host, str}
use fast_api_layers.Messaging.Publisher.{given, first_key, default_partition_key, message_key}

module _ ⦃h : Host⦄ where
  -- the text of a value that is there and true, or another
  abbrev pub prefer : Option Value → String → String
  prefer none other = other
  prefer (some v) other = if truthy v then str v else other

  -- the key that is given, then the four identifiers of the payload, then the entity
  abbrev pub stated_key : Option String → EventEnvelope → String
  stated_key key event = prefer (Option.map (λ k. text k) key) (
      prefer (get "agent_id" event.payload) (
        prefer (get "model_id" event.payload) (
          prefer (get "deployment_id" event.payload)
            (prefer (get "execution_run_id" event.payload) event.entity_id))))

  given-prefer :
      (found : Option Value) (other : String)
      → (elim (given found) [ some key ↦ key | none ↦ other ]) ≡ prefer found other
  given-prefer none other = refl
  given-prefer (some v) other = elim (Bool-cases (truthy v)) [
    | inl p ↦ rw p refl
    | inr p ↦ rw p refl
  ]

  first_key-prefer :
      (name : String) (names : List String) (entity_id : String) (payload : Fields)
      → first_key (name ∷ names) entity_id payload
        ≡ prefer (get name payload) (first_key names entity_id payload)
  unfolding first_key
  first_key-prefer name names entity_id payload =
      given-prefer (get name payload) (first_key names entity_id payload)

  default_partition_key-stated :
      (event : EventEnvelope) → default_partition_key event ≡ stated_key none event
  unfolding default_partition_key first_key
  default_partition_key-stated event =
      let p = event.payload in
      let e = event.entity_id in
      first_key-prefer "agent_id" ("model_id" ∷ "deployment_id" ∷ "execution_run_id" ∷ []) e p
      ∙ ap (prefer (get "agent_id" p)) (
          first_key-prefer "model_id" ("deployment_id" ∷ "execution_run_id" ∷ []) e p
          ∙ ap (prefer (get "model_id" p)) (
              first_key-prefer "deployment_id" ("execution_run_id" ∷ []) e p
              ∙ ap (prefer (get "deployment_id" p)) (first_key-prefer "execution_run_id" [] e p)))

  pub message_key-stated :
      (key : Option String) (event : EventEnvelope) → message_key key event ≡ stated_key key event
  unfolding message_key truthy str
  message_key-stated none event = default_partition_key-stated event
  message_key-stated (some k) event = elim (Bool-cases (k == "")) [
    | inl e ↦ rw e (default_partition_key-stated event)
    | inr e ↦ rw e refl
  ]
