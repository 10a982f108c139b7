-- ===== src/Messaging/Publisher.antt =====
-- The message that `EventPublisher.publish` hands to the producer.
pub mod Stated
use fast_api_layers.Prelude.{String, Option, none, some, List, [], ◌∷◌, ◌++◌, ◌==◌, if◌then◌else◌}
use fast_api_layers.Value.{Value, Fields, get, truthy}
use fast_api_layers.Events.{EventEnvelope}
use fast_api_layers.Platform.{Host, str}

-- the names that a partition key is taken from, the first that is given
abbrev pub key_names : List String
key_names = "agent_id" ∷ "model_id" ∷ "deployment_id" ∷ "execution_run_id" ∷ []

module _ ⦃h : Host⦄ where
  -- The value under a name, if it is there and true.
  abbrev pub given : Option Value → Option String
  given none = none
  given (some v) = if truthy v then some (str v) else none

  unfoldable pub first_key : List String → String → Fields → String
  first_key [] entity_id payload = entity_id
  first_key (name ∷ names) entity_id payload = elim (given (get name payload)) [
    | some key ↦ key
    | none ↦ first_key names entity_id payload
  ]

  unfoldable pub default_partition_key : EventEnvelope → String
  unfolding first_key
  default_partition_key event = first_key key_names event.entity_id event.payload

  -- `with_headers`
  unfoldable pub headers_of : List (String × String) → EventEnvelope → List (String × String)
  headers_of headers event =
      headers
      ++ ("event_type", event.event_type)
        ∷ ("event_id", event.event_id)
        ∷ ("correlation_id", event.correlation_id)
        ∷ ("trace_id", event.trace_id)
        ∷ []

  -- `key or default_partition_key(event)`
  unfoldable pub message_key : Option String → EventEnvelope → String
  message_key none event = default_partition_key event
  message_key (some key) event = if key == "" then default_partition_key event else key
