-- ===== src/Platform.antt =====
-- What the services stand on: the interpreter and its libraries as a parameter (`Host`), the state
-- of one process (`World`), and the publisher of app/messaging/kafka.py as the services see it.
pub mod Context
pub mod Settled
use fast_api_layers.Prelude.{ℕ, ◌+◌, String, Bool, Option, none, some, List, [], ◌∷◌, ◌++◌}
use fast_api_layers.Value.{Value, Fields, text}
use fast_api_layers.Effect.{PyError, ok, err, Action, pure, ◌>>=◌}
use fast_api_layers.Events.{EventEnvelope}

-- Code that is not the repository's: `uuid4` and the clock as the sequences that they return,
-- text conversions, and the failures of the publisher, by the number of the call.
pub record Host : Type 0 where
  pub uuid : ℕ → String
  pub now : ℕ → ℕ
  pub isoformat : ℕ → String
  pub fromisoformat : String → Option ℕ
  -- `str(v)` of a value that is no text, and `str(exc)`
  pub str_value : Value → String
  pub str_error : PyError → String
  -- pydantic's `model_dump(mode="json")` of one value
  pub to_json : Value → Value
  pub publish_error : ℕ → Option PyError
  -- is the publisher an `InMemoryPublisher`
  pub in_memory : Bool

pub record World : Type 0 where
  -- the events accepted by the publisher, oldest first, with their topics
  pub published : List (String × EventEnvelope)
  pub publish_calls : ℕ
  -- the context variables of app/core/context.py
  pub correlation_id : String
  pub trace_id : String
  pub principal_id : String
  -- how often `uuid4` and `utc_now` were called
  pub uuids : ℕ
  pub clock : ℕ

module _ ⦃h : Host⦄ where
  unfoldable pub uuid4 : Action World String
  uuid4 w = (ok (h.uuid w.uuids), record w { uuids = w.uuids + 1 })

  -- app/db/base.py
  unfoldable pub utc_now : Action World ℕ
  utc_now w = (ok (h.now w.clock), record w { clock = w.clock + 1 })

  -- `str(v)`
  unfoldable pub str : Value → String
  str (text s) = s
  str v = h.str_value v

  -- `EventEnvelope(...)`: the defaults of `event_id` and `timestamp` are drawn on construction.
  unfoldable pub event_envelope :
      String → String → String → String → String → Fields → Fields → Action World EventEnvelope
  unfolding uuid4 utc_now
  event_envelope event_type correlation_id trace_id source entity_id payload metadata = do
    event_id ← uuid4
    timestamp ← utc_now
    pure (record {
      event_id = event_id;
      event_version = "1.0";
      event_type = event_type;
      timestamp = timestamp;
      correlation_id = correlation_id;
      trace_id = trace_id;
      source = source;
      entity_id = entity_id;
      payload = payload;
      metadata = metadata;
    })

  -- `PublisherProtocol.publish`, which for `InMemoryPublisher` is the append alone.
  unfoldable pub publish : String → EventEnvelope → Action World (Unit {0})
  publish topic event w = elim (h.publish_error w.publish_calls) [
    | none ↦ (
      ok tt,
      record w {
        published = w.published ++ (topic, event) ∷ [];
        publish_calls = w.publish_calls + 1;
      },
    )
    | some e ↦ (err e, record w { publish_calls = w.publish_calls + 1 })
  ]
