-- ===== src/Messaging/Producer.antt =====
-- `start`, `stop` and `publish` of `EventPublisher`: the producer that it holds, and the messages
-- that it sends.
pub mod Lazy
use fast_api_layers.Prelude.{
  ℕ, suc, ◌+◌, String, Bool, true, false, Option, none, some, List, [], ◌∷◌, ◌++◌,
}
use fast_api_layers.Effect.{
  PyError, assertion_error, Result, ok, err, Action, pure, raise, lift, gets, ◌>>=◌, ◌>>◌,
}
use fast_api_layers.Events.{EventEnvelope}
use fast_api_layers.Platform.{Host}
use fast_api_layers.Messaging.Publisher.{headers_of, message_key}

pub record Message : Type 0 where
  pub topic : String
  pub value : String
  pub key : String
  pub headers : List (String × String)

-- How `send_and_wait` ends: acknowledged; with an error before the broker stored the message; or
-- with an error after it did, as when the acknowledgement is late. The producer is idempotent, as
-- `kafka_enable_idempotence` has it by default, so that its own retries store nothing twice.
pub data Delivery : Type 0 where
  acknowledged : Delivery
  refused unacknowledged : PyError → Delivery

-- The client of aiokafka: what its `start` and `stop` raise and how its `send_and_wait` ends, by the
-- number of the call, and for a send whether the producer's start returned; and the bytes of an
-- envelope.
pub record Broker : Type 0 where
  pub start_error : ℕ → Option PyError
  pub stop_error : ℕ → Option PyError
  pub delivery : Bool → ℕ → Delivery
  pub serialize_event : EventEnvelope → Result String

-- The publisher: the producer that it holds, if any, by whether the producer's start returned; what
-- the broker got; and the number of calls of the client.
pub record Connection : Type 0 where
  pub producer : Option Bool
  pub sent : List Message
  pub calls : ℕ

module _ ⦃h : Host⦄ ⦃broker : Broker⦄ where
  -- the start of the producer that is held, which is held whether it starts or not
  abbrev started_as : Option PyError → Action Connection (Unit {0})
  started_as none c = (ok tt, record c { producer = some true; calls = c.calls + 1 })
  started_as (some e) c = (err e, record c { producer = some false; calls = c.calls + 1 })

  unfoldable pub start_producer : Action Connection (Unit {0})
  start_producer c = elim c.producer [
    | none ↦ started_as (broker.start_error c.calls) c
    | some started ↦ (ok tt, c)
  ]

  abbrev stopped_as : Option PyError → Action Connection (Unit {0})
  stopped_as none c = (ok tt, record c { producer = none; calls = c.calls + 1 })
  stopped_as (some e) c = (err e, record c { calls = c.calls + 1 })

  unfoldable pub stop_producer : Action Connection (Unit {0})
  stop_producer c = elim c.producer [
    | none ↦ (ok tt, c)
    | some started ↦ stopped_as (broker.stop_error c.calls) c
  ]

  abbrev sent_as : Delivery → Message → Action Connection (Unit {0})
  sent_as acknowledged message c =
      (ok tt, record c { sent = c.sent ++ message ∷ []; calls = c.calls + 1 })
  sent_as (refused e) message c = (err e, record c { calls = c.calls + 1 })
  sent_as (unacknowledged e) message c =
      (err e, record c { sent = c.sent ++ message ∷ []; calls = c.calls + 1 })

  unfoldable pub send_and_wait : Message → Action Connection (Unit {0})
  send_and_wait message c = elim c.producer [
    | none ↦ (err assertion_error, c)
    | some started ↦ sent_as (broker.delivery started c.calls) message c
  ]

  unfoldable pub publish_event :
      String → EventEnvelope → Option String → List (String × String) → Action Connection (Unit {0})
  publish_event topic event key headers = do
    started ← start_producer
    value ← lift (broker.serialize_event event)
    send_and_wait (record {
      topic = topic;
      value = value;
      key = message_key key event;
      headers = headers_of headers event;
    })
