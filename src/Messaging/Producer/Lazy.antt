-- ===== src/Messaging/Producer/Lazy.antt =====
-- What one publication sends, and the publications after a start that failed.
use fast_api_layers.Prelude.{
  ℕ, String, Bool, ◌≡◌, refl, ap, ◌∙◌, Option, none, some, Option-cases, ◌⊎◌, inl, inr, List, [],
  ◌∷◌, ◌++◌, false,
}
use fast_api_layers.Effect.{PyError, Result, ok, err, continue, Result-cases}
use fast_api_layers.Events.{EventEnvelope}
use fast_api_layers.Platform.{Host}
use fast_api_layers.Messaging.Publisher.{headers_of}
use fast_api_layers.Messaging.Publisher.Stated.{stated_key, message_key-stated}
use fast_api_layers.Messaging.Producer.{
  Message, Delivery, acknowledged, refused, unacknowledged, sent_as, Broker, Connection,
  start_producer, send_and_wait, publish_event,
}

module _ ⦃h : Host⦄ ⦃broker : Broker⦄ where
  -- the message of an event
  abbrev pub message_of :
      String → EventEnvelope → Option String → List (String × String) → String → Message
  message_of topic event key headers value = record {
    topic = topic;
    value = value;
    key = stated_key key event;
    headers =
        headers
        ++ ("event_type", event.event_type)
          ∷ ("event_id", event.event_id)
          ∷ ("correlation_id", event.correlation_id)
          ∷ ("trace_id", event.trace_id)
          ∷ [];
  }

  -- the broker got the message, which was serialised, once more
  abbrev pub GotOne : (String → Message) → Result String → Connection → Connection → Type 0
  GotOne message serialized c c' =
      (value : String) × (serialized ≡ ok value) × (c'.sent ≡ c.sent ++ message value ∷ [])

  -- Either a call returned and the broker got the message once; or it raised and the broker got the
  -- message once or not at all.
  abbrev pub SentOnce :
      (String → Message) → Result String → Connection → Result (Unit {0}) × Connection → Type 0
  SentOnce message serialized c out =
      ((out.0 ≡ ok tt) × GotOne message serialized c out.1)
      ⊎ ((e : PyError) × (out.0 ≡ err e)
          × ((out.1.sent ≡ c.sent) ⊎ GotOne message serialized c out.1))

  sent_as-Sent :
      (delivery : Delivery) (message : String → Message) (value : String) (c : Connection)
      → SentOnce message (ok value) c (sent_as delivery (message value) c)
  sent_as-Sent acknowledged message value c = inl (refl, (value, refl, refl))
  sent_as-Sent (refused e) message value c = inr (e, refl, inl refl)
  sent_as-Sent (unacknowledged e) message value c = inr (e, refl, inr (value, refl, refl))

  send-Sent :
      (producer : Option Bool) (sent : List Message) (calls : ℕ) (message : String → Message)
      (value : String)
      → let c : Connection = record { producer = producer; sent = sent; calls = calls } in
        SentOnce message (ok value) c (send_and_wait (message value) c)
  unfolding send_and_wait
  send-Sent none sent calls message value = inr (_, refl, inl refl)
  send-Sent (some started) sent calls message value =
      sent_as-Sent (broker.delivery started calls) message value _

  send_and_wait-Sent :
      (message : String → Message) (value : String) (c : Connection)
      → SentOnce message (ok value) c (send_and_wait (message value) c)
  send_and_wait-Sent message value c = send-Sent c.producer c.sent c.calls message value

  start_producer-sent : (c : Connection) → (start_producer c).1.sent ≡ c.sent
  unfolding start_producer
  start_producer-sent c = elim (Option-cases c.producer) [
    | inl e ↦
        rw e (elim (Option-cases (broker.start_error c.calls)) [
          | inl e1 ↦ rw e1
          | inr (x, e1) ↦ rw e1
        ])
    | inr (started, e) ↦ rw e
  ]

  SentOnce-from :
      (message : String → Message) (serialized : Result String) (c c' : Connection)
      (out : Result (Unit {0}) × Connection)
      → c'.sent ≡ c.sent
      → SentOnce message serialized c' out
      → SentOnce message serialized c out
  SentOnce-from message serialized c c' out same (inl (returned, (value, se, log))) =
      inl (returned, (value, se, log ∙ ap (λ l. l ++ message value ∷ []) same))
  SentOnce-from message serialized c c' out same (inr (e, raised, inl log)) =
      inr (e, raised, inl (log ∙ same))
  SentOnce-from message serialized c c' out same (inr (e, raised, inr (value, se, log))) =
      inr (e, raised, inr (value, se, log ∙ ap (λ l. l ++ message value ∷ []) same))

  send_serialized-Sent :
      (message : String → Message) (serialized : Result String) (c : Connection)
      → SentOnce message serialized c
          (continue (serialized, c) (λ value. send_and_wait (message value)))
  send_serialized-Sent message (ok value) c = send_and_wait-Sent message value c
  send_serialized-Sent message (err e) c = inr (e, refl, inl refl)

  started-Sent :
      (message : String → Message) (serialized : Result String) (c : Connection)
      (r : Result (Unit {0}) × Connection)
      → r.1.sent ≡ c.sent
      → SentOnce message serialized c
          (continue r (λ u c'. continue (serialized, c') (λ value. send_and_wait (message value))))
  started-Sent message serialized c (ok tt, c') same =
      SentOnce-from message serialized c c'
        (continue (serialized, c') (λ value. send_and_wait (message value))) same
        (send_serialized-Sent message serialized c')
  started-Sent message serialized c (err e, c') same = inr (e, refl, inl same)

  -- However the calls of an idempotent client end: where a publication returns, the broker got the event's message once;
  -- where it raises, once or not at all. The message has the bytes of the envelope, the given headers
  -- and then the event's type, id, correlation and trace, and as its key the given one, if it is not
  -- empty, else the first of `agent_id`, `model_id`, `deployment_id` and `execution_run_id` of the
  -- payload that is true, else the event's entity.
  pub publish_event-SentOnce :
      (topic : String) (event : EventEnvelope) (key : Option String)
      (headers : List (String × String)) (c : Connection)
      → SentOnce
          (message_of topic event key headers)
          (broker.serialize_event event)
          c
          (publish_event topic event key headers c)
  unfolding publish_event headers_of
  publish_event-SentOnce topic event key headers c = rw (message_key-stated key event) (
      started-Sent (message_of topic event key headers) (broker.serialize_event event) c
        (start_producer c) (start_producer-sent c))

  -- publications one after the other, whatever each of them raises
  abbrev pub publish_each : List (String × EventEnvelope) → Connection → Connection
  publish_each [] c = c
  publish_each ((topic, event) ∷ rest) c = publish_each rest (publish_event topic event none [] c).1

  module _ (refuses : (n : ℕ) → (e : PyError) × (broker.delivery false n ≡ refused e)) where
    -- a connection that holds a producer which did not start
    abbrev IsStuck : List Message → Connection → Type 0
    IsStuck sent c = (c.producer ≡ some false) × (c.sent ≡ sent)

    publish_event-IsStuck :
        (topic : String) (event : EventEnvelope) {sent : List Message} (c : Connection)
        → IsStuck sent c
        → IsStuck sent (publish_event topic event none [] c).1
    unfolding publish_event start_producer send_and_wait
    publish_event-IsStuck topic event c (held, log) =
        rw held (elim (Result-cases (broker.serialize_event event)) [
          | inl (x, e) ↦ rw e (refl, log)
          | inr (value, e) ↦ let (x, e1) = refuses c.calls in rw e (rw e1 (refl, log))
        ])

    publish_each-IsStuck :
        (events : List (String × EventEnvelope)) {sent : List Message} (c : Connection)
        → IsStuck sent c
        → IsStuck sent (publish_each events c)
    publish_each-IsStuck [] c stuck = stuck
    publish_each-IsStuck ((topic, event) ∷ rest) c stuck =
        publish_each-IsStuck rest (publish_event topic event none [] c).1
          (publish_event-IsStuck topic event c stuck)

    start_producer-IsStuck :
        (c : Connection) {x : PyError}
        → c.producer ≡ none
        → broker.start_error c.calls ≡ some x
        → IsStuck c.sent (start_producer c).1
    unfolding start_producer
    start_producer-IsStuck c absent fails = rw (absent, fails) (refl, refl)

    -- Where a producer that did not start sends nothing, and the start of a publisher without a
    -- producer raised, the broker gets none of the events that are published after it, however
    -- many they are and whether or not it could be reached again.
    pub publish_each-unsent :
        (events : List (String × EventEnvelope)) (c : Connection) {x : PyError}
        → c.producer ≡ none
        → broker.start_error c.calls ≡ some x
        → (publish_each events (start_producer c).1).sent ≡ c.sent
    publish_each-unsent events c absent fails =
        (publish_each-IsStuck events (start_producer c).1 (start_producer-IsStuck c absent fails)).1
