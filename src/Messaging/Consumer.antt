-- ===== src/Messaging/Consumer.antt =====
-- `BaseConsumerWorker`: idempotency, retries, the dead-letter queue and the manual commit. The
-- database session of one attempt is a copy of the business state, which the commit of the session
-- makes durable together with the processed marker. Every call that may raise from outside is
-- numbered, and `fault` says which of them raise.
pub mod Once
pub mod Unique
pub mod Delivery
use Prim.Native.String.{◌++◌ as append}
use fast_api_layers.Prelude.{
  ℕ, zero, suc, ◌+◌, String, Bool, false, ◌&&◌, ◌||◌, Option, none, some, List, [], ◌∷◌, ◌++◌, ◌==◌,
  leb, if◌then◌else◌,
}
use fast_api_layers.Value.{Value, int, text, datetime, obj, Fields, dict}
use fast_api_layers.Effect.{
  PyError, key_error, Result, ok, err, Action, pure, gets, modify, lift, catch, or_raise, ◌>>=◌,
  ◌>>◌,
}
use fast_api_layers.Events.{EventEnvelope, DeadLetterEnvelope}
use fast_api_layers.Topics.{dlq_of}
use fast_api_layers.Platform.{Host, World, event_envelope, publish}

-- aiokafka's record, its value still in bytes
pub record ConsumerRecord : Type 0 where
  pub topic : String
  pub partition : ℕ
  pub offset : ℕ
  pub value : String

-- app/db/models.py
pub record ProcessedEvent : Type 0 where
  pub consumer_group : String
  pub event_id : String
  pub topic : String
  pub partition : ℕ
  pub offset : ℕ

-- One worker and what it stands on.
pub record Worker (D : Type 0) : Type 0 where
  pub name : String
  pub group_id : String
  pub max_retries : ℕ
  -- `deserialize_event`, by orjson and pydantic
  pub decode : String → Result EventEnvelope
  -- the injected handler, at the number of its call
  pub handler : ℕ → EventEnvelope → ConsumerRecord → Action D (Unit {0})
  -- does the numbered call of the database or the broker raise
  pub fault : ℕ → Option PyError
  -- the partitions that the group's coordinator assigned
  pub assigned : String → ℕ → Bool

pub record State (D : Type 0) : Type 0 where
  pub business : D
  pub processed : List ProcessedEvent
  -- the committed offsets, oldest first
  pub offsets : List (String × ℕ × ℕ)
  pub world : World
  pub calls : ℕ

-- `_is_processed`, for one consumer group
unfoldable pub is_processed : String → String → List ProcessedEvent → Bool
is_processed group_id event_id [] = false
is_processed group_id event_id (p ∷ ps) =
    (p.consumer_group == group_id && p.event_id == event_id) || is_processed group_id event_id ps

abbrev pub marker : String → EventEnvelope → ConsumerRecord → ProcessedEvent
marker group_id event record' = record {
  consumer_group = group_id;
  event_id = event.event_id;
  topic = record'.topic;
  partition = record'.partition;
  offset = record'.offset;
}

-- `f"{event.event_type}.dlq"`
unfoldable pub dlq_type : String → String
dlq_type event_type = append event_type ".dlq"

module _ {D : Type 0} where
  -- a call of the process's own services
  abbrev pub in_world : {A : Type 0} → Action World A → Action (State D) A
  in_world m s = let (r, w) = m s.world in (r, record s { world = w })

  abbrev pub handled : Result (Unit {0}) × D → State D → Result D × State D
  handled (ok _, business) s = (ok business, s)
  handled (err e, _) s = (err e, s)

  module _ (w : Worker D) where
    -- a numbered call that may raise
    unfoldable pub external_call : Action (State D) (Unit {0})
    external_call s = elim (w.fault s.calls) [
      | none ↦ (ok tt, record s { calls = s.calls + 1 })
      | some e ↦ (err e, record s { calls = s.calls + 1 })
    ]

    -- `_commit`: nothing is committed for a partition that is not assigned.
    unfoldable pub commit : ConsumerRecord → Action (State D) (Unit {0})
    unfolding external_call
    commit r =
        if w.assigned r.topic r.partition
        then (do
          external_call
          modify
              (λ s. record s { offsets = s.offsets ++ (r.topic, r.partition, r.offset + 1) ∷ [] }))
        else pure tt

    -- the handler on the session's copy of the business state
    unfoldable pub call_handler : EventEnvelope → ConsumerRecord → Action (State D) D
    call_handler event r s =
        handled (w.handler s.calls event r s.business) (record s { calls = s.calls + 1 })

    -- the handler, the processed marker, the commit of the session, and the offset
    unfoldable pub handle_new : EventEnvelope → ConsumerRecord → Action (State D) (Unit {0})
    handle_new event r = do
      business ← call_handler event r
      external_call
      modify (λ s. record s {
        business = business;
        processed = s.processed ++ marker w.group_id event r ∷ [];
      })
      commit r

    -- the body of `try`: the query of the marker, and the rollback of a duplicate's session
    unfoldable pub attempt_once : EventEnvelope → ConsumerRecord → Action (State D) (Unit {0})
    attempt_once event r = do
      external_call
      processed ← gets (λ s. is_processed w.group_id event.event_id s.processed)
      if processed then external_call >> commit r else handle_new event r

    module _ ⦃h : Host⦄ where
      -- `DeadLetterEnvelope(...).model_dump(mode="json")`
      unfoldable pub dump_dead_letter : DeadLetterEnvelope → Fields
      dump_dead_letter d =
          let e = d.original_event in
          dict (
            ("topic", text d.topic)
            ∷ ("consumer_group", text d.consumer_group)
            ∷ ("retry_count", int d.retry_count)
            ∷ ("error", text d.error)
            ∷ (
              "original_event",
              obj (
                  dict (
                    ("event_id", text e.event_id)
                    ∷ ("event_version", text e.event_version)
                    ∷ ("event_type", text e.event_type)
                    ∷ ("timestamp", h.to_json (datetime e.timestamp))
                    ∷ ("correlation_id", text e.correlation_id)
                    ∷ ("trace_id", text e.trace_id)
                    ∷ ("source", text e.source)
                    ∷ ("entity_id", text e.entity_id)
                    ∷ ("payload", h.to_json (obj e.payload))
                    ∷ ("metadata", h.to_json (obj e.metadata))
                    ∷ [])),
            )
            ∷ [])

      -- the event for the dead-letter topic, and its publication
      unfoldable pub send_dead_letter :
          String → String → EventEnvelope → String → ℕ → Action World (Unit {0})
      send_dead_letter dlq_topic topic event error retry_count = do
        dead ←
            event_envelope (dlq_type event.event_type) event.correlation_id event.trace_id w.name
              event.entity_id
              (dump_dead_letter (record {
                topic = topic;
                consumer_group = w.group_id;
                retry_count = retry_count;
                error = error;
                original_event = event;
              }))
              (dict (("dlq_topic", text dlq_topic) ∷ []))
        publish dlq_topic dead

      unfoldable pub publish_dlq : String → EventEnvelope → String → ℕ → Action (State D) (Unit {0})
      publish_dlq topic event error retry_count = do
        dlq_topic ← lift (or_raise (key_error topic) (dlq_of topic))
        in_world (send_dead_letter dlq_topic topic event error retry_count)

      -- the body of `except`
      unfoldable pub failed :
          ℕ
          → EventEnvelope
          → ConsumerRecord
          → PyError
          → Action (State D) (Unit {0})
          → Action (State D) (Unit {0})
      failed attempt event r e next =
          if leb w.max_retries attempt
          then (do publish_dlq r.topic event (h.str_error e) attempt; commit r)
          else next

      -- `for attempt in range(1, self.max_retries + 1)`, with the rounds that are left
      unfoldable pub attempts : ℕ → ℕ → EventEnvelope → ConsumerRecord → Action (State D) (Unit {0})
      attempts zero attempt event r = pure tt
      attempts (suc left) attempt event r =
          let next = attempts left (attempt + 1) event r in
          catch (attempt_once event r) (λ e. failed attempt event r e next)

      unfoldable pub process_record : ConsumerRecord → Action (State D) (Unit {0})
      process_record r = do event ← lift (w.decode r.value); attempts w.max_retries 1 event r

      -- `run_forever` over the records that it polls: an error that escapes ends the worker.
      unfoldable pub process_all : List ConsumerRecord → Action (State D) (Unit {0})
      process_all [] = pure tt
      process_all (r ∷ rs) = do process_record r; process_all rs

      -- The runs of a worker that is started again after each stop, whatever it is sent.
      unfoldable pub restarts : List (List ConsumerRecord) → State D → State D
      restarts [] s = s
      restarts (batch ∷ batches) s = restarts batches (process_all batch s).1
