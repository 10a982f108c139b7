-- ===== src/Tests/Messaging.antt =====
-- Runs of a worker.
use fast_api_layers.Effect.{PyError, external, ok}
use fast_api_layers.Prelude.{
  ◌≡◌, ℕ, zero, suc, refl, none, some, true, false, Option, Bool, [], ◌∷◌, arith,
}
use fast_api_layers.Topics.{dlq_of}
use fast_api_layers.Platform.{event_envelope, publish}
use fast_api_layers.Messaging.Consumer.{
  process_record, restarts, State, attempts, attempt_once, external_call, is_processed, handle_new,
  call_handler, failed, publish_dlq, send_dead_letter, commit,
}
use fast_api_layers.Messaging.Consumer.Once.{Committed, view, restarts-Committed}
use fast_api_layers.Messaging.Consumer.Unique.{Unique, restarts-Unique}
use fast_api_layers.Messaging.Consumer.Delivery.{Delivered, process_record-Delivered}
use fast_api_layers.Messaging.Producer.{
  Delivery, acknowledged, refused, Broker, Connection, publish_event, start_producer,
}
use fast_api_layers.Messaging.Producer.Lazy.{
  message_of, SentOnce, publish_event-SentOnce, publish_each, publish_each-unsent,
}
use fast_api_layers.Tests.Fixtures.{
  quiet_host, counting_worker, failing_worker, first_record, idle_state, agent_created_event,
}

restarts-Committed_example : Committed counting_worker (view idle_state) (
    view (
      restarts counting_worker
        ((first_record ∷ []) ∷ (first_record ∷ first_record ∷ []) ∷ [])
        idle_state))
restarts-Committed_example =
    restarts-Committed counting_worker
      ((first_record ∷ []) ∷ (first_record ∷ first_record ∷ []) ∷ []) idle_state

restarts-Unique_example :
    Unique
      (restarts counting_worker
        ((first_record ∷ []) ∷ (first_record ∷ []) ∷ [])
        idle_state).processed
restarts-Unique_example =
    restarts-Unique counting_worker ((first_record ∷ []) ∷ (first_record ∷ []) ∷ []) idle_state tt

abbrev after_failure : State ℕ
after_failure = (process_record failing_worker first_record idle_state).1

process_record-Delivered_example :
    Delivered failing_worker agent_created_event first_record after_failure
unfolding process_record attempts attempt_once external_call is_processed handle_new call_handler
    failed publish_dlq dlq_of send_dead_letter event_envelope publish commit
process_record-Delivered_example =
    process_record-Delivered failing_worker agent_created_event first_record idle_state
      after_failure (omega arith) refl refl

-- a broker that cannot be reached at first
abbrev late_start : ℕ → Option PyError
late_start zero = some (external "kafka")
late_start (suc n) = none

abbrev started_only : Bool → ℕ → Delivery
started_only true n = acknowledged
started_only false n = refused (external "kafka")

instance abbrev late_broker : Broker
late_broker = record {
  start_error = late_start;
  stop_error = λ n. none;
  delivery = started_only;
  serialize_event = λ event. ok "{}";
}

abbrev new_connection : Connection
new_connection = record { producer = none; sent = []; calls = 0 }

publish_event-SentOnce_example :
    SentOnce
      (message_of "registry.events" agent_created_event none [])
      (ok "{}")
      (record new_connection { calls = 1 })
      (publish_event "registry.events" agent_created_event none []
        (record new_connection { calls = 1 }))
publish_event-SentOnce_example =
    publish_event-SentOnce "registry.events" agent_created_event none []
      (record new_connection { calls = 1 })

publish_each-unsent_example :
    (publish_each
      (("registry.events", agent_created_event) ∷ [])
      (start_producer new_connection).1).sent
    ≡ []
publish_each-unsent_example =
    publish_each-unsent (λ n. (_, refl)) (("registry.events", agent_created_event) ∷ [])
      new_connection refl refl
