-- ===== src/Tests/Fixtures.antt =====
-- A concrete interpreter, process, database and worker for the runs of the theorems.
use fast_api_layers.Prelude.{not, ℕ, zero, suc, String, true, none, some, [], ◌∷◌}
use fast_api_layers.Value.{end, text, obj, dict}
use fast_api_layers.Effect.{external, ok, err}
use fast_api_layers.Events.{EventEnvelope}
use fast_api_layers.Platform.{Host, World}
use fast_api_layers.Projection.Columns.{columns, is_among}
use fast_api_layers.Projection.Session.{Orm, Session}
use fast_api_layers.Messaging.Consumer.{ConsumerRecord, Worker, State}

abbrev pub fresh : ℕ → String
fresh zero = "id-0"
fresh (suc zero) = "id-1"
fresh (suc (suc zero)) = "id-2"
fresh (suc (suc (suc zero))) = "id-3"
fresh (suc (suc (suc (suc n)))) = "id-4"

instance abbrev pub quiet_host : Host
quiet_host = record {
  uuid = fresh;
  now = λ n. n;
  isoformat = λ n. "2025-01-01T00:00:00+00:00";
  fromisoformat = λ s. some 7;
  str_value = λ v. "value";
  str_error = λ e. "error";
  to_json = λ v. v;
  publish_error = λ n. none;
  in_memory = true;
}

instance abbrev pub open_orm : Orm
open_orm = record { refuses = λ t name. not (is_among name (columns t)); violation = λ rows. none }

abbrev pub fresh_world : World
fresh_world = record {
  published = [];
  publish_calls = 0;
  correlation_id = "";
  trace_id = "trace";
  principal_id = "alice";
  uuids = 0;
  clock = 0;
}

abbrev pub agent_created_event : EventEnvelope
agent_created_event = record {
  event_id = "e1";
  event_version = "1.0";
  event_type = "agent.created";
  timestamp = 3;
  correlation_id = "c1";
  trace_id = "t1";
  source = "api.registry";
  entity_id = "a1";
  payload = dict (
      ("agent", obj (dict (("id", text "a1") ∷ ("name", text "planner") ∷ [])))
      ∷ ("agent_version", obj (dict (("id", text "v1") ∷ ("agent_id", text "a1") ∷ [])))
      ∷ []);
  metadata = end;
}

abbrev pub empty_session : Session
empty_session = record { rows = []; clock = 0 }

-- counts the events that it handles
abbrev pub counting_worker : Worker ℕ
counting_worker = record {
  name = "projection-worker";
  group_id = "projection";
  max_retries = 2;
  decode = λ s. ok agent_created_event;
  handler = λ n event r total. (ok tt, suc total);
  fault = λ n. none;
  assigned = λ topic partition. true;
}

-- its database is down at every attempt
abbrev pub failing_worker : Worker ℕ
failing_worker = record counting_worker {
  handler = λ n event r total. (err (external "database"), total);
}

-- it is sent bytes that are no event
abbrev pub deaf_worker : Worker ℕ
deaf_worker = record counting_worker { decode = λ s. err (external "json") }

abbrev pub first_record : ConsumerRecord
first_record = record { topic = "registry.events"; partition = 0; offset = 4; value = "{}" }

abbrev pub idle_state : State ℕ
idle_state = record { business = 0; processed = []; offsets = []; world = fresh_world; calls = 0 }
