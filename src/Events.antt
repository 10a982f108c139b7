-- ===== src/Events.antt =====
-- app/domain/events.py: the envelope of every event, and the wrapper of a dead letter.
use fast_api_layers.Prelude.{ℕ, String}
use fast_api_layers.Value.{Fields}

pub record EventEnvelope : Type 0 where
  pub event_id : String
  pub event_version : String
  pub event_type : String
  -- microseconds
  pub timestamp : ℕ
  pub correlation_id : String
  pub trace_id : String
  pub source : String
  pub entity_id : String
  pub payload : Fields
  pub metadata : Fields

pub record DeadLetterEnvelope : Type 0 where
  pub topic : String
  pub consumer_group : String
  pub retry_count : ℕ
  pub error : String
  pub original_event : EventEnvelope
