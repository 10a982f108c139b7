-- ===== src/Monitoring/Health.antt =====
-- app/modules/monitoring/health.py. What the database, Redis and the model endpoints answer, the query of
-- the heartbeats among it, are parameters; a heartbeat is read as a time of UTC.
pub mod Status
pub mod Reports
use Prim.Native.String.{◌++◌ as append}
use fast_api_layers.Prelude.{
  ℕ, ◌+◌, ◌*◌, String, Bool, true, false, not, ◌&&◌, ◌||◌, Option, none, some, List, [], ◌∷◌, ◌++◌,
  map, ◌==◌, ltb, if◌then◌else◌,
}
use fast_api_layers.Value.{
  Value, int, text, datetime, arr, Items, nil, cons, obj, Fields, end, dict,
}
use fast_api_layers.Effect.{PyError, Result, ok, err, Action, pure, lift, ◌>>=◌, ◌>>◌}
use fast_api_layers.Topics.{system_health_topic}
use fast_api_layers.Platform.{Host, World, utc_now, event_envelope, publish}

-- app/modules/monitoring/schemas.py
pub record ComponentHealth : Type 0 where
  pub component : String
  pub status : String
  pub details : Fields
  pub checked_at : ℕ

pub record HealthSummary : Type 0 where
  pub status : String
  pub components : List ComponentHealth

-- of app/core/config.py
pub record HealthSettings : Type 0 where
  pub kafka_bootstrap_servers : List String
  pub model_probe_urls : List String
  pub heartbeat_ttl_seconds : ℕ

-- what is read of a row of `worker_heartbeats`
pub record Heartbeat : Type 0 where
  pub worker_name : String
  pub last_seen_at : ℕ

pub record Dependencies : Type 0 where
  -- the exceptions of `SELECT 1` and of the ping
  pub database_error : Option PyError
  pub redis_error : Option PyError
  -- the status code of a probe, after `raise_for_status`
  pub probe : String → Result ℕ
  -- the rows of `select(WorkerHeartbeat)`, or what the query raises
  pub heartbeats : Result (List Heartbeat)

unfoldable pub text_items : List String → Items
text_items [] = nil
text_items (s ∷ ss) = cons (text s) (text_items ss)

-- any(component.status == status for component in components)
unfoldable pub any_status : String → List ComponentHealth → Bool
any_status status [] = false
any_status status (c ∷ cs) = c.status == status || any_status status cs

-- heartbeat.last_seen_at < checked_at - timedelta(seconds=ttl * 2)
abbrev pub is_stale : ℕ → ℕ → Heartbeat → Bool
is_stale ttl checked_at heartbeat = ltb (heartbeat.last_seen_at + ttl * 2 * 1000000) checked_at

unfoldable pub stale_names : ℕ → ℕ → List Heartbeat → List String
stale_names ttl checked_at [] = []
stale_names ttl checked_at (heartbeat ∷ rest) =
    let names = stale_names ttl checked_at rest in
    if is_stale ttl checked_at heartbeat then heartbeat.worker_name ∷ names else names

-- `"passing" if heartbeats and not stale else "degraded"`
abbrev pub workers_status : List Heartbeat → List String → String
workers_status [] stale = "degraded"
workers_status (heartbeat ∷ heartbeats) [] = "passing"
workers_status (heartbeat ∷ heartbeats) (name ∷ stale) = "degraded"

-- the status of `deep`
unfoldable pub deep_status : List ComponentHealth → String
unfolding any_status
deep_status components =
    if any_status "failing" components
    then "failing"
    else if any_status "degraded" components
    then "degraded"
    else "passing"

-- the status of `ready`
unfoldable pub ready_status : List ComponentHealth → String
unfolding any_status
ready_status components = if any_status "failing" components then "failing" else "passing"

module _ ⦃h : Host⦄ where
  -- `_check_db` and `_check_redis`
  unfoldable pub check_service : String → Option PyError → Action World ComponentHealth
  check_service component none = do
    checked_at ← utc_now
    pure (record {
      component = component;
      status = "passing";
      details = end;
      checked_at = checked_at;
    })
  check_service component (some e) = do
    checked_at ← utc_now
    pure (record {
      component = component;
      status = "failing";
      details = dict (("error", text (h.str_error e)) ∷ []);
      checked_at = checked_at;
    })

  unfoldable pub check_kafka_state : HealthSettings → Action World ComponentHealth
  unfolding text_items
  check_kafka_state settings = do
    checked_at ← utc_now
    pure (record {
      component = "kafka";
      status = "passing";
      details =
          dict (("bootstrap_servers", arr (text_items settings.kafka_bootstrap_servers)) ∷ []);
      checked_at = checked_at;
    })

  abbrev pub probed : String → Result ℕ → ℕ → ComponentHealth
  probed url (ok status_code) checked_at = record {
    component = append "model:" url;
    status = "passing";
    details = dict (("status_code", int status_code) ∷ []);
    checked_at = checked_at;
  }
  probed url (err e) checked_at = record {
    component = append "model:" url;
    status = "degraded";
    details = dict (("error", text (h.str_error e)) ∷ []);
    checked_at = checked_at;
  }

  -- The query is not guarded: what it raises, the check raises.
  unfoldable pub check_workers :
      HealthSettings → Result (List Heartbeat) → Action World ComponentHealth
  unfolding text_items stale_names
  check_workers settings queried = do
    checked_at ← utc_now
    heartbeats ← lift queried
    let stale = stale_names settings.heartbeat_ttl_seconds checked_at heartbeats
    pure (record {
      component = "workers";
      status = workers_status heartbeats stale;
      details = dict (
          ("workers", arr (text_items (map (λ heartbeat. heartbeat.worker_name) heartbeats)))
          ∷ ("stale_workers", arr (text_items stale))
          ∷ []);
      checked_at = checked_at;
    })

  unfoldable pub live : Action World HealthSummary
  live = do
    checked_at ← utc_now
    pure (record {
      status = "passing";
      components =
          record {
            component = "api";
            status = "passing";
            details = dict (("message", text "process alive") ∷ []);
            checked_at = checked_at;
          }
          ∷ [];
    })

  -- the event of a component's check: `model_dump(mode="json")` is its payload
  abbrev pub component_payload : ComponentHealth → Fields
  component_payload c = dict (
      ("component", text c.component)
      ∷ ("status", text c.status)
      ∷ ("details", h.to_json (obj c.details))
      ∷ ("checked_at", h.to_json (datetime c.checked_at))
      ∷ [])

  unfoldable pub publish_health : List ComponentHealth → Action World (Unit {0})
  publish_health [] = pure tt
  publish_health (c ∷ cs) = do
    event ←
        event_envelope "health.recorded" "health-check" "health-check" "api.health" c.component
          (component_payload c) (dict (("aggregate", text "health") ∷ []))
    publish system_health_topic event
    publish_health cs

  module _ (settings : HealthSettings) (d : Dependencies) where
    -- the four checks that `ready` and `deep` share
    unfoldable pub check_components : Action World (List ComponentHealth)
    unfolding check_service check_kafka_state check_workers
    check_components = do
      db ← check_service "postgresql" d.database_error
      redis ← check_service "redis" d.redis_error
      kafka ← check_kafka_state settings
      workers ← check_workers settings d.heartbeats
      pure (db ∷ redis ∷ kafka ∷ workers ∷ [])

    -- the loop over the probe URLs with `_check_model_endpoint`
    unfoldable pub check_models : List String → Action World (List ComponentHealth)
    check_models [] = pure []
    check_models (url ∷ urls) = do
      checked_at ← utc_now
      rest ← check_models urls
      pure (probed url (d.probe url) checked_at ∷ rest)

    unfoldable pub ready : Action World HealthSummary
    unfolding check_components ready_status
    ready = do
      components ← check_components
      pure (record { status = ready_status components; components = components })

    unfoldable pub deep : Action World HealthSummary
    unfolding check_components check_models deep_status publish_health
    deep = do
      base ← check_components
      models ← check_models settings.model_probe_urls
      let components = base ++ models
      publish_health components
      pure (record { status = deep_status components; components = components })
