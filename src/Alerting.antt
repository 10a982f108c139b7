-- ===== src/Alerting.antt =====
-- `AlertingService` of app/modules/alerting/service.py. The query for the alert of a key is an
-- argument, and the webhook posts, whose failures are swallowed, are returned beside the event.
pub mod Cooldown
pub mod Queries
pub mod Api
use Prim.Native.String.{◌++◌ as append}
use fast_api_layers.Prelude.{
  ℕ, ◌+◌, ◌*◌, String, Bool, false, Option, none, some, List, [], ◌∷◌, ltb, if◌then◌else◌,
}
use fast_api_layers.Value.{Value, text, datetime, obj, Fields, dict, truthy, optional}
use fast_api_layers.Effect.{Action, pure, ◌>>=◌, ◌>>◌}
use fast_api_layers.Events.{EventEnvelope}
use fast_api_layers.Topics.{alerts_events_topic}
use fast_api_layers.Platform.{Host, World, uuid4, utc_now, event_envelope, publish}

-- of app/core/config.py
pub record AlertSettings : Type 0 where
  pub alert_cooldown_seconds : ℕ
  pub default_alert_webhook : Option String

-- what is read of a row of `alerts`
pub record AlertRow : Type 0 where
  pub id : String
  pub last_sent_at : Option ℕ

-- the arguments of `process_signal`
pub record Signal : Type 0 where
  pub signal_type : String
  pub source_event : EventEnvelope
  pub severity : String
  pub title : String
  pub description : String
  pub entity_type : String
  pub entity_id : String

unfoldable pub dedupe_key_of : Signal → String
dedupe_key_of p =
    append p.signal_type
      (append ":" (append p.entity_type (append ":" (append p.entity_id (append ":" p.title)))))

-- a JSON body for the webhook
abbrev pub Post : Type 0
Post = String × Fields

-- `_dispatch_notifications`
unfoldable pub dispatch_notifications : AlertSettings → Signal → List Post
dispatch_notifications settings p = elim settings.default_alert_webhook [
  | none ↦ []
  | some url ↦
      if truthy (text url)
      then (
        url,
        dict (
            ("severity", text p.severity)
            ∷ ("title", text p.title)
            ∷ ("description", text p.description)
            ∷ []),
      )
        ∷ []
      else []
]

-- the cooldown in microseconds
abbrev pub cooldown : AlertSettings → ℕ
cooldown settings = settings.alert_cooldown_seconds * 1000000

-- `now - existing.last_sent_at < cooldown`, of an alert that was sent
abbrev pub within : ℕ → Option ℕ → ℕ → Bool
within gap none now = false
within gap (some last) now = ltb now (last + gap)

abbrev pub last_sent : Option AlertRow → Option ℕ
last_sent none = none
last_sent (some row) = row.last_sent_at

abbrev pub alert_event_type : Option AlertRow → String
alert_event_type none = "alert.created"
alert_event_type (some row) = "alert.updated"

module _ ⦃h : Host⦄ where
  abbrev pub alert_id_of : Option AlertRow → Action World String
  alert_id_of none = uuid4
  alert_id_of (some row) = pure row.id

  unfoldable pub alert_payload : String → Signal → ℕ → Fields
  alert_payload alert_id p now = dict (
      (
        "alert",
        obj (
            dict (
              ("id", text alert_id)
              ∷ ("severity", text p.severity)
              ∷ ("dedupe_key", text (dedupe_key_of p))
              ∷ ("source_event_id", text p.source_event.event_id)
              ∷ ("title", text p.title)
              ∷ ("description", text p.description)
              ∷ ("status", text "open")
              ∷ ("last_sent_at", datetime now)
              ∷ [])),
      )
      ∷ [])

  -- the alert of a signal that is not skipped
  unfoldable pub send_alert :
      AlertSettings → Option AlertRow → Signal → ℕ → Action World (Option EventEnvelope × List Post)
  send_alert settings existing p now = do
    alert_id ← alert_id_of existing
    event ←
        event_envelope (alert_event_type existing) p.source_event.correlation_id
          p.source_event.trace_id "worker.alerting" alert_id (alert_payload alert_id p now)
          (dict (("aggregate", text "alert") ∷ []))
    publish alerts_events_topic event
    pure (some event, dispatch_notifications settings p)

  unfoldable pub process_signal :
      AlertSettings
      → (String → Option AlertRow)
      → Signal
      → Action World (Option EventEnvelope × List Post)
  process_signal settings find p = do
    now ← utc_now
    if within (cooldown settings) (last_sent (find (dedupe_key_of p))) now
        then pure (none, [])
        else send_alert settings (find (dedupe_key_of p)) p now
